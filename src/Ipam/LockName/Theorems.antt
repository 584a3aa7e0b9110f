-- ===== src/Ipam/LockName/Theorems.antt =====
-- What the names of IPLock objects say.
use kube_examples.Common.{
  ℕ, ◌+◌, ◌*◌, ◌%◌, ◌^◌, ◌<◌, ◌≡◌, refl, ap, ◌∙◌, some, List, [], ◌∷◌, two_32, arith,
}
use kube_examples.GoNet.{IPv4}
use kube_examples.GoText.{Text, text_eq, format_decimal, split}
use kube_examples.GoText.Decimal.{format_decimal-differ, parse_uint-format_decimal}
use kube_examples.GoText.Splitting.{Avoids, split-join, split_whole}
use kube_examples.Ipam.LockName.{
  ipv4_to_uint32, uint32_to_ipv4, make_ip_lock_name2, parse_bytes, parse_parts, parse_ip_lock_name,
  v1, dash,
}

-- Turning a 32-bit number into an address and back gives the number.
pub ipv4_to_uint32-uint32_to_ipv4 : (i : ℕ) → i < two_32 → ipv4_to_uint32 (uint32_to_ipv4 i) ≡ i
unfolding ipv4_to_uint32 uint32_to_ipv4
ipv4_to_uint32-uint32_to_ipv4 i h = omega arith

split-make_ip_lock_name2 :
    (vni : ℕ) (ip : IPv4)
    → split dash (make_ip_lock_name2 vni ip)
      ≡ v1
        ∷ format_decimal vni
        ∷ format_decimal ip.b0
        ∷ format_decimal ip.b1
        ∷ format_decimal ip.b2
        ∷ format_decimal ip.b3
        ∷ []
unfolding make_ip_lock_name2
split-make_ip_lock_name2 vni ip =
    let clean : (n : ℕ) → Avoids dash (format_decimal n) =
      λ n. format_decimal-differ dash n (omega arith) in
    rw
      (
        split-join dash v1 _ ((λ e. omega (arith, e)), ((λ e. omega (arith, e)), tt)),
        split-join dash (format_decimal vni) _ (clean vni),
        split-join dash (format_decimal ip.b0) _ (clean ip.b0),
        split-join dash (format_decimal ip.b1) _ (clean ip.b1),
        split-join dash (format_decimal ip.b2) _ (clean ip.b2),
        split_whole dash (format_decimal ip.b3) (clean ip.b3),
      )
      refl

record Bytes (ip : IPv4) : Type 0 where
  small0 : ip.b0 < 256
  small1 : ip.b1 < 256
  small2 : ip.b2 < 256
  small3 : ip.b3 < 256

uint32_to_ipv4-Bytes : (i : ℕ) → Bytes (uint32_to_ipv4 i)
unfolding uint32_to_ipv4
uint32_to_ipv4-Bytes i = record {
  small0 = omega arith;
  small1 = omega arith;
  small2 = omega arith;
  small3 = omega arith;
}

parse_bytes-more :
    (addr_u b : ℕ) (parts : List Text)
    → b < 256
    → parse_bytes addr_u (format_decimal b ∷ parts)
      ≡ parse_bytes ((addr_u * 256 + b) % two_32) parts
unfolding parse_bytes
parse_bytes-more addr_u b parts h =
    rw (parse_bytes, parse_uint-format_decimal 8 b (omega (arith, h)) (omega (arith, h))) refl

parse_bytes_all :
    (ip : IPv4)
    → Bytes ip
    → parse_bytes 0 (
        format_decimal ip.b0
        ∷ format_decimal ip.b1
        ∷ format_decimal ip.b2
        ∷ format_decimal ip.b3
        ∷ [])
      ≡ some (ipv4_to_uint32 ip)
unfolding parse_bytes ipv4_to_uint32
parse_bytes_all ip h =
    let whole : (((ip.b0 * 256 + ip.b1) * 256 + ip.b2) * 256 + ip.b3) % two_32 ≡ ipv4_to_uint32 ip =
      omega (arith, h.small0, h.small1, h.small2, h.small3) in
    rw
      (
        parse_bytes-more 0 ip.b0
            (format_decimal ip.b1 ∷ format_decimal ip.b2 ∷ format_decimal ip.b3 ∷ []) h.small0,
        parse_bytes-more ((0 * 256 + ip.b0) % two_32) ip.b1
            (format_decimal ip.b2 ∷ format_decimal ip.b3 ∷ []) h.small1,
        parse_bytes-more (((0 * 256 + ip.b0) % two_32 * 256 + ip.b1) % two_32) ip.b2
            (format_decimal ip.b3 ∷ []) h.small2,
        parse_bytes-more
            ((((0 * 256 + ip.b0) % two_32 * 256 + ip.b1) % two_32 * 256 + ip.b2) % two_32) ip.b3 []
            h.small3,
      )
      (ap some (omega (arith, whole, h.small0, h.small1, h.small2, h.small3)))

parse_ip_lock_name-Bytes :
    (vni : ℕ) (ip : IPv4)
    → vni < 2 ^ 21
    → Bytes ip
    → parse_ip_lock_name (make_ip_lock_name2 vni ip) ≡ some (vni, ipv4_to_uint32 ip)
unfolding parse_ip_lock_name parse_parts text_eq
parse_ip_lock_name-Bytes vni ip h bytes =
    rw
      (
        split-make_ip_lock_name2 vni ip,
        parse_uint-format_decimal 21 vni h (omega (arith, h)),
        parse_bytes_all ip bytes,
      )
      refl

-- Reading the name made for a VNI below 2 ^ 21 and the address of a 32-bit number gives the two back.
pub parse_ip_lock_name-make_ip_lock_name2 :
    (vni addr_u : ℕ)
    → vni < 2 ^ 21
    → addr_u < two_32
    → parse_ip_lock_name (make_ip_lock_name2 vni (uint32_to_ipv4 addr_u)) ≡ some (vni, addr_u)
parse_ip_lock_name-make_ip_lock_name2 vni addr_u h k =
    parse_ip_lock_name-Bytes vni (uint32_to_ipv4 addr_u) h (uint32_to_ipv4-Bytes addr_u)
    ∙ ap (λ a. some (vni, a)) (ipv4_to_uint32-uint32_to_ipv4 addr_u k)
