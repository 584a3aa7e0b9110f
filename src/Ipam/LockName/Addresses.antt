-- ===== src/Ipam/LockName/Addresses.antt =====
-- The addresses that the names of IPLock objects give.
use kube_examples.Common.{
  ℕ, ◌+◌, ◌*◌, ◌%◌, ◌<◌, not, ◌||◌, Option, none, some, List, [], ◌∷◌, two_32, arith, Option-cases,
  inl, inr, length, ◌==◌, Bool-cases,
}
use mathlib.Core.Option.{map}
use kube_examples.GoText.{Text, parse_uint, split, text_eq}
use kube_examples.Ipam.LockName.{parse_bytes, parse_parts, parse_ip_lock_name, dash, v1}

-- The VNI and the address that a name gives, if any: the address has 32 bits.
abbrev pub Small : Option (ℕ × ℕ) → Type 0
Small none = Unit
Small (some place) = place.1 < two_32

abbrev SmallAddr : Option ℕ → Type 0
SmallAddr none = Unit
SmallAddr (some addr_u) = addr_u < two_32

parse_bytes-SmallAddr :
    (addr_u : ℕ) (parts : List Text) → addr_u < two_32 → SmallAddr (parse_bytes addr_u parts)
unfolding parse_bytes
parse_bytes-SmallAddr addr_u [] h = h
parse_bytes-SmallAddr addr_u (part ∷ parts) h = elim (Option-cases (parse_uint 8 part)) [
  | inl e ↦ rw (parse_bytes, e) tt
  | inr (b, e) ↦
      rw (parse_bytes, e) (parse_bytes-SmallAddr ((addr_u * 256 + b) % two_32) parts (omega arith))
]

map-Small : (vni : ℕ) (o : Option ℕ) → SmallAddr o → Small (map (λ addr_u. (vni, addr_u)) o)
map-Small vni none h = tt
map-Small vni (some a) h = h

parse_parts-Small : (parts : List Text) → Small (parse_parts parts)
unfolding parse_parts
parse_parts-Small [] = tt
parse_parts-Small (a ∷ []) = tt
parse_parts-Small (a ∷ b ∷ bytes) =
    elim (Bool-cases (not (length bytes == 4) || not (text_eq a v1))) [
      | inl q ↦ rw q tt
      | inr q ↦ elim (Option-cases (parse_uint 21 b)) [
        | inl e ↦ rw (q, e) tt
        | inr (vni, e) ↦
            rw (q, e)
              (map-Small vni (parse_bytes 0 bytes) (parse_bytes-SmallAddr 0 bytes (omega arith)))
      ]
    ]

pub parse_ip_lock_name-Small : (name : Text) → Small (parse_ip_lock_name name)
unfolding parse_ip_lock_name
parse_ip_lock_name-Small name = parse_parts-Small (split dash name)
