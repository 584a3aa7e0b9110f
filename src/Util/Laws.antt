-- ===== src/Util/Laws.antt =====
-- What the utilities compute.
use kube_examples.Common.{
  ℕ, ◌+◌, ◌-◌, ◌<◌, ◌≤◌, zero, suc, ◌≡◌, ◌↔◌, refl, sym, ap, ◌∙◌, Bool, true, false, some, List, [],
  ◌∷◌, ◌++◌, ltb, ◌==◌, length, length-append, get_elem?, get_elem?-append, ok, Returns, two_32,
  arith, Bool-cases, inl, inr,
}
use mathlib.Core.List.{append_assoc}
use kube_examples.GoText.{Text, text_eq}
use kube_examples.GoText.Equality.{text_eq_same}
use kube_examples.Util.{
  big_endian_uint32, drop, make_uint32_from_ipv4, make_ipv4_from_uint32, equal_from, slice_equal,
}

drop-append : (pre ip : List ℕ) → drop (length pre) (pre ++ ip) ≡ ip
unfolding drop
drop-append [] ip = refl
drop-append (b ∷ pre) ip = drop-append pre ip

-- The number of the last four of the bytes of an address, with any bytes in front, as in the form
-- of sixteen bytes of Go, is the number that the four were made from, if it has 32 bits.
pub make_uint32_from_ipv4-make_ipv4_from_uint32 :
    (pre : List ℕ) (n : ℕ)
    → n < two_32
    → make_uint32_from_ipv4 (pre ++ make_ipv4_from_uint32 n) ≡ ok n
unfolding make_ipv4_from_uint32 make_uint32_from_ipv4 big_endian_uint32
make_uint32_from_ipv4-make_ipv4_from_uint32 [] n h = ap ok (omega arith)
make_uint32_from_ipv4-make_ipv4_from_uint32 (b ∷ pre) n h =
    let four = make_ipv4_from_uint32 n in
    let sum = length-append (b ∷ pre) four in
    let long : ltb 4 (length ((b ∷ pre) ++ four)) ≡ true = ground (arith, sum) in
    let back : length ((b ∷ pre) ++ four) - 4 ≡ length (b ∷ pre) = omega (arith, sum) in
    rw (make_uint32_from_ipv4, long, back, drop-append (b ∷ pre) four) (ap ok (omega arith))

-- The answer is whether the two are one.
abbrev pub Tells : List Text → List Text → Bool → Type 0
Tells x y b = (b ≡ true) ↔ (x ≡ y)

equal_from-Tells :
    (pre y x : List Text)
    → length x ≡ length y
    → Returns (equal_from (pre ++ y) (length pre) x) (Tells x y)
unfolding equal_from
equal_from-Tells pre [] [] h = (true, refl, ((λ e. refl), (λ e. refl)))
equal_from-Tells pre (yi ∷ y) [] h = ground arith
equal_from-Tells pre [] (xi ∷ x) h = ground arith
equal_from-Tells pre (yi ∷ y) (xi ∷ x) h =
    let here : get_elem? (pre ++ yi ∷ y) (length pre) ≡ some yi =
      ap (get_elem? (pre ++ yi ∷ y)) {x = length pre} {y = length pre + 0} (omega arith)
      ∙ get_elem?-append pre (yi ∷ y) 0 in
    let shift : length pre + 1 ≡ length (pre ++ yi ∷ []) =
      omega (arith, length-append pre (yi ∷ [])) in
    let (b, e, tells) = equal_from-Tells (pre ++ yi ∷ []) y x (omega (arith, h)) in
    let rest : equal_from (pre ++ yi ∷ y) (length pre + 1) x ≡ ok b =
      ap (λ n. equal_from (pre ++ yi ∷ y) n x) shift
      ∙ ap (λ l. equal_from l (length (pre ++ yi ∷ [])) x) (sym (append_assoc pre (yi ∷ []) y))
      ∙ e in
    elim (Bool-cases (text_eq xi yi)) [
      | inl q ↦
          let same = (text_eq_same xi yi).0 q in
          (b, rw (equal_from, here, q) rest, ((λ t. let i = tells.0 t in cc), (λ t. tells.1 cc)))
      | inr q ↦ (
        false,
        rw (equal_from, here, q) refl,
        ((λ t. cc), (λ t. let same : xi ≡ yi = cc in let i = (text_eq_same xi yi).1 same in cc)),
      )
    ]

-- `Equal` of two slices of strings does not panic, and says whether they are the same.
pub slice_equal-Tells : (x y : List Text) → Returns (slice_equal x y) (Tells x y)
unfolding slice_equal
slice_equal-Tells x y = elim (Bool-cases (length x == length y)) [
  | inl q ↦ rw (slice_equal, q) (equal_from-Tells [] y x (ground arith))
  | inr q ↦
      (false, rw (slice_equal, q) refl, ((λ t. cc), (λ t. let n = ap length t in ground arith)))
]

drop_long : (n : ℕ) (ip : List ℕ) → n + 4 ≤ length ip → 4 ≤ length (drop n ip)
unfolding drop
drop_long zero ip h = omega (arith, h)
drop_long (suc n) [] h = omega (arith, h)
drop_long (suc n) (b ∷ ip) h = drop_long n ip (omega (arith, h))

big_endian_uint32_long : (ip : List ℕ) → 4 ≤ length ip → (n : ℕ) × (big_endian_uint32 ip ≡ ok n)
unfolding big_endian_uint32
big_endian_uint32_long [] h = ground arith
big_endian_uint32_long (b0 ∷ []) h = ground arith
big_endian_uint32_long (b0 ∷ b1 ∷ []) h = ground arith
big_endian_uint32_long (b0 ∷ b1 ∷ b2 ∷ []) h = ground arith
big_endian_uint32_long (b0 ∷ b1 ∷ b2 ∷ b3 ∷ rest) h = (_, refl)

-- An address of at least four bytes has a number.
pub make_uint32_from_ipv4_long :
    (ip : List ℕ) → 4 ≤ length ip → (n : ℕ) × (make_uint32_from_ipv4 ip ≡ ok n)
unfolding make_uint32_from_ipv4
make_uint32_from_ipv4_long ip h = elim (Bool-cases (ltb 4 (length ip))) [
  | inl e ↦
      rw (make_uint32_from_ipv4, e)
        (big_endian_uint32_long (drop (length ip - 4) ip)
          (drop_long (length ip - 4) ip (omega (arith, h))))
  | inr e ↦ rw (make_uint32_from_ipv4, e) (big_endian_uint32_long ip h)
]
