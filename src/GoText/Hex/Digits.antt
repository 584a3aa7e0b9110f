-- ===== src/GoText/Hex/Digits.antt =====
-- What the digits that `%#x` writes are.
use kube_examples.Common.{
  ℕ, zero, suc, ◌/◌, ◌%◌, ◌^◌, ◌<◌, ◌≡◌, refl, sym, ap, ◌∙◌, Bool, true, [], ◌∷◌, ◌++◌, arith,
  dec_lt, All, subst,
}
use kube_examples.GoText.{Text, codes}
use kube_examples.GoText.Pieces.{trim_left}
use kube_examples.GoText.Hex.{format_hex, hex_digit, hex_digits_of, parse_value, parse_on}
use kube_examples.GoText.Hex.Reading.{
  power_sixteen, hex_digits_of-last, hex_digits_of-more, parse_value-hex_digits_of,
}

-- There is a first digit, and all of them are digits.
abbrev pub Digits : (ℕ → Bool) → Text → Type 0
Digits p s = (c : ℕ) × (t : Text) × (s ≡ c ∷ t) × All (λ d. p d ≡ true) (c ∷ t)

All-snoc : (P : ℕ → Type 0) (t : Text) (d : ℕ) → All P t → P d → All P (t ++ d ∷ [])
All-snoc P [] d h hd = (hd, tt)
All-snoc P (c ∷ t) d h hd = (h.0, All-snoc P t d h.1 hd)

module _ (p : ℕ → Bool) (digits : (d : ℕ) → d < 16 → p (hex_digit d) ≡ true) where
  hex_digits_of-All : (fuel n : ℕ) → All (λ d. p d ≡ true) (hex_digits_of fuel n)
  unfolding hex_digits_of
  hex_digits_of-All zero n = tt
  hex_digits_of-All (suc fuel) n = elim (dec_lt n 16) [
    | yes small ↦ rw (hex_digits_of-last fuel n small) (digits n small, tt)
    | no large ↦ rw (hex_digits_of-more fuel n (omega arith)) (
        All-snoc _ (hex_digits_of fuel (n / 16)) _ (hex_digits_of-All fuel (n / 16))
          (digits (n % 16) (omega arith)))
  ]

-- The first digit of a number above 0 is not 0.
hex_digits_of-leading :
    (fuel n : ℕ)
    → 0 < n
    → n < power_sixteen (suc fuel)
    → (d : ℕ) × (t : Text) × (0 < d) × (d < 16) × (hex_digits_of (suc fuel) n ≡ hex_digit d ∷ t)
hex_digits_of-leading zero n pos h =
    (n, [], pos, omega (arith, h), hex_digits_of-last 0 n (omega (arith, h)))
hex_digits_of-leading (suc fuel) n pos h = elim (dec_lt n 16) [
  | yes small ↦ (n, [], pos, small, hex_digits_of-last (suc fuel) n small)
  | no large ↦
      let (d, t, dpos, dsmall, e) =
        hex_digits_of-leading fuel (n / 16) (omega arith) (omega (arith, h)) in
      (
        d,
        t ++ hex_digit (n % 16) ∷ [],
        dpos,
        dsmall,
        hex_digits_of-more (suc fuel) n (omega arith) ∙ ap (λ s. s ++ hex_digit (n % 16) ∷ []) e,
      )
]

pub hex_digits_of-Digits :
    (p : ℕ → Bool) (digits : (d : ℕ) → d < 16 → p (hex_digit d) ≡ true) (n : ℕ)
    → n < 2 ^ 32
    → Digits p (hex_digits_of 16 n)
hex_digits_of-Digits p digits zero h =
    (hex_digit 0, [], hex_digits_of-last 15 0 (omega arith), (digits 0 (omega arith), tt))
hex_digits_of-Digits p digits (suc n) h =
    let (d, t, dpos, dsmall, e) =
      hex_digits_of-leading 15 (suc n) (omega arith) (omega (arith, h)) in
    (hex_digit d, t, e, subst (All (λ c. p c ≡ true)) e (hex_digits_of-All p digits 16 (suc n)))

-- A digit above 0 is not one of the characters of the prefix.
trim_left-hex_digit :
    (d : ℕ) (t : Text)
    → 0 < d
    → d < 16
    → trim_left (codes "0xX") (hex_digit d ∷ t) ≡ hex_digit d ∷ t
unfolding trim_left
trim_left-hex_digit d t h l = ground arith

parse_value_zero : parse_value 16 32 (trim_left (codes "0xX") (format_hex 0)) ≡ 0
unfolding parse_value parse_on trim_left format_hex hex_digits_of
parse_value_zero = refl

-- What `%#x` wrote of a number of 32 bits reads as the number, with the characters of its prefix
-- trimmed.
pub parse_value-trim_left :
    (n : ℕ) → n < 2 ^ 32 → parse_value 16 32 (trim_left (codes "0xX") (format_hex n)) ≡ n
unfolding format_hex trim_left
parse_value-trim_left zero h = parse_value_zero
parse_value-trim_left (suc n) h =
    let (d, t, dpos, dsmall, e) =
      hex_digits_of-leading 15 (suc n) (omega arith) (omega (arith, h)) in
    ap (λ s. parse_value 16 32 (trim_left (codes "0xX") s)) e
    ∙ ap (parse_value 16 32) (trim_left-hex_digit d t dpos dsmall ∙ sym e)
    ∙ parse_value-hex_digits_of (suc n) h
