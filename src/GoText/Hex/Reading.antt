-- ===== src/GoText/Hex/Reading.antt =====
-- Reading back what `%#x` wrote.
use kube_examples.Common.{
  ℕ, zero, suc, ◌+◌, ◌-◌, ◌*◌, ◌/◌, ◌%◌, ◌^◌, ◌<◌, ◌≤◌, ◌≡◌, refl, sym, ap, ◌∙◌, true, false, some,
  [], ◌∷◌, ◌++◌, ltb, arith, dec_lt,
}
use mathlib.Core.List.{append_assoc, append-nil as append_nil}
use kube_examples.GoText.{Text}
use kube_examples.GoText.Hex.{
  hex_digit, hex_digits_of, digit_value, go_on, parse_step, parse_on, parse_value,
}

digit_value-hex_digit : (d : ℕ) → d < 16 → digit_value (hex_digit d) ≡ some d
unfolding digit_value
digit_value-hex_digit d h = ground arith

parse_step-hex_digit :
    (max n d : ℕ)
    → d < 16
    → n * 16 + d ≤ max
    → parse_step 16 max n (hex_digit d) ≡ go_on (n * 16 + d)
unfolding parse_step
parse_step-hex_digit max n d h l = rw (parse_step, digit_value-hex_digit d h) (ground arith)

-- Sixteen to the number of digits.
abbrev pub power_sixteen : ℕ → ℕ
power_sixteen zero = 1
power_sixteen (suc k) = 16 * power_sixteen k

pub hex_digits_of-last : (fuel n : ℕ) → n < 16 → hex_digits_of (suc fuel) n ≡ hex_digit n ∷ []
unfolding hex_digits_of
hex_digits_of-last fuel n h =
    let test : ltb n 16 ≡ true = ground arith in rw (hex_digits_of, test) refl

pub hex_digits_of-more :
    (fuel n : ℕ)
    → 16 ≤ n
    → hex_digits_of (suc fuel) n ≡ hex_digits_of fuel (n / 16) ++ hex_digit (n % 16) ∷ []
unfolding hex_digits_of
hex_digits_of-more fuel n h =
    let test : ltb n 16 ≡ false = ground arith in rw (hex_digits_of, test) refl

parse_on-hex_digit :
    (max n d : ℕ) (t : Text)
    → d < 16
    → n * 16 + d ≤ max
    → parse_on 16 max n (hex_digit d ∷ t) ≡ parse_on 16 max (n * 16 + d) t
unfolding parse_on
parse_on-hex_digit max n d t h l = rw (parse_on, parse_step-hex_digit max n d h l) refl

parse_on-first_digit :
    (max d : ℕ) (t : Text)
    → d < 16
    → d ≤ max
    → parse_on 16 max 0 (hex_digit d ∷ t) ≡ parse_on 16 max d t
parse_on-first_digit max d t h l =
    parse_on-hex_digit max 0 d t h (omega (arith, l))
    ∙ ap (λ m. parse_on 16 max m t) {x = 0 * 16 + d} {y = d} (omega arith)

parse_on-hex_digits_of :
    (max fuel n : ℕ) (t : Text)
    → n ≤ max
    → n < power_sixteen (suc fuel)
    → parse_on 16 max 0 (hex_digits_of (suc fuel) n ++ t) ≡ parse_on 16 max n t
parse_on-hex_digits_of max zero n t h l =
    rw (hex_digits_of-last 0 n (omega arith)) (parse_on-first_digit max n t (omega arith) h)
parse_on-hex_digits_of max (suc fuel) n t h l = elim (dec_lt n 16) [
  | yes small ↦ rw (hex_digits_of-last (suc fuel) n small) (parse_on-first_digit max n t small h)
  | no large ↦
      let back : n / 16 * 16 + n % 16 ≡ n = omega arith in
      rw
        (
          hex_digits_of-more (suc fuel) n (omega arith),
          append_assoc (hex_digits_of (suc fuel) (n / 16)) (hex_digit (n % 16) ∷ []) t,
          parse_on-hex_digits_of max fuel (n / 16) (hex_digit (n % 16) ∷ t) (omega arith)
              (omega (arith, l)),
          parse_on-hex_digit max (n / 16) (n % 16) t (omega arith) (omega (arith, back, h)),
          back,
        )
        refl
]

-- The digits of a number of 32 bits read as the number, with `0x` in front of them trimmed.
pub parse_value-hex_digits_of : (n : ℕ) → n < 2 ^ 32 → parse_value 16 32 (hex_digits_of 16 n) ≡ n
unfolding parse_value parse_on
parse_value-hex_digits_of n h =
    ap (parse_on 16 (2 ^ 32 - 1) 0) (sym (append_nil (hex_digits_of 16 n)))
    ∙ parse_on-hex_digits_of (2 ^ 32 - 1) 15 n [] (omega arith) (omega arith)
