-- ===== src/GoText/Decimal.antt =====
-- Reading back what `%d` wrote.
use kube_examples.Common.{
  ℕ, zero, suc, ◌+◌, ◌-◌, ◌*◌, ◌/◌, ◌%◌, ◌^◌, ◌≤◌, ◌<◌, ◌≡◌, refl, ◌≢◌, true, false, some, [], ◌∷◌,
  ◌++◌, All-append, ltb, arith, All, dec_lt,
}
use kube_examples.GoText.{Text, digits_of, format_decimal, read_digits, parse_uint}

read_digits-append :
    (acc n d : ℕ) (s : Text)
    → read_digits acc s ≡ some n
    → d < 10
    → read_digits acc (s ++ (b'0' + d) ∷ []) ≡ some (n * 10 + d)
unfolding read_digits
read_digits-append acc n d [] e h = ground arith
read_digits-append acc n d (c ∷ s) e h =
    ground (arith, read_digits-append (acc * 10 + (c - b'0')) n d s)

-- Ten to the number of digits.
abbrev power_ten : ℕ → ℕ
power_ten zero = 1
power_ten (suc k) = 10 * power_ten k

digits_of-last : (fuel n : ℕ) → n < 10 → digits_of (suc fuel) n ≡ (b'0' + n) ∷ []
unfolding digits_of
digits_of-last fuel n h = let test : ltb n 10 ≡ true = ground arith in rw (digits_of, test) refl

digits_of-more :
    (fuel n : ℕ) → 10 ≤ n → digits_of (suc fuel) n ≡ digits_of fuel (n / 10) ++ (b'0' + n % 10) ∷ []
unfolding digits_of
digits_of-more fuel n h = let test : ltb n 10 ≡ false = ground arith in rw (digits_of, test) refl

read_digits-single : (n : ℕ) → n < 10 → read_digits 0 ((b'0' + n) ∷ []) ≡ some n
unfolding read_digits
read_digits-single n h = ground arith

read_digits-digits_of :
    (fuel n : ℕ) → n < power_ten (suc fuel) → read_digits 0 (digits_of (suc fuel) n) ≡ some n
read_digits-digits_of zero n h =
    rw (digits_of-last 0 n (omega arith)) (read_digits-single n (omega arith))
read_digits-digits_of (suc fuel) n h = elim (dec_lt n 10) [
  | yes l ↦ rw (digits_of-last (suc fuel) n l) (read_digits-single n l)
  | no l ↦
      let back : n / 10 * 10 + n % 10 ≡ n = omega arith in
      rw
        (
          digits_of-more (suc fuel) n (omega arith),
          read_digits-append 0 (n / 10) (n % 10) (digits_of (suc fuel) (n / 10))
              (read_digits-digits_of fuel (n / 10) (omega (arith, h))) (omega arith),
          back,
        )
        refl
]

-- What the digits are not: a character before '0'.
digits_of-differ : (sep fuel n : ℕ) → sep < b'0' → All (λ c. c ≢ sep) (digits_of fuel n)
unfolding digits_of
digits_of-differ sep zero n h = tt
digits_of-differ sep (suc fuel) n h = elim (dec_lt n 10) [
  | yes l ↦ rw (digits_of-last fuel n l) ((λ e. omega (arith, e)), tt)
  | no l ↦ rw (digits_of-more fuel n (omega arith)) (
      All-append _ (digits_of fuel (n / 10)) _ (digits_of-differ sep fuel (n / 10) h)
        ((λ e. omega (arith, e)), tt))
]

pub format_decimal-differ : (sep n : ℕ) → sep < b'0' → All (λ c. c ≢ sep) (format_decimal n)
unfolding format_decimal
format_decimal-differ sep n h = digits_of-differ sep 20 n h

read_nonempty :
    (s : Text) (n bits : ℕ)
    → read_digits 0 s ≡ some n
    → s ≢ []
    → n < 2 ^ bits
    → parse_uint bits s ≡ some n
unfolding parse_uint
read_nonempty [] n bits e h l = elim (h refl) [ ]
read_nonempty (c ∷ s) n bits e h l =
    let test : ltb n (2 ^ bits) ≡ true = ground arith in rw (parse_uint, e, test) refl

append_nonempty : (s : Text) (c : ℕ) → s ++ c ∷ [] ≢ []
append_nonempty [] c e = cc
append_nonempty (d ∷ s) c e = cc

digits_of_nonempty : (fuel n : ℕ) → digits_of (suc fuel) n ≢ []
digits_of_nonempty fuel n = elim (dec_lt n 10) [
  | yes l ↦ rw (digits_of-last fuel n l) (append_nonempty [] (b'0' + n))
  | no l ↦
      rw (digits_of-more fuel n (omega arith))
        (append_nonempty (digits_of fuel (n / 10)) (b'0' + n % 10))
]

pub parse_uint-format_decimal :
    (bits n : ℕ) → n < 2 ^ bits → n < 2 ^ 64 → parse_uint bits (format_decimal n) ≡ some n
unfolding format_decimal
parse_uint-format_decimal bits n h k =
    read_nonempty (digits_of 20 n) n bits (read_digits-digits_of 19 n (omega (arith, k)))
      (digits_of_nonempty 19 n) h
