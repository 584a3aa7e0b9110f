-- ===== src/GoText/Hex.antt =====
-- Hexadecimal numbers: `%#x`, `%02x` and `strconv.ParseUint` in any base up to 16 whose error is
-- thrown away.
pub mod Reading
pub mod Digits
use kube_examples.Common.{
  ℕ, zero, suc, ◌+◌, ◌-◌, ◌*◌, ◌/◌, ◌%◌, ◌^◌, ◌<◌, ◌≤◌, Bool, true, false, ◌&&◌, Option, none, some,
  List, [], ◌∷◌, ◌++◌, ltb, leb, if◌then◌else◌,
}
use kube_examples.GoText.{Text}

abbrev pub hex_digit : ℕ → ℕ
hex_digit d = if ltb d 10 then b'0' + d else b'a' + (d - 10)

-- The hexadecimal digits of `n`, at most as many as the fuel.
unfoldable pub hex_digits_of : ℕ → ℕ → Text
hex_digits_of zero n = []
hex_digits_of (suc fuel) n = elim (ltb n 16) [
  | true ↦ hex_digit n ∷ []
  | false ↦ hex_digits_of fuel (n / 16) ++ hex_digit (n % 16) ∷ []
]

-- `%#x` of a number below 2 ^ 64, which has at most 16 digits.
unfoldable pub format_hex : ℕ → Text
format_hex n = b'0' ∷ b'x' ∷ hex_digits_of 16 n

-- `%02x` of a byte.
unfoldable pub format_byte : ℕ → Text
format_byte b = hex_digit (b / 16) ∷ hex_digit (b % 16) ∷ []

-- The value of a digit of either case, none for another character.
unfoldable pub digit_value : ℕ → Option ℕ
digit_value c =
    if leb b'0' c && leb c b'9'
    then some (c - b'0')
    else if leb b'a' c && leb c b'z'
    then some (c - b'a' + 10)
    else if leb b'A' c && leb c b'Z'
    then some (c - b'A' + 10)
    else none

-- One step of `ParseUint`: the number so far and the next character. The result is the number with
-- the character, or the value that `ParseUint` returns at once with an error.
pub data Step : Type 0 where
  go_on : ℕ → Step
  stop : ℕ → Step

unfoldable pub parse_step : ℕ → ℕ → ℕ → ℕ → Step
parse_step base max n c = elim (digit_value c) [
  | none ↦ stop 0
  | some d ↦
      if leb base d
      then stop 0
      else if ltb max (n * base + d)
      then stop max
      else go_on (n * base + d)
]

unfoldable pub parse_on : ℕ → ℕ → ℕ → Text → ℕ
parse_on base max n [] = n
parse_on base max n (c ∷ s) = elim (parse_step base max n c) [
  | go_on m ↦ parse_on base max m s
  | stop v ↦ v
]

-- The value of `strconv.ParseUint(s, base, bits)` for at most 32 bits, whatever the error: 0 for an
-- empty text and at a bad character, the greatest number where the value is too large.
unfoldable pub parse_value : ℕ → ℕ → Text → ℕ
parse_value base bits s = parse_on base (2 ^ bits - 1) 0 s
