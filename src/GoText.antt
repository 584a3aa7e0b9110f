-- ===== src/GoText.antt =====
-- What the KOS code uses of Go's packages fmt, strconv, strings and regexp, over texts as lists of
-- character codes: here `%d`, `strconv.ParseUint(s, 10, bits)`, `strings.Split` by one character and
-- `==`.
pub mod Decimal
pub mod Hex
pub mod Pieces
pub mod Regexp
pub mod Equality
pub mod Splitting
use Prim.Native.Char.{code}
use Prim.Native.String.{String}
use kube_examples.Common.{
  ℕ, zero, suc, ◌+◌, ◌-◌, ◌*◌, ◌/◌, ◌%◌, ◌^◌, Bool, true, false, ◌&&◌, Option, none, some, List, [],
  ◌∷◌, ◌++◌, ltb, leb, ◌==◌, if◌then◌else◌,
}

abbrev pub Text : Type 0
Text = List ℕ

-- The codes of a literal. `String` has its own `[]` and `∷`.
abbrev pub codes : String → Text
codes String.[] = []
codes (String.◌∷◌ c s) = code c ∷ codes s

unfoldable pub text_eq : Text → Text → Bool
text_eq [] [] = true
text_eq [] (d ∷ t) = false
text_eq (c ∷ s) [] = false
text_eq (c ∷ s) (d ∷ t) = c == d && text_eq s t

-- The decimal digits of `n`, at most as many as the fuel.
unfoldable pub digits_of : ℕ → ℕ → Text
digits_of zero n = []
digits_of (suc fuel) n = elim (ltb n 10) [
  | true ↦ (b'0' + n) ∷ []
  | false ↦ digits_of fuel (n / 10) ++ (b'0' + n % 10) ∷ []
]

-- `%d` of a number below 2 ^ 64, which has at most 20 digits.
unfoldable pub format_decimal : ℕ → Text
unfolding digits_of
format_decimal n = digits_of 20 n

abbrev pub is_digit : ℕ → Bool
is_digit c = leb b'0' c && leb c b'9'

-- The value of digits behind a number, or an error.
unfoldable pub read_digits : ℕ → Text → Option ℕ
read_digits acc [] = some acc
read_digits acc (c ∷ s) =
    let rest = read_digits (acc * 10 + (c - b'0')) s in if is_digit c then rest else none

-- `strconv.ParseUint(s, 10, bits)`: an error if there is no digit, another character, or a number
-- that needs more bits.
unfoldable pub parse_uint : ℕ → Text → Option ℕ
unfolding read_digits
parse_uint bits [] = none
parse_uint bits (c ∷ s) = elim (read_digits 0 (c ∷ s)) [
  | none ↦ none
  | some n ↦ if ltb n (2 ^ bits) then some n else none
]

abbrev pub onto_first : ℕ → List Text → List Text
onto_first c [] = (c ∷ []) ∷ []
onto_first c (part ∷ parts) = (c ∷ part) ∷ parts

-- `strings.Split(s, sep)` by a single character.
unfoldable pub split : ℕ → Text → List Text
split sep [] = [] ∷ []
split sep (c ∷ s) = if c == sep then [] ∷ split sep s else onto_first c (split sep s)
