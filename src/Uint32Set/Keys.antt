-- ===== src/Uint32Set/Keys.antt =====
-- The text keys of the nodes of a SortedUInt32Set: `fmt.Sprintf("%08x", x)`
-- (staging/kos/pkg/uint32set/sortedset.go), as lists of character codes.
use kube_examples.Common.{
  ℕ, ◌+◌, ◌/◌, ◌%◌, ◌<◌, ◌≡◌, refl, ap, zero, suc, ◌↔◌, inl, inr, Bool, true, false, ◌&&◌, ◌||◌,
  List, [], ◌∷◌, arith, ltb, ◌==◌, ==_iff, if◌then◌else◌, Bool-cases, two_32,
}

abbrev pub Key : Type 0
Key = List ℕ

pub key_eq : Key → Key → Bool
key_eq [] [] = true
key_eq [] (d ∷ l) = false
key_eq (c ∷ k) [] = false
key_eq (c ∷ k) (d ∷ l) = c == d && key_eq k l

-- The lexicographic order.
pub key_less : Key → Key → Bool
key_less k [] = false
key_less [] (d ∷ l) = true
key_less (c ∷ k) (d ∷ l) = ltb c d || (c == d && key_less k l)

pub key_eq_iff : (k l : Key) → (key_eq k l ≡ true) ↔ (k ≡ l)
unfolding key_eq
key_eq_iff [] [] = ((λ _. refl), (λ _. refl))
key_eq_iff [] (d ∷ l) = ((λ h. cc), (λ h. cc))
key_eq_iff (c ∷ k) [] = ((λ h. cc), (λ h. cc))
key_eq_iff (c ∷ k) (d ∷ l) = ground (arith, key_eq_iff k l)

hex_digit : ℕ → ℕ
hex_digit d = if ltb d 10 then b'0' + d else 87 + d

hex_digit-injective : (d e : ℕ) → d < 16 → e < 16 → hex_digit d ≡ hex_digit e → d ≡ e
unfolding hex_digit
hex_digit-injective d e h k p = ground arith

-- `fmt.Sprintf("%08x", x)` of a 32-bit number: eight digits, the leading one first.
unfoldable pub hex8 : ℕ → Key
unfolding hex_digit
hex8 x =
    hex_digit (x / 268435456 % 16)
    ∷ hex_digit (x / 16777216 % 16)
    ∷ hex_digit (x / 1048576 % 16)
    ∷ hex_digit (x / 65536 % 16)
    ∷ hex_digit (x / 4096 % 16)
    ∷ hex_digit (x / 256 % 16)
    ∷ hex_digit (x / 16 % 16)
    ∷ hex_digit (x % 16)
    ∷ []

char_at : ℕ → Key → ℕ
char_at i [] = 0
char_at zero (c ∷ k) = c
char_at (suc i) (c ∷ k) = char_at i k

hex8_digits :
    (x y : ℕ)
    → hex8 x ≡ hex8 y
    → (x / 268435456 % 16 ≡ y / 268435456 % 16)
      × (x / 16777216 % 16 ≡ y / 16777216 % 16)
      × (x / 1048576 % 16 ≡ y / 1048576 % 16)
      × (x / 65536 % 16 ≡ y / 65536 % 16)
      × (x / 4096 % 16 ≡ y / 4096 % 16)
      × (x / 256 % 16 ≡ y / 256 % 16)
      × (x / 16 % 16 ≡ y / 16 % 16)
      × (x % 16 ≡ y % 16)
unfolding hex8 char_at
hex8_digits x y e = (
  hex_digit-injective (x / 268435456 % 16) (y / 268435456 % 16) (omega arith) (omega arith)
      (ap (char_at 0) e),
  hex_digit-injective (x / 16777216 % 16) (y / 16777216 % 16) (omega arith) (omega arith)
      (ap (char_at 1) e),
  hex_digit-injective (x / 1048576 % 16) (y / 1048576 % 16) (omega arith) (omega arith)
      (ap (char_at 2) e),
  hex_digit-injective (x / 65536 % 16) (y / 65536 % 16) (omega arith) (omega arith)
      (ap (char_at 3) e),
  hex_digit-injective (x / 4096 % 16) (y / 4096 % 16) (omega arith) (omega arith)
      (ap (char_at 4) e),
  hex_digit-injective (x / 256 % 16) (y / 256 % 16) (omega arith) (omega arith) (ap (char_at 5) e),
  hex_digit-injective (x / 16 % 16) (y / 16 % 16) (omega arith) (omega arith) (ap (char_at 6) e),
  hex_digit-injective (x % 16) (y % 16) (omega arith) (omega arith) (ap (char_at 7) e),
)

-- Different 32-bit numbers have different keys.
pub hex8-injective : (x y : ℕ) → x < two_32 → y < two_32 → hex8 x ≡ hex8 y → x ≡ y
hex8-injective x y h k e = omega (arith, hex8_digits x y e)

-- So comparing keys is comparing numbers.
pub key_eq-hex8 : (x y : ℕ) → x < two_32 → y < two_32 → key_eq (hex8 x) (hex8 y) ≡ x == y
key_eq-hex8 x y h k = elim (Bool-cases (key_eq (hex8 x) (hex8 y))) [
  | inl same ↦ rw same (ground (arith, hex8-injective x y h k ((key_eq_iff _ _).0 same)))
  | inr other ↦ elim (Bool-cases (x == y)) [
    | inl e ↦
        let c : key_eq (hex8 x) (hex8 y) ≡ true = (key_eq_iff _ _).1 (ap hex8 ((==_iff x y).0 e)) in
        cc
    | inr e ↦ rw (other, e)
  ]
]
