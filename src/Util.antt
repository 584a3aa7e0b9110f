-- ===== src/Util.antt =====
-- The utilities of staging/kos/pkg/util/data.go.
pub mod Laws
mod Tests
use kube_examples.Common.{
  ℕ, zero, suc, ◌+◌, ◌-◌, ◌*◌, ◌/◌, ◌%◌, ◌^◌, Bool, true, false, not, Option, none, some, List, [],
  ◌∷◌, ltb, ◌==◌, if◌then◌else◌, length, get_elem?, Go, ok, panic, ◌>>=◌, deref,
}
use kube_examples.GoText.{Text, text_eq}

-- `binary.BigEndian.Uint32`, which panics on fewer than four bytes.
unfoldable pub big_endian_uint32 : List ℕ → Go ℕ
big_endian_uint32 (b0 ∷ b1 ∷ b2 ∷ b3 ∷ rest) = ok (b0 * 2 ^ 24 + b1 * 2 ^ 16 + b2 * 2 ^ 8 + b3)
big_endian_uint32 _ = panic

-- The slice from an index on.
unfoldable pub drop : ℕ → List ℕ → List ℕ
drop zero ip = ip
drop (suc n) [] = []
drop (suc n) (b ∷ ip) = drop n ip

-- `MakeUint32FromIPv4`.
unfoldable pub make_uint32_from_ipv4 : List ℕ → Go ℕ
make_uint32_from_ipv4 ip =
    if ltb 4 (length ip) then big_endian_uint32 (drop (length ip - 4) ip) else big_endian_uint32 ip

-- `MakeIPv4FromUint32`.
unfoldable pub make_ipv4_from_uint32 : ℕ → List ℕ
make_ipv4_from_uint32 n =
    n / 2 ^ 24 % 2 ^ 8 ∷ n / 2 ^ 16 % 2 ^ 8 ∷ n / 2 ^ 8 % 2 ^ 8 ∷ n % 2 ^ 8 ∷ []

-- `SliceOfString.Equal`: the loop, from an index on. `y[i]` panics out of range.
unfoldable pub equal_from : List Text → ℕ → List Text → Go Bool
equal_from y i [] = ok true
equal_from y i (xi ∷ x) =
    let rest = equal_from y (i + 1) x in
    do yi ← deref (get_elem? y i); if not (text_eq xi yi) then ok false else rest

-- `SliceOfString.Equal`.
unfoldable pub slice_equal : List Text → List Text → Go Bool
slice_equal x y = if not (length x == length y) then ok false else equal_from y 0 x
