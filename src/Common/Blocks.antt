-- ===== src/Common/Blocks.antt =====
-- Aligned blocks of numbers, as the masks of networks make them.
use Prim.Native.Nat.{ℕ, zero, suc, ◌+◌, ◌-◌, ◌*◌, ◌/◌, ◌%◌, ◌^◌, ◌≤◌, ◌<◌}
use mathlib.Core.Path.{◌≡◌, sym, ap, ◌∙◌}
use mathlib.Core.Logic.{◌↔◌}
use native.Mathlib.Omega.{arith}
use native.Mathlib.Nat.{
  div-add-mod', div-lt_iff_lt-mul, div-eq_of_lt-le, lt-div-mul-add, one-le-pow, pow-suc, mul_comm,
  mul_assoc, add-mul, mul-le-mul_right,
}

over : {low x : ℕ} (q p : ℕ) → q * p ≡ low → x < low + p → x < (q + 1) * p
over q p e h =
    let next : (q + 1) * p ≡ q * p + p = omega (arith, add-mul q 1 p) in omega (arith, next, e, h)

-- A number has the quotient of a multiple of `p` exactly if it is in the block that starts there.
pub block_members :
    (p low x : ℕ) → 1 ≤ p → low % p ≡ 0 → (x / p ≡ low / p) ↔ ((low ≤ x) × (x < low + p))
block_members p low x h aligned =
    let start : low / p * p ≡ low = omega (arith, div-add-mod' low p, aligned) in
    (
      (λ e.
          let a : x / p * p ≡ low / p * p = ap (λ q. q * p) e in
          omega (arith, start, a, div-add-mod' x p, lt-div-mul-add {a = x} {b = p} h)),
      (λ i. div-eq_of_lt-le p (omega (arith, start, i.0)) (over (low / p) p start i.1)),
    )

pow_split : (k j : ℕ) → 2 ^ (k + j) ≡ 2 ^ k * 2 ^ j
pow_split k zero = ap (λ n. 2 ^ n) {x = k + 0} {y = k} (omega arith) ∙ omega arith
pow_split k (suc j) =
    ap (λ n. 2 ^ n) {x = k + suc j} {y = suc (k + j)} (omega arith)
    ∙ pow-suc 2 (k + j)
    ∙ ap (λ n. n * 2) (pow_split k j)
    ∙ mul_assoc (2 ^ k) (2 ^ j) 2
    ∙ ap (λ n. 2 ^ k * n) (sym (pow-suc 2 j))

pub block_fits : (k j low : ℕ) → low < 2 ^ (k + j) → low % 2 ^ k ≡ 0 → low + 2 ^ k ≤ 2 ^ (k + j)
block_fits k j low h aligned =
    let start : low / 2 ^ k * 2 ^ k ≡ low = omega (arith, div-add-mod' low (2 ^ k), aligned) in
    let whole : 2 ^ (k + j) ≡ 2 ^ j * 2 ^ k = pow_split k j ∙ mul_comm (2 ^ k) (2 ^ j) in
    let few : low / 2 ^ k < 2 ^ j =
      (div-lt_iff_lt-mul {k = 2 ^ k} {x = low} {y = 2 ^ j} (one-le-pow k 2 (omega arith))).1
        (omega (arith, h, whole)) in
    omega (
      arith,
      start,
      whole,
      add-mul (low / 2 ^ k) 1 (2 ^ k),
      mul-le-mul_right {m = low / 2 ^ k + 1} {n = 2 ^ j} (2 ^ k) (omega (arith, few)),
    )

-- The last number of a block of 32-bit numbers, as the code computes it.
pub block_last :
    (ones low : ℕ)
    → ones ≤ 32
    → low < 2 ^ 32
    → low % 2 ^ (32 - ones) ≡ 0
    → ((low + (2 ^ (32 - ones) % 2 ^ 64 + (2 ^ 64 - 1)) % 2 ^ 64 % 2 ^ 32) % 2 ^ 32
        ≡ low + 2 ^ (32 - ones) - 1)
      × (low + 2 ^ (32 - ones) ≤ 2 ^ 32)
block_last ones low o small aligned =
    let sum : 2 ^ 32 ≡ 2 ^ (32 - ones + ones) =
      ap (λ n. 2 ^ n) {x = 32} {y = 32 - ones + ones} (omega arith) in
    let fits : low + 2 ^ (32 - ones) ≤ 2 ^ 32 =
      omega (arith, sum, block_fits (32 - ones) ones low (omega (arith, sum, small)) aligned) in
    let some_one : 1 ≤ 2 ^ (32 - ones) = one-le-pow (32 - ones) 2 (omega arith) in
    (omega (arith, fits, some_one), fits)
