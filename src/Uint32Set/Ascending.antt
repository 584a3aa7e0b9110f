-- ===== src/Uint32Set/Ascending.antt =====
-- Slices of numbers in ascending order, and what the `Export` methods of
-- staging/kos/pkg/uint32set promise: the members as a slice.
use kube_examples.Common.{
  ℕ, suc, ◌+◌, ◌≤◌, ◌<◌, ◌≡◌, refl, sym, ap, ◌∙◌, Bool, false, ◌||◌, List, [], ◌∷◌, ◌++◌, arith,
  ◌==◌, leb, ◌&&◌, zero, subst, two_32,
}

abbrev pub contains : ℕ → List ℕ → Bool
contains y [] = false
contains y (x ∷ xs) = y == x || contains y xs

-- Ascending 32-bit numbers without repetition, from `lo` on.
abbrev pub IsAscending : ℕ → List ℕ → Type 0
IsAscending lo [] = Unit
IsAscending lo (x ∷ xs) = (lo ≤ x) × (x < two_32) × IsAscending (suc x) xs

-- `xs` lists the set `f`, in ascending order.
abbrev pub Lists : (ℕ → Bool) → List ℕ → Type 0
Lists f xs = IsAscending 0 xs × ((y : ℕ) → contains y xs ≡ f y)

pub contains_below : (lo y : ℕ) (xs : List ℕ) → IsAscending lo xs → y < lo → contains y xs ≡ false
contains_below lo y [] a l = refl
contains_below lo y (x ∷ xs) a l = ground (arith, contains_below (suc x) y xs a.2)

pub contains-append :
    (y : ℕ) (xs ys : List ℕ) → contains y (xs ++ ys) ≡ (contains y xs || contains y ys)
contains-append y [] ys = refl
contains-append y (x ∷ xs) ys = ground (arith, contains-append y xs ys)

tails_agree :
    (lo mo x : ℕ) (xs ys : List ℕ)
    → IsAscending lo (x ∷ xs)
    → IsAscending mo (x ∷ ys)
    → ((y : ℕ) → contains y (x ∷ xs) ≡ contains y (x ∷ ys))
    → (y : ℕ) → contains y xs ≡ contains y ys
tails_agree lo mo x xs ys a b h y =
    ground (arith, h y, contains_below (suc x) y xs a.2, contains_below (suc x) y ys b.2)

heads_agree :
    (lo mo x z : ℕ) (xs ys : List ℕ)
    → IsAscending lo (x ∷ xs)
    → IsAscending mo (z ∷ ys)
    → ((y : ℕ) → contains y (x ∷ xs) ≡ contains y (z ∷ ys))
    → x ≡ z
heads_agree lo mo x z xs ys a b h =
    ground (arith, h x, h z, contains_below (suc x) z xs a.2, contains_below (suc z) x ys b.2)

-- An ascending slice is determined by its members.
pub ascending_unique :
    (lo mo : ℕ) (xs ys : List ℕ)
    → IsAscending lo xs
    → IsAscending mo ys
    → ((y : ℕ) → contains y xs ≡ contains y ys)
    → xs ≡ ys
ascending_unique lo mo [] [] a b h = refl
ascending_unique lo mo [] (z ∷ ys) a b h = ground (arith, h z)
ascending_unique lo mo (x ∷ xs) [] a b h = ground (arith, h x)
ascending_unique lo mo (x ∷ xs) (z ∷ ys) a b h =
    let e = heads_agree lo mo x z xs ys a b h in
    let b' = subst (λ (w : ℕ). IsAscending mo (w ∷ ys)) (sym e) b in
    let h' = λ (y : ℕ). h y ∙ ap (λ (w : ℕ). contains y (w ∷ ys)) (sym e) in
    ap (◌∷◌ x) (ascending_unique (suc x) (suc x) xs ys a.2 b'.2 (tails_agree lo mo x xs ys a b' h'))
    ∙ ap (λ (w : ℕ). w ∷ ys) e

-- Two ascending lists of one set are the same slice.
pub Lists-unique : (f : ℕ → Bool) (xs ys : List ℕ) → Lists f xs → Lists f ys → xs ≡ ys
Lists-unique f xs ys a b = ascending_unique 0 0 xs ys a.0 b.0 (λ y. a.1 y ∙ sym (b.1 y))

-- The numbers from `x` to `x + n`.
abbrev pub span : ℕ → ℕ → List ℕ
span x zero = x ∷ []
span x (suc n) = x ∷ span (suc x) n

pub IsAscending-mono : (lo mo : ℕ) (xs : List ℕ) → mo ≤ lo → IsAscending lo xs → IsAscending mo xs
IsAscending-mono lo mo [] l a = tt
IsAscending-mono lo mo (x ∷ xs) l a = (omega arith, a.1, a.2)

pub span-IsAscending :
    (lo x n : ℕ) (ys : List ℕ)
    → lo ≤ x
    → x + n < two_32
    → IsAscending (suc (x + n)) ys
    → IsAscending lo (span x n ++ ys)
span-IsAscending lo x zero ys l h a =
    (l, omega arith, IsAscending-mono (suc (x + 0)) (suc x) ys (omega arith) a)
span-IsAscending lo x (suc n) ys l h a = (
  l,
  omega arith,
  span-IsAscending (suc x) (suc x) n ys (omega arith) (omega arith)
      (IsAscending-mono (suc (x + suc n)) (suc (suc x + n)) ys (omega arith) a),
)

pub contains-span : (y x n : ℕ) → contains y (span x n) ≡ (leb x y && leb y (x + n))
contains-span y x zero = ground arith
contains-span y x (suc n) = ground (arith, contains-span y (suc x) n)
