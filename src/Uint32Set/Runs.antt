-- ===== src/Uint32Set/Runs.antt =====
-- Ordered lists of runs, the contents of a SortedUInt32Set
-- (staging/kos/pkg/uint32set/sortedset.go): runs do not overlap, and between two runs stands at
-- least one number that is in neither.
use kube_examples.Common.{
  ℕ, ◌+◌, ◌≤◌, ◌<◌, ◌≡◌, refl, sym, ap, ◌⊎◌, inl, inr, Bool, false, ◌&&◌, ◌||◌, List, [], ◌∷◌, ◌++◌,
  arith, leb, All, two_32,
}
use kube_examples.Uint32Set.Keys.{hex8}
use kube_examples.Uint32Set.Library.{Node}

pub record Run : Type 0 where
  pub first : ℕ
  pub last : ℕ

abbrev pub run : ℕ → ℕ → Run
run a b = record { first = a; last = b }

-- The node of a run: the key is the first number as hex digits, the score is the first number, and
-- the value is the last number.
abbrev pub node_of : Run → Node
node_of r = record { key = hex8 r.first; score = r.first; value = r.last }

abbrev pub embed : List Run → List Node
embed [] = []
embed (r ∷ rs) = node_of r ∷ embed rs

-- Proper runs of 32-bit numbers, from `lo` on, with a gap after each.
abbrev pub IsRuns : ℕ → List Run → Type 0
IsRuns lo [] = Unit
IsRuns lo (r ∷ rs) =
    (lo ≤ r.first) × (r.first ≤ r.last) × (r.last < two_32) × IsRuns (r.last + 2) rs

-- The least number that a run after these may start with.
abbrev pub next : ℕ → List Run → ℕ
next lo [] = lo
next lo (r ∷ rs) = next (r.last + 2) rs

abbrev pub in_run : ℕ → Run → Bool
in_run y r = leb r.first y && leb y r.last

-- Membership.
abbrev pub covers : ℕ → List Run → Bool
covers y [] = false
covers y (r ∷ rs) = in_run y r || covers y rs

abbrev pub Before : ℕ → List Run → Type 0
Before x = All (λ r. r.first < x)

abbrev pub After : ℕ → List Run → Type 0
After x = All (λ r. (x < r.first) × (r.first < two_32))

pub IsRuns-append :
    (lo : ℕ) (pre post : List Run)
    → IsRuns lo pre
    → IsRuns (next lo pre) post
    → IsRuns lo (pre ++ post)
IsRuns-append lo [] post h k = k
IsRuns-append lo (r ∷ pre) post h k = (h.0, h.1, h.2, IsRuns-append (r.last + 2) pre post h.3 k)

pub append-IsRuns :
    (lo : ℕ) (pre post : List Run)
    → IsRuns lo (pre ++ post)
    → IsRuns lo pre × IsRuns (next lo pre) post
append-IsRuns lo [] post h = (tt, h)
append-IsRuns lo (r ∷ pre) post h =
    let (a, b) = append-IsRuns (r.last + 2) pre post h.3 in ((h.0, h.1, h.2, a), b)

pub next-append : (lo : ℕ) (pre post : List Run) → next lo (pre ++ post) ≡ next (next lo pre) post
next-append lo [] post = refl
next-append lo (r ∷ pre) post = next-append (r.last + 2) pre post

pub le-next : (lo : ℕ) (rs : List Run) → IsRuns lo rs → lo ≤ next lo rs
le-next lo [] h = omega arith
le-next lo (r ∷ rs) h = omega (arith, le-next (r.last + 2) rs h.3)

pub IsRuns-mono : (lo low : ℕ) (rs : List Run) → low ≤ lo → IsRuns lo rs → IsRuns low rs
IsRuns-mono lo low [] l h = tt
IsRuns-mono lo low (r ∷ rs) l h = (omega arith, h.1, h.2, h.3)

pub covers-append : (y : ℕ) (a b : List Run) → covers y (a ++ b) ≡ (covers y a || covers y b)
covers-append y [] b = refl
covers-append y (r ∷ a) b = ground (arith, covers-append y a b)

-- Nothing below the first run is a member, nor anything in the gap after the last one.
pub covers_below : (lo y : ℕ) (rs : List Run) → IsRuns lo rs → y < lo → covers y rs ≡ false
covers_below lo y [] h l = refl
covers_below lo y (r ∷ rs) h l = ground (arith, covers_below (r.last + 2) y rs h.3)

pub covers_beyond :
    (lo y : ℕ) (rs : List Run) → IsRuns lo rs → next lo rs ≤ y + 1 → covers y rs ≡ false
covers_beyond lo y [] h l = refl
covers_beyond lo y (r ∷ rs) h l =
    ground (arith, covers_beyond (r.last + 2) y rs h.3, le-next (r.last + 2) rs h.3)

pub IsRuns-After : (lo x : ℕ) (rs : List Run) → IsRuns lo rs → x < lo → After x rs
IsRuns-After lo x [] h l = tt
IsRuns-After lo x (r ∷ rs) h l =
    ((omega arith, omega arith), IsRuns-After (r.last + 2) x rs h.3 (omega arith))

pub IsRuns-Before : (lo x : ℕ) (rs : List Run) → IsRuns lo rs → next lo rs ≤ x + 1 → Before x rs
IsRuns-Before lo x [] h l = tt
IsRuns-Before lo x (r ∷ rs) h l =
    (omega (arith, le-next (r.last + 2) rs h.3), IsRuns-Before (r.last + 2) x rs h.3 l)

-- Where a number belongs: at the first number of a run, or before all runs or after the start of
-- some run.
pub data Place (x : ℕ) (rs : List Run) : Type 0 where
  start_of : (pre : List Run) (b : ℕ) (post : List Run) → rs ≡ pre ++ run x b ∷ post → Place x rs
  lowest : After x rs → Place x rs
  after :
      (pre : List Run) (p : Run) (post : List Run)
      → rs ≡ pre ++ p ∷ post
      → p.first < x
      → After x post
      → Place x rs

Place-cons : (x : ℕ) (r : Run) (rs : List Run) → r.first < x → Place x rs → Place x (r ∷ rs)
Place-cons x r rs l (start_of pre b post e) = start_of (r ∷ pre) b post (ap (◌∷◌ r) e)
Place-cons x r rs l (lowest a) = after [] r rs refl l a
Place-cons x r rs l (after pre p post e k a) = after (r ∷ pre) p post (ap (◌∷◌ r) e) k a

pub place : (lo x : ℕ) (rs : List Run) → IsRuns lo rs → Place x rs
place lo x [] h = lowest tt
place lo x (r ∷ rs) h = elim (compare_cases x r.first) [
  | inl e ↦ start_of [] r.last rs (ap (λ (a : ℕ). run a r.last ∷ rs) (sym e))
  | inr (inl l) ↦ lowest ((l, omega arith), IsRuns-After (r.last + 2) x rs h.3 (omega arith))
  | inr (inr g) ↦ Place-cons x r rs g (place (r.last + 2) x rs h.3)
]
  where
    compare_cases : (a b : ℕ) → (a ≡ b) ⊎ ((a < b) ⊎ (b < a))
    compare_cases a b = grind arith
