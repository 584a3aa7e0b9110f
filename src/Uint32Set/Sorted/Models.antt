-- ===== src/Uint32Set/Sorted/Models.antt =====
-- The abstract view of a SortedUInt32Set (staging/kos/pkg/uint32set/sortedset.go): the set of its
-- members, with the representation invariant.
use mathlib.Core.List.{append_assoc}
use kube_examples.Common.{
  ℕ, ◌+◌, ◌≤◌, ◌<◌, ◌≡◌, refl, sym, ap, ◌∙◌, Bool, true, false, ◌==◌, length, List, [], ◌∷◌, ◌++◌,
  arith, two_32,
}
use kube_examples.Uint32Set.Library.{SortedSetLibrary}
use kube_examples.Uint32Set.Runs.{
  Run, IsRuns, covers, next, append-IsRuns, IsRuns-Before, IsRuns-After, Before, After,
}
use kube_examples.Uint32Set.Contents.{Holds, count_of}
use kube_examples.Uint32Set.Sorted.{SortedUint32Set, new_sorted_uint32_set, is_empty}

module _ (library : SortedSetLibrary) where
  -- `u` represents the set `f` of 32-bit numbers by the runs `rs`.
  pub record Stores (u : SortedUint32Set library) (f : ℕ → Bool) (rs : List Run) : Type 0 where
    pub held : Holds library u.sorted_set rs
    pub proper : IsRuns 0 rs
    pub members : (y : ℕ) → covers y rs ≡ f y

  abbrev pub Models : SortedUint32Set library → (ℕ → Bool) → Type 0
  Models u f = (rs : List Run) × Stores u f rs

  pub new-Models :
      (check_level : ℕ) (f : ℕ → Bool)
      → ((y : ℕ) → f y ≡ false)
      → Models (new_sorted_uint32_set library check_level) f
  unfolding new_sorted_uint32_set
  new-Models check_level f h =
      ([], record { held = library.nodes-new; proper = tt; members = λ y. sym (h y) })

  nothing_covered : (rs : List Run) (y : ℕ) → (length rs == 0) ≡ true → covers y rs ≡ false
  nothing_covered [] y e = refl
  nothing_covered (r ∷ rs) y e = ground arith

  -- An empty set has no members.
  pub is_empty-Models :
      (u : SortedUint32Set library) (f : ℕ → Bool)
      → Models u f
      → is_empty library u ≡ true
      → (y : ℕ) → f y ≡ false
  unfolding is_empty
  is_empty-Models u f (rs, s) e y =
      sym (s.members y)
      ∙ nothing_covered rs y (sym (ap (λ n. n == 0) (count_of library u.sorted_set rs s.held)) ∙ e)

-- Reading `pre ++ p ∷ post` as `(pre ++ p ∷ []) ++ post`.
pub snoc : (pre : List Run) (p : Run) (post : List Run) → (pre ++ p ∷ []) ++ post ≡ pre ++ p ∷ post
snoc pre p post = append_assoc pre (p ∷ []) post

-- The parts of an ordered list of runs around one run.
pub record Around (pre : List Run) (p : Run) (post : List Run) : Type 0 where
  pub front : IsRuns 0 pre
  pub above : next 0 pre ≤ p.first
  pub proper : p.first ≤ p.last
  pub small : p.last < two_32
  pub back : IsRuns (p.last + 2) post

pub around :
    (pre : List Run) (p : Run) (post : List Run) → IsRuns 0 (pre ++ p ∷ post) → Around pre p post
around pre p post i =
    let (a, b) = append-IsRuns 0 pre (p ∷ post) i in
    record { front = a; above = b.0; proper = b.1; small = b.2; back = b.3 }

module _ (pre : List Run) (p : Run) (post : List Run) (a : Around pre p post) where
  pub Around-Before : Before p.first pre
  Around-Before = IsRuns-Before 0 p.first pre a.front (omega (arith, a.above))

  pub Around-After : After p.first post
  Around-After = IsRuns-After (p.last + 2) p.first post a.back (omega (arith, a.proper))

  pub Around-Before_snoc : (x : ℕ) → p.first < x → Before x (pre ++ p ∷ [])
  Around-Before_snoc x l = go pre (IsRuns-Before 0 x pre a.front (omega (arith, a.above)))
    where
      go : (qs : List Run) → Before x qs → Before x (qs ++ p ∷ [])
      go [] b = (l, tt)
      go (q ∷ qs) b = (b.0, go qs b.1)
