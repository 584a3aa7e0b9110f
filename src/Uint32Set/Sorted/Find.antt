-- ===== src/Uint32Set/Sorted/Find.antt =====
-- staging/kos/pkg/uint32set/sortedset.go: `Find` locates a number among the runs, and `Has` tells
-- membership; neither changes the contents.
use kube_examples.Common.{
  ℕ, suc, ◌+◌, ◌-◌, ◌≤◌, ◌<◌, ◌≡◌, refl, sym, ap, ◌∙◌, Bool, Option, none, some, List, [], ◌∷◌,
  ◌++◌, arith, length, length-append, two_32, Returns, subst, dec_lt,
}
use kube_examples.Uint32Set.Keys.{hex8}
use kube_examples.Uint32Set.Library.{Node, SortedSetLibrary}
use kube_examples.Uint32Set.Runs.{
  Run, run, node_of, embed, IsRuns, next, IsRuns-append, After, next-append, Place, start_of,
  lowest, after, place,
}
use kube_examples.Uint32Set.Contents.{node_at, rank_found, rank_missing, taken_out, put_new}
use kube_examples.Uint32Set.Sorted.{SortedUint32Set, find}
use kube_examples.Uint32Set.Sorted.Merge.{raise}
use kube_examples.Uint32Set.Sorted.Models.{Stores, snoc, around, Around-Before, Around-Before_snoc}

-- Where `x` lies among the runs `rs`, with the node and the rank that say so.
pub data Locates (x : ℕ) (rs : List Run) (node : Option Node) (rank : ℕ) : Type 0 where
  inside :
      (pre : List Run) (p : Run) (post : List Run)
      → rs ≡ pre ++ p ∷ post
      → p.first ≤ x
      → x ≤ p.last
      → node ≡ some (node_of p)
      → rank ≡ suc (length pre)
      → Locates x rs node rank
  gap :
      (pre post : List Run)
      → rs ≡ pre ++ post
      → IsRuns 0 pre
      → next 0 pre ≤ x + 1
      → IsRuns (x + 1) post
      → node ≡ none
      → rank ≡ suc (length pre)
      → Locates x rs node rank

module _ (library : SortedSetLibrary) (u : SortedUint32Set library) (f : ℕ → Bool) (x : ℕ)
    (small : x < two_32) where
  abbrev ss : library.SortedSet
  ss = u.sorted_set

  abbrev probed : library.SortedSet
  probed = library.add_or_update ss (hex8 x) x x

  abbrev pub Found : List Run → (Option Node × ℕ) × SortedUint32Set library → Type 0
  Found rs r = Stores library r.1 f rs × Locates x rs (r.0).0 (r.0).1

  find_start :
      (pre : List Run) (b : ℕ) (post : List Run)
      → Stores library u f (pre ++ run x b ∷ post)
      → Returns (find library u x) (Found (pre ++ run x b ∷ post))
  unfolding find
  find_start pre b post s =
      let a = around pre (run x b) post s.proper in
      let rank = rank_found library x small ss pre b post s.held (Around-Before pre _ post a) in
      let node = node_at library ss pre (run x b) post s.held in
      (
        ((some (node_of (run x b)), suc (length pre)), u),
        rw (rank, find, node) (ground arith),
        (s, inside pre (run x b) post refl (omega arith) a.proper refl refl),
      )

  find_lowest :
      (rs : List Run) → After x rs → Stores library u f rs → Returns (find library u x) (Found rs)
  unfolding find
  find_lowest rs a s =
      let absent = rank_missing library x small ss [] rs s.held tt a in
      let h = put_new library x small ss x [] rs s.held tt a in
      let rank = rank_found library x small _ [] x rs h tt in
      (
        ((none, 1), record u { sorted_set = library.remove probed (hex8 x) }),
        rw (absent, find, rank) (ground arith),
        (
          record {
            held = taken_out library x small probed [] x rs h tt;
            proper = s.proper;
            members = s.members;
          },
          gap [] rs refl tt (omega arith) (raise 0 x rs s.proper a) refl refl,
        ),
      )

  find_behind :
      (pre : List Run) (p : Run) (post : List Run)
      → p.first < x
      → After x post
      → Stores library u f (pre ++ p ∷ post)
      → Returns (find library u x) (Found (pre ++ p ∷ post))
  unfolding find
  find_behind pre p post low high s =
      let a = around pre p post s.proper in
      let split = s.held ∙ ap embed (sym (snoc pre p post)) in
      let before = Around-Before_snoc pre p post a x low in
      let absent = rank_missing library x small ss (pre ++ p ∷ []) post split before high in
      let h = put_new library x small ss x (pre ++ p ∷ []) post split before high in
      let rank = rank_found library x small probed (pre ++ p ∷ []) x post h before in
      let restored = library.remove probed (hex8 x) in
      let held =
        taken_out library x small probed (pre ++ p ∷ []) x post h before
        ∙ ap embed (snoc pre p post) in
      let left : SortedUint32Set library = record u { sorted_set = restored } in
      let same : Stores library left f (pre ++ p ∷ post) = record {
        held = held;
        proper = s.proper;
        members = s.members;
      } in
      let one_less : suc (length (pre ++ p ∷ [])) - 1 ≡ suc (length pre) =
        omega (arith, length-append pre (p ∷ [])) in
      let prev =
        ap (library.get_by_rank restored) one_less ∙ node_at library restored pre p post held in
      elim (dec_lt p.last x) [
        | yes l ↦ (
          ((none, suc (length (pre ++ p ∷ []))), left),
          rw (absent, find, rank, prev) (ground (arith, length-append pre (p ∷ []))),
          (
            same,
            gap (pre ++ p ∷ []) post (sym (snoc pre p post))
                (IsRuns-append 0 pre (p ∷ []) a.front (a.above, a.proper, a.small, tt))
                (rw (next-append 0 pre (p ∷ [])) (omega arith))
                (raise (p.last + 2) x post a.back high) refl refl,
          ),
        )
        | no l ↦ (
          ((some (node_of p), suc (length pre)), left),
          rw (absent, find, rank, prev) (ground (arith, length-append pre (p ∷ []))),
          (same, inside pre p post refl (omega arith) (omega arith) refl refl),
        )
      ]

  find_at :
      (rs : List Run) → Stores library u f rs → Place x rs → Returns (find library u x) (Found rs)
  find_at rs s (start_of pre b post e) =
      subst (λ qs. Returns (find library u x) (Found qs)) (sym e)
        (find_start pre b post (subst (Stores library u f) e s))
  find_at rs s (lowest a) = find_lowest rs a s
  find_at rs s (after pre p post e l a) =
      subst (λ qs. Returns (find library u x) (Found qs)) (sym e)
        (find_behind pre p post l a (subst (Stores library u f) e s))

  -- `Find` does not panic, keeps the contents, and returns the run that holds the number, if any,
  -- with its rank, and otherwise the rank that a run of it would have.
  pub find-Locates : (rs : List Run) → Stores library u f rs → Returns (find library u x) (Found rs)
  find-Locates rs s = find_at rs s (place 0 x rs s.proper)
