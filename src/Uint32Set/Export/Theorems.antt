-- ===== src/Uint32Set/Export/Theorems.antt =====
-- staging/kos/pkg/uint32set/sortedset.go: `Export` lists the members in ascending order, and
-- `RExport` the runs.
use mathlib.Core.List.{append_assoc, append-nil}
use kube_examples.Common.{
  ℕ, zero, suc, ◌+◌, ◌-◌, ◌%◌, ◌≤◌, ◌<◌, ◌≡◌, refl, sym, ap, ◌∙◌, Bool, true, false, none, some,
  List, [], ◌∷◌, ◌++◌, arith, leb, length, length-append, two_32,
}
use kube_examples.Uint32Set.Library.{SortedSetLibrary}
use kube_examples.Uint32Set.Runs.{Run, node_of, embed, IsRuns, IsRuns-mono, covers}
use kube_examples.Uint32Set.Contents.{Holds, count_of, node_at, node_past}
use kube_examples.Uint32Set.Ascending.{
  contains, IsAscending, IsAscending-mono, Lists, span, span-IsAscending, contains-span,
  contains-append,
}
use kube_examples.Uint32Set.Sorted.{SortedUint32Set, add_u32}
use kube_examples.Uint32Set.Sorted.Models.{Stores, Models, snoc}
use kube_examples.Uint32Set.Export.{append_run, export_from, export, r_export_from, r_export}

append_run-end :
    (fuel x l : ℕ) (ans : List ℕ) → l ≤ x → append_run (suc fuel) x l ans ≡ ans ++ x ∷ []
unfolding append_run
append_run-end fuel x l ans h = let t : leb l x ≡ true = ground arith in rw (t, append_run)

append_run-more :
    (fuel x l : ℕ) (ans : List ℕ)
    → x < l
    → l < two_32
    → append_run (suc fuel) x l ans ≡ append_run fuel (suc x) l (ans ++ x ∷ [])
unfolding append_run
append_run-more fuel x l ans h k =
    let t : leb l x ≡ false = ground arith in
    let plain : add_u32 x 1 ≡ suc x = omega arith in
    rw (t, append_run) (ap (λ (z : ℕ). append_run fuel z l (ans ++ x ∷ [])) plain)

append_run-span :
    (n x l : ℕ) (ans : List ℕ)
    → l ≡ x + n
    → l < two_32
    → append_run (suc n) x l ans ≡ ans ++ span x n
append_run-span zero x l ans e h = append_run-end 0 x l ans (omega arith)
append_run-span (suc n) x l ans e h =
    append_run-more (suc n) x l ans (omega arith) h
    ∙ append_run-span n (suc x) l (ans ++ x ∷ []) (omega arith) h
    ∙ append_assoc ans (x ∷ []) (span (suc x) n)

-- The members of some runs, and their ends.
abbrev pub all_members : List Run → List ℕ
all_members [] = []
all_members (r ∷ rs) = span r.first (r.last - r.first) ++ all_members rs

abbrev pub all_ends : List Run → List ℕ
all_ends [] = []
all_ends (r ∷ rs) = r.first ∷ r.last ∷ all_ends rs

all_members-IsAscending : (lo : ℕ) (rs : List Run) → IsRuns lo rs → IsAscending lo (all_members rs)
all_members-IsAscending lo [] i = tt
all_members-IsAscending lo (r ∷ rs) i =
    span-IsAscending lo r.first (r.last - r.first) (all_members rs) i.0 (omega (arith, i.1, i.2)) (
      IsAscending-mono (r.last + 2) (suc (r.first + (r.last - r.first))) (all_members rs)
        (omega (arith, i.1)) (all_members-IsAscending (r.last + 2) rs i.3))

contains-all_members :
    (lo y : ℕ) (rs : List Run) → IsRuns lo rs → contains y (all_members rs) ≡ covers y rs
contains-all_members lo y [] i = refl
contains-all_members lo y (r ∷ rs) i =
    contains-append y (span r.first (r.last - r.first)) (all_members rs)
    ∙ ground (
      arith,
      contains-span y r.first (r.last - r.first),
      contains-all_members (r.last + 2) y rs i.3,
      i.1,
    )

module _ (library : SortedSetLibrary) (ss : library.SortedSet) where
  export_from-some :
      (fuel rank : ℕ) (ans : List ℕ) (r : Run)
      → library.get_by_rank ss rank ≡ some (node_of r)
      → r.first ≤ r.last
      → r.last < two_32
      → export_from library ss (suc fuel) rank ans
        ≡ export_from library ss fuel (rank + 1) (ans ++ span r.first (r.last - r.first))
  unfolding export_from
  export_from-some fuel rank ans r e h k =
      let first : r.first % two_32 ≡ r.first = omega arith in
      let appended : append_run (suc (r.last - r.first % two_32)) (r.first % two_32) r.last ans
          ≡ ans ++ span r.first (r.last - r.first) =
        ap (λ (i : ℕ). append_run (suc (r.last - i)) i r.last ans) first
        ∙ append_run-span (r.last - r.first) r.first r.last ans (omega arith) k in
      rw (e, export_from) (ap (export_from library ss fuel (rank + 1)) appended)

  r_export_from-some :
      (fuel rank : ℕ) (ans : List ℕ) (r : Run)
      → library.get_by_rank ss rank ≡ some (node_of r)
      → r.first < two_32
      → r_export_from library ss (suc fuel) rank ans
        ≡ r_export_from library ss fuel (rank + 1) (ans ++ r.first ∷ r.last ∷ [])
  unfolding r_export_from
  r_export_from-some fuel rank ans r e h =
      let first : r.first % two_32 ≡ r.first = omega arith in
      rw (e, r_export_from)
        (ap (λ (i : ℕ). r_export_from library ss fuel (rank + 1) (ans ++ i ∷ r.last ∷ [])) first)

  export_from-all_members :
      (pre post : List Run) (rank : ℕ) (ans : List ℕ)
      → Holds library ss (pre ++ post)
      → IsRuns 0 post
      → rank ≡ suc (length pre)
      → export_from library ss (suc (length post)) rank ans ≡ some (ans ++ all_members post)
  unfolding export_from
  export_from-all_members pre [] rank ans h i e =
      let past : library.get_by_rank ss rank ≡ none =
        ap (library.get_by_rank ss) e ∙ node_past library ss pre (h ∙ ap embed (append-nil pre)) in
      rw (past, export_from) (ap some (sym (append-nil ans)))
  export_from-all_members pre (r ∷ post) rank ans h i e =
      let at_r : library.get_by_rank ss rank ≡ some (node_of r) =
        ap (library.get_by_rank ss) e ∙ node_at library ss pre r post h in
      let rest =
        export_from-all_members (pre ++ r ∷ []) post (rank + 1)
          (ans ++ span r.first (r.last - r.first)) (h ∙ ap embed (sym (snoc pre r post)))
          (IsRuns-mono (r.last + 2) 0 post (omega arith) i.3)
          (omega (arith, length-append pre (r ∷ []))) in
      export_from-some (suc (length post)) rank ans r at_r i.1 i.2
      ∙ rest
      ∙ ap some (append_assoc ans (span r.first (r.last - r.first)) (all_members post))

  r_export_from-all_ends :
      (pre post : List Run) (rank : ℕ) (ans : List ℕ)
      → Holds library ss (pre ++ post)
      → IsRuns 0 post
      → rank ≡ suc (length pre)
      → r_export_from library ss (suc (length post)) rank ans ≡ some (ans ++ all_ends post)
  unfolding r_export_from
  r_export_from-all_ends pre [] rank ans h i e =
      let past : library.get_by_rank ss rank ≡ none =
        ap (library.get_by_rank ss) e ∙ node_past library ss pre (h ∙ ap embed (append-nil pre)) in
      rw (past, r_export_from) (ap some (sym (append-nil ans)))
  r_export_from-all_ends pre (r ∷ post) rank ans h i e =
      let at_r : library.get_by_rank ss rank ≡ some (node_of r) =
        ap (library.get_by_rank ss) e ∙ node_at library ss pre r post h in
      let rest =
        r_export_from-all_ends (pre ++ r ∷ []) post (rank + 1) (ans ++ r.first ∷ r.last ∷ [])
          (h ∙ ap embed (sym (snoc pre r post))) (IsRuns-mono (r.last + 2) 0 post (omega arith) i.3)
          (omega (arith, length-append pre (r ∷ []))) in
      r_export_from-some (suc (length post)) rank ans r at_r (omega (arith, i.1, i.2))
      ∙ rest
      ∙ ap some (append_assoc ans (r.first ∷ r.last ∷ []) (all_ends post))

module _ (library : SortedSetLibrary) (u : SortedUint32Set library) (f : ℕ → Bool) where
  -- `Export` ends, and returns the members in ascending order.
  pub export-Lists : Models library u f → (xs : List ℕ) × (export library u ≡ some xs) × Lists f xs
  unfolding export
  export-Lists (rs, s) = (
    all_members rs,
    rw (count_of library u.sorted_set rs s.held)
        (export_from-all_members library u.sorted_set [] rs 1 [] s.held s.proper refl),
    (
      all_members-IsAscending 0 rs s.proper,
      λ y. contains-all_members 0 y rs s.proper ∙ s.members y,
    ),
  )

  -- `RExport` ends, and returns the first and last numbers of the runs in turn.
  pub r_export-all_ends :
      (rs : List Run) → Stores library u f rs → r_export library u ≡ some (all_ends rs)
  unfolding r_export
  r_export-all_ends rs s =
      rw (count_of library u.sorted_set rs s.held)
        (r_export_from-all_ends library u.sorted_set [] rs 1 [] s.held s.proper refl)
