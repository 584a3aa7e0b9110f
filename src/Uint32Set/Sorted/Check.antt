-- ===== src/Uint32Set/Sorted/Check.antt =====
-- staging/kos/pkg/uint32set/sortedset.go: the integrity check never panics on an ordered list of
-- runs, at any checking level.
use mathlib.Core.List.{append_assoc}
use kube_examples.Common.{
  ℕ, suc, ◌+◌, ◌-◌, ◌≤◌, ◌<◌, ◌≡◌, refl, ap, ◌∙◌, Bool, true, false, none, some, List, [], ◌∷◌,
  ◌++◌, arith, ltb, length, length-append, two_32, ok, Bool-cases, inl, inr,
}
use kube_examples.Uint32Set.Library.{SortedSetLibrary}
use kube_examples.Uint32Set.Runs.{Run, node_of, embed, IsRuns}
use kube_examples.Uint32Set.Contents.{Holds, count_of, node_at, node_past}
use kube_examples.Uint32Set.Sorted.{SortedUint32Set, check_from, check_nodes, check, check_at_level}

last_run :
    (lo : ℕ) (r : Run) (post : List Run)
    → IsRuns lo (r ∷ post)
    → (pre : List Run) × (q : Run) × (r ∷ post ≡ pre ++ q ∷ [])
      × (q.first ≤ q.last)
      × (q.last < two_32)
last_run lo r [] i = ([], r, refl, i.1, i.2)
last_run lo r (q ∷ post) i =
    let (pre, t, e, p, b) = last_run (r.last + 2) q post i.3 in (r ∷ pre, t, ap (◌∷◌ r) e, p, b)

module _ (library : SortedSetLibrary) (s : library.SortedSet) where
  check_from-ok :
      (rank : ℕ) (pre : List Run) (r : Run) (post : List Run)
      → Holds library s (pre ++ r ∷ post)
      → rank ≡ length pre + 2
      → r.first ≤ r.last
      → r.last < two_32
      → IsRuns (r.last + 2) post
      → (q : Run) × (check_from library s rank (length post) (node_of r) ≡ ok (node_of q))
        × (q.first ≤ q.last)
        × (q.last < two_32)
  unfolding check_from
  check_from-ok rank pre r [] h e p b i = (r, refl, p, b)
  check_from-ok rank pre r (q ∷ post) h e p b i =
      let shifted : Holds library s ((pre ++ r ∷ []) ++ q ∷ post) =
        rw (append_assoc pre (r ∷ []) (q ∷ post)) h in
      let rank_q : rank ≡ suc (length (pre ++ r ∷ [])) =
        omega (arith, length-append pre (r ∷ [])) in
      let node_q : library.get_by_rank s rank ≡ some (node_of q) =
        ap (library.get_by_rank s) rank_q ∙ node_at library s (pre ++ r ∷ []) q post shifted in
      let (t, e', p', b') =
        check_from-ok (rank + 1) (pre ++ r ∷ []) q post shifted (omega (arith, rank_q)) i.1 i.2
          i.3 in
      (t, rw node_q (ground (arith, e')), p', b')

  check_nodes-ok :
      (hard : Bool) (r : Run) (post : List Run)
      → Holds library s (r ∷ post)
      → IsRuns 0 (r ∷ post)
      → check_nodes library s hard ≡ ok tt
  unfolding check_nodes
  check_nodes-ok true r post h i =
      let first = node_at library s [] r post h in
      let count = count_of library s (r ∷ post) h in
      let rounds : library.get_count s - 1 ≡ length post = omega (arith, count) in
      let (q, e, p, b) = check_from-ok 2 [] r post h refl i.1 i.2 i.3 in
      rw (first, rounds) (ground (arith, e))
  check_nodes-ok false r post h i =
      let first = node_at library s [] r post h in
      let count = count_of library s (r ∷ post) h in
      let (pre, q, e, p, b) = last_run 0 r post i in
      let whole : Holds library s (pre ++ q ∷ []) = h ∙ ap embed e in
      let at_last : library.get_by_rank s (library.get_count s) ≡ some (node_of q) =
        ap (library.get_by_rank s)
          (count ∙ ap length e ∙ length-append pre (q ∷ []) ∙ one_more (length pre))
        ∙ node_at library s pre q [] whole in
      rw (first, at_last) (ground arith)
    where
      one_more : (n : ℕ) → n + 1 ≡ suc n
      one_more n = omega arith

  -- `Check`, exhaustive or quick.
  check-ok :
      (u : SortedUint32Set library) (hard : Bool) (rs : List Run)
      → u.sorted_set ≡ s
      → Holds library s rs
      → IsRuns 0 rs
      → check library u hard ≡ ok tt
  unfolding check
  check-ok u hard [] e h i = rw (e, count_of library s [] h, node_past library s [] h)
  check-ok u hard (r ∷ post) e h i =
      let count = count_of library s (r ∷ post) h in
      let past : library.get_by_rank s (library.get_count s + 1) ≡ none =
        ap (library.get_by_rank s) (omega (arith, count)) ∙ node_past library s (r ∷ post) h in
      rw (e, past, count, check_nodes-ok hard r post h i) (ground arith)

  pub check_at_level-ok :
      (u : SortedUint32Set library) (rs : List Run)
      → u.sorted_set ≡ s
      → Holds library s rs
      → IsRuns 0 rs
      → check_at_level library u ≡ ok tt
  unfolding check_at_level
  check_at_level-ok u rs e h i = elim (Bool-cases (ltb 0 u.check_level)) [
    | inl on ↦ rw on (check-ok u _ rs e h i)
    | inr off ↦ rw off
  ]
