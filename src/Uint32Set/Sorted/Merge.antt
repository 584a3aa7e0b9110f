-- ===== src/Uint32Set/Sorted/Merge.antt =====
-- staging/kos/pkg/uint32set/sortedset.go: the runs that `Add` merges.
use kube_examples.Common.{
  ℕ, suc, ◌+◌, ◌≤◌, ◌<◌, ◌≡◌, refl, sym, ap, ◌∙◌, Bool, true, false, ◌||◌, Option, none, some, List,
  [], ◌∷◌, ◌++◌, arith, ◌==◌, if◌then◌else◌, length, length-append, two_32, Returns, Bool-cases,
  inl, inr, ==_iff,
}
use kube_examples.Uint32Set.Keys.{hex8}
use kube_examples.Uint32Set.Library.{Node, SortedSetLibrary}
use kube_examples.Uint32Set.Runs.{Run, run, node_of, embed, IsRuns, covers, Before, After}
use kube_examples.Uint32Set.Contents.{Holds, node_at, node_past, taken_out, put_old}
use kube_examples.Uint32Set.Sorted.{SortedUint32Set, merge_new_run, merge_and_check}
use kube_examples.Uint32Set.Sorted.Check.{check_at_level-ok}
use kube_examples.Uint32Set.Sorted.Models.{snoc}

-- Runs above a number start behind it.
pub raise : (lo x : ℕ) (rs : List Run) → IsRuns lo rs → After x rs → IsRuns (x + 1) rs
raise lo x [] i a = tt
raise lo x (r ∷ rs) i a = (omega arith, i.1, i.2, i.3)

pub or_member : (f : ℕ → Bool) (x y : ℕ) → f x ≡ true → f y ≡ (f y || y == x)
or_member f x y e = elim (Bool-cases (y == x)) [
  | inl same ↦ let at_x : f y ≡ true = ap f ((==_iff y x).0 same) ∙ e in rw at_x
  | inr other ↦ rw other (ground arith)
]

-- The end of the run that starts with `x`, merged with the run behind it if that one is adjacent,
-- and the runs that are left.
abbrev pub grown_end : ℕ → List Run → ℕ
grown_end x [] = x
grown_end x (q ∷ post) = if x + 1 == q.first then q.last else x

abbrev pub grown_rest : ℕ → List Run → List Run
grown_rest x [] = []
grown_rest x (q ∷ post) = if x + 1 == q.first then post else q ∷ post

pub record Grown (x : ℕ) (post : List Run) (e : ℕ) (rest : List Run) : Type 0 where
  pub proper : x ≤ e
  pub small : e < two_32
  pub back : IsRuns (e + 2) rest
  pub members : (y : ℕ) → covers y (run x e ∷ rest) ≡ (covers y post || y == x)

pub grown :
    (x : ℕ) (post : List Run)
    → x < two_32
    → IsRuns (x + 1) post
    → Grown x post (grown_end x post) (grown_rest x post)
grown x [] l i = record { proper = omega arith; small = l; back = tt; members = λ y. ground arith }
grown x (q ∷ post) l i = elim (Bool-cases (x + 1 == q.first)) [
  | inl e ↦
      rw e (record { proper = ground arith; small = i.2; back = i.3; members = λ y. ground arith })
  | inr e ↦ rw e (record {
    proper = omega arith;
    small = l;
    back = (ground arith, i.1, i.2, i.3);
    members = λ y. ground arith;
  })
]

pub Before-snoc :
    (x z w : ℕ) (pre : List Run) → x < z → Before x pre → Before z (pre ++ run x w ∷ [])
Before-snoc x z w [] l b = (l, tt)
Before-snoc x z w (r ∷ pre) l b = (omega arith, Before-snoc x z w pre l b.1)

pub Before-lt : (x z : ℕ) (pre : List Run) → x < z → Before x pre → Before z pre
Before-lt x z [] l b = tt
Before-lt x z (r ∷ pre) l b = (omega arith, Before-lt x z pre l b.1)

module _ (library : SortedSetLibrary) (u : SortedUint32Set library) (x : ℕ)
    (small : x < two_32) where
  abbrev pub ss : library.SortedSet
  ss = u.sorted_set

  behind_none :
      (pre : List Run) (r : Run)
      → Holds library ss (pre ++ r ∷ [])
      → library.get_by_rank ss (suc (length pre) + 1) ≡ none
  behind_none pre r h =
      ap (library.get_by_rank ss) (omega (arith, length-append pre (r ∷ [])))
      ∙ node_past library ss (pre ++ r ∷ []) h

  behind_some :
      (pre : List Run) (r q : Run) (post : List Run)
      → Holds library ss (pre ++ r ∷ q ∷ post)
      → library.get_by_rank ss (suc (length pre) + 1) ≡ some (node_of q)
  behind_some pre r q post h =
      ap (library.get_by_rank ss) (omega (arith, length-append pre (r ∷ [])))
      ∙ node_at library ss (pre ++ r ∷ []) q post (h ∙ ap embed (sym (snoc pre r (q ∷ post))))

  -- Not merged with a run before it.
  pub merge_alone :
      (pre post : List Run) (prev : Option Node)
      → Holds library ss (pre ++ run x x ∷ post)
      → Before x pre
      → After x post
      → Returns
          (merge_new_run library u x (suc (length pre)) prev false)
          λ u'. Holds library u'.sorted_set (pre ++ run x (grown_end x post) ∷ grown_rest x post)
  unfolding merge_new_run
  merge_alone pre [] prev h b a = (u, rw (behind_none pre (run x x) h), h)
  merge_alone pre (q ∷ post) prev h b a = elim (Bool-cases (x + 1 == q.first)) [
    | inl e ↦
        let sans = library.remove ss (hex8 q.first) in
        let removed : Holds library sans (pre ++ run x x ∷ post) =
          taken_out library q.first a.0.1 ss (pre ++ run x x ∷ []) q.last post
            (h ∙ ap embed (sym (snoc pre (run x x) (q ∷ post))))
            (Before-snoc x q.first x pre a.0.0 b)
          ∙ ap embed (snoc pre (run x x) post) in
        (
          record u { sorted_set = library.add_or_update sans (hex8 x) x q.last },
          rw (behind_some pre (run x x) q post h) (ground arith),
          rw e (put_old library x small sans q.last x pre post removed b a.1),
        )
    | inr e ↦ (u, rw (behind_some pre (run x x) q post h) (ground arith), rw e h)
  ]

  -- Merged with the run `p` before it.
  pub merge_prev :
      (pre : List Run) (p : Run) (post : List Run)
      → Holds library ss ((pre ++ p ∷ []) ++ run x x ∷ post)
      → Before p.first pre
      → After x post
      → Before x (pre ++ p ∷ [])
      → p.first < two_32
      → After p.first post
      → Returns
          (merge_new_run library u x (suc (length (pre ++ p ∷ []))) (some (node_of p)) true)
          λ u'.
            Holds library u'.sorted_set (pre ++ run p.first (grown_end x post) ∷ grown_rest x post)
  unfolding merge_new_run
  merge_prev pre p [] h i a b l c =
      let sans = library.remove ss (hex8 x) in
      let removed : Holds library sans (pre ++ p ∷ []) =
        taken_out library x small ss (pre ++ p ∷ []) x [] h b ∙ ap embed (snoc pre p []) in
      (
        record u { sorted_set = library.add_or_update sans (hex8 p.first) p.first x },
        rw (behind_none (pre ++ p ∷ []) (run x x) h),
        put_old library p.first l sans x p.last pre [] removed i tt,
      )
  merge_prev pre p (q ∷ post) h i a b l c =
      let sans = library.remove ss (hex8 x) in
      let removed : Holds library sans ((pre ++ p ∷ []) ++ q ∷ post) =
        taken_out library x small ss (pre ++ p ∷ []) x (q ∷ post) h b in
      elim (Bool-cases (x + 1 == q.first)) [
        | inl e ↦
            let apart = library.remove sans (hex8 q.first) in
            let both : Holds library apart (pre ++ p ∷ post) =
              taken_out library q.first a.0.1 sans (pre ++ p ∷ []) q.last post removed
                (Before-lt x q.first (pre ++ p ∷ []) a.0.0 b)
              ∙ ap embed (snoc pre p post) in
            (
              record u { sorted_set = library.add_or_update apart (hex8 p.first) p.first q.last },
              rw (behind_some (pre ++ p ∷ []) (run x x) q post h) (ground arith),
              rw e (put_old library p.first l apart q.last p.last pre post both i c.1),
            )
        | inr e ↦ (
          record u { sorted_set = library.add_or_update sans (hex8 p.first) p.first x },
          rw (behind_some (pre ++ p ∷ []) (run x x) q post h) (ground arith),
          rw e (
              put_old library p.first l sans x p.last pre (q ∷ post)
                (removed ∙ ap embed (snoc pre p (q ∷ post))) i c),
        )
      ]

  pub merge_and_check-ok :
      (rank : ℕ) (prev : Option Node) (with_prev : Bool) (rs : List Run)
      → Returns
          (merge_new_run library u x rank prev with_prev)
          (λ u'. Holds library u'.sorted_set rs)
      → IsRuns 0 rs
      → Returns
          (merge_and_check library u x rank prev with_prev)
          λ r. (r.0 ≡ true) × Holds library (r.1).sorted_set rs
  unfolding merge_and_check
  merge_and_check-ok rank prev with_prev rs (u', e, h) i =
      ((true, u'), rw (e, check_at_level-ok library u'.sorted_set u' rs refl h i), (refl, h))
