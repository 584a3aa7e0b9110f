-- ===== src/Uint32Set/Choose/Range.antt =====
-- staging/kos/pkg/uint32set/sortedset.go: `AddOneInRange` as a whole.
use kube_examples.Common.{
  ℕ, suc, ◌+◌, ◌≤◌, ◌<◌, ◌≡◌, refl, sym, ap, ◌∙◌, Bool, true, false, ◌&&◌, ◌⊎◌, not, ◌||◌, Option,
  some, List, arith, ltb, ◌==◌, if◌then◌else◌, get_elem?, two_32, inl, inr, dec_lt, ℕ_discrete, ok,
  Returns,
}
use kube_examples.Uint32Set.Keys.{key_eq-hex8}
use kube_examples.Uint32Set.Library.{Node, SortedSetLibrary}
use kube_examples.Uint32Set.Runs.{Run, node_of, IsRuns, covers}
use kube_examples.Uint32Set.Sorted.{SortedUint32Set, is_nil, find}
use kube_examples.Uint32Set.Sorted.Models.{Stores, Models}
use kube_examples.Uint32Set.Sorted.Find.{find-Locates}
use kube_examples.Uint32Set.Choose.{choose_gap, add_one_in_range, same_node, count_found}
use kube_examples.Uint32Set.Choose.Spots.{
  Spot, Located, between, on_run, locate, of_bool, at-proper, at-apart,
}
use kube_examples.Uint32Set.Choose.Gaps.{spots-le, spots-lt}
use kube_examples.Uint32Set.Choose.Theorems.{covered, choose_gap-Picks, choose_gap-reaches}

abbrev on_one_node : Option Node → Option Node → Bool
on_one_node m n = same_node m n && not (is_nil m)

-- Both ends of the range are on one run, or there is a gap to choose.
data Ends (rs : List Run) (least greatest : ℕ) (m : Option Node) (i : ℕ) (n : Option Node) (j : ℕ)
    : Type 0 where
  full :
      on_one_node m n ≡ true
      → ((y : ℕ) → least ≤ y → y ≤ greatest → covers y rs ≡ true)
      → Ends rs least greatest m i n j
  open_range :
      (low high : ℕ) (on_min on_max : Bool)
      → on_one_node m n ≡ false
      → Spot least rs low on_min
      → Spot greatest rs high on_max
      → count_found m ≡ of_bool on_min
      → count_found n ≡ of_bool on_max
      → i ≡ suc low
      → j ≡ suc high
      → low + of_bool on_min ≤ high
      → Ends rs least greatest m i n j

module _ (rs : List Run) (proper : IsRuns 0 rs) (least greatest : ℕ)
    (ordered : least ≤ greatest) where
  Ends-on_runs :
      (m n : Option Node) (i j low high : ℕ) (p q : Run)
      → i ≡ suc low
      → m ≡ some (node_of p)
      → get_elem? rs low ≡ some p
      → Spot least rs low true
      → j ≡ suc high
      → n ≡ some (node_of q)
      → get_elem? rs high ≡ some q
      → Spot greatest rs high true
      → Ends rs least greatest m i n j
  Ends-on_runs m n i j low high p q i_eq m_eq p_at s j_eq n_eq q_at s' =
      let (_, p_up, p_small) = at-proper 0 rs low p proper p_at in
      let (_, q_up, q_small) = at-proper 0 rs high q proper q_at in
      let keys = key_eq-hex8 p.first q.first (omega arith) (omega arith) in
      elim (ℕ_discrete low high) [
        | yes same ↦
            let one : some p ≡ some q = sym p_at ∙ ap (get_elem? rs) same ∙ q_at in
            let first_eq : p.first ≡ q.first = ground arith in
            full (rw (m_eq, n_eq) (rw keys (ground arith))) (λ y l l'. covered y rs low p p_at (
              ground
                (arith, s.here refl p p_at, s'.here refl p (ap (get_elem? rs) (sym same) ∙ p_at))))
        | no other ↦
            let below = spots-le rs least greatest low high true true proper ordered s s' in
            let apart = at-apart 0 rs low high p q proper p_at q_at (omega arith) in
            open_range low high true true (rw (m_eq, n_eq) (rw keys (ground arith))) s s' (rw m_eq)
              (rw n_eq) i_eq j_eq (omega arith)
      ]

  ends :
      (m n : Option Node) (i j : ℕ)
      → Located least rs m i
      → Located greatest rs n j
      → Ends rs least greatest m i n j
  ends m n i j (between low i_eq m_eq s) (between high j_eq n_eq s') =
      open_range low high false false (rw m_eq (ground arith)) s s' (rw m_eq) (rw n_eq) i_eq j_eq
        (omega (arith, spots-le rs least greatest low high false false proper ordered s s'))
  ends m n i j (between low i_eq m_eq s) (on_run high q j_eq n_eq q_at s') =
      open_range low high false true (rw m_eq (ground arith)) s s' (rw m_eq) (rw n_eq) i_eq j_eq
        (omega (arith, spots-le rs least greatest low high false true proper ordered s s'))
  ends m n i j (on_run low p i_eq m_eq p_at s) (between high j_eq n_eq s') =
      open_range low high true false (rw (m_eq, n_eq) (ground arith)) s s' (rw m_eq) (rw n_eq) i_eq
        j_eq (omega (arith, spots-lt rs least greatest low high proper ordered s s'))
  ends m n i j (on_run low p i_eq m_eq p_at s) (on_run high q j_eq n_eq q_at s') =
      Ends-on_runs m n i j low high p q i_eq m_eq p_at s j_eq n_eq q_at s'

module _ (library : SortedSetLibrary) (u : SortedUint32Set library) (f : ℕ → Bool)
    (least greatest : ℕ) (fits : greatest < two_32) where
  -- A free number of the range was added, or there is none and nothing changed.
  abbrev pub Outcome : (ℕ × Bool) × SortedUint32Set library → Type 0
  Outcome r =
      (((r.0).1 ≡ true)
        × (least ≤ (r.0).0)
        × ((r.0).0 ≤ greatest)
        × (f (r.0).0 ≡ false)
        × Models library r.1 (λ y. f y || y == (r.0).0))
      ⊎ (((r.0).1 ≡ false)
          × ((y : ℕ) → least ≤ y → y ≤ greatest → f y ≡ true)
          × Models library r.1 f)

  abbrev pub Reaches : ℕ → Type 0
  Reaches y =
      (gap_seed : ℕ) × (member_seed : ℕ) × Returns
        (add_one_in_range library u gap_seed member_seed least greatest)
        λ r. ((r.0).0 ≡ y) × ((r.0).1 ≡ true)

  -- What the code does once both ends are located.
  located-code :
      (gap_seed member_seed i j : ℕ) (m n : Option Node) (v w : SortedUint32Set library)
      → least ≤ greatest
      → find library u least ≡ ok ((m, i), v)
      → find library v greatest ≡ ok ((n, j), w)
      → add_one_in_range library u gap_seed member_seed least greatest ≡ (
          if on_one_node m n
          then ok ((0, false), w)
          else choose_gap library w gap_seed member_seed least greatest m i n j)
  unfolding add_one_in_range
  located-code gap_seed member_seed i j m n v w l e e' =
      let test : ltb greatest least ≡ false = ground arith in rw (test, e, e')

  module _ (rs : List Run) (s : Stores library u f rs) (ordered : least ≤ greatest) where
    ordered-Outcome :
        (gap_seed member_seed : ℕ)
        → Returns (add_one_in_range library u gap_seed member_seed least greatest) Outcome
    ordered-Outcome gap_seed member_seed =
        let (((m, i), v), e, (s_v, at_min)) = find-Locates library u f least (omega arith) rs s in
        let (((n, j), w), e', (s_w, at_max)) = find-Locates library v f greatest fits rs s_v in
        let code = located-code gap_seed member_seed i j m n v w ordered e e' in
        elim (ends rs s.proper least greatest ordered m n i j (locate least rs m i s.proper at_min)
          (locate greatest rs n j s.proper at_max)) [
            | full one all ↦ (
              ((0, false), w),
              code ∙ rw one,
              inr (refl, (λ y l l'. sym (s.members y) ∙ all y l l'), (rs, s_w)),
            )
            | open_range low high on_min on_max off a b em en i_eq j_eq room ↦
                let (x, l, l', free, (r, ran, (same, done, models))) =
                  choose_gap-Picks library w f rs s_w least greatest low high on_min on_max a b
                    ordered fits m n em en room gap_seed member_seed in
                (
                  r,
                  code ∙ rw (off, i_eq, j_eq) ran,
                  inl (done, rw same l, rw same l', rw same free, rw same models),
                )
          ]

    ordered-Reaches : (y : ℕ) → least ≤ y → y ≤ greatest → f y ≡ false → Reaches y
    ordered-Reaches y l l' free =
        let (((m, i), v), e, (s_v, at_min)) = find-Locates library u f least (omega arith) rs s in
        let (((n, j), w), e', (s_w, at_max)) = find-Locates library v f greatest fits rs s_v in
        let (_, _, (_, at_y)) = find-Locates library u f y (omega arith) rs s in
        let code = λ (gap_seed member_seed : ℕ).
          located-code gap_seed member_seed i j m n v w ordered e e' in
        elim (ends rs s.proper least greatest ordered m n i j (locate least rs m i s.proper at_min)
          (locate greatest rs n j s.proper at_max)) [
            | full one all ↦ cc (sym (s.members y) ∙ all y l l', free)
            | open_range low high on_min on_max off a b em en i_eq j_eq room ↦
                elim (locate y rs _ _ s.proper at_y) [
                  | on_run k p _ _ p_at spot ↦
                      let inside : f y ≡ true =
                        sym (s.members y)
                        ∙ covered y rs k p p_at (ground (arith, spot.here refl p p_at)) in
                      cc
                  | between t _ _ spot ↦
                      let (gap_seed, member_seed, (r, ran, (same, done, _))) =
                        choose_gap-reaches library w f rs s_w least greatest low high on_min on_max
                          a b ordered fits m n em en room y t spot l l' in
                      (
                        gap_seed,
                        member_seed,
                        (r, code gap_seed member_seed ∙ rw (off, i_eq, j_eq) ran, (same, done)),
                      )
                ]
          ]

  -- `AddOneInRange` does not panic, whatever the random numbers: it adds a number of the range that
  -- was not in the set, or there was none and the contents stay.
  pub add_one_in_range-Outcome :
      (gap_seed member_seed : ℕ)
      → Models library u f
      → Returns (add_one_in_range library u gap_seed member_seed least greatest) Outcome
  unfolding add_one_in_range
  add_one_in_range-Outcome gap_seed member_seed (rs, s) = elim (dec_lt greatest least) [
    | no n ↦ ordered-Outcome rs s (omega arith) gap_seed member_seed
    | yes l ↦ (((0, false), u), ground arith, inr (refl, (λ y a b. absurd (omega arith)), (rs, s)))
  ]

  -- Every free number of the range is the choice for some random numbers.
  pub add_one_in_range-Reaches :
      (y : ℕ) → Models library u f → least ≤ y → y ≤ greatest → f y ≡ false → Reaches y
  add_one_in_range-Reaches y (rs, s) l l' free = ordered-Reaches rs s (omega arith) y l l' free
