-- ===== src/Uint32Set/Choose/Theorems.antt =====
-- staging/kos/pkg/uint32set/sortedset.go: `AddOneInRange` adds a free number of the range if there
-- is one, never panics, and can add each of the free numbers.
use native.Mathlib.Nat.{mod-eq_of_lt}
use kube_examples.Common.{
  ℕ, zero, suc, ◌+◌, ◌-◌, ◌%◌, ◌≤◌, ◌<◌, ◌≡◌, refl, sym, ap, ◌∙◌, Bool, true, false, not, ◌||◌,
  Option, some, List, [], ◌∷◌, arith, leb, ◌==◌, get_elem?, two_32, subst, Returns,
}
use kube_examples.Uint32Set.Library.{Node, SortedSetLibrary}
use kube_examples.Uint32Set.Runs.{Run, covers, in_run}
use kube_examples.Uint32Set.Sorted.{SortedUint32Set, add_u32, sub_u32}
use kube_examples.Uint32Set.Sorted.Models.{Stores, Models}
use kube_examples.Uint32Set.Sorted.Add.{add-Models}
use kube_examples.Uint32Set.Choose.{add_in_gap, choose_gap, count_found}
use kube_examples.Uint32Set.Choose.Spots.{Spot, Spot-uncovered, of_bool}
use kube_examples.Uint32Set.Choose.Gaps.{
  First, Last, first-exists, last-exists, within-Spot, spots-le, spots-behind,
}

pub covered :
    (y : ℕ) (rs : List Run) (j : ℕ) (r : Run)
    → get_elem? rs j ≡ some r
    → in_run y r ≡ true
    → covers y rs ≡ true
covered y [] j r e h = cc
covered y (q ∷ rs) zero r e h = ground arith
covered y (q ∷ rs) (suc j) r e h = ground (arith, covered y rs j r e h)

-- The gap that is chosen, where there is one.
choose_gap-code :
    (library : SortedSetLibrary) (u : SortedUint32Set library)
    (gap_seed member_seed least greatest min_r max_r : ℕ) (min_node max_node : Option Node)
    (bias saib : ℕ)
    → count_found min_node ≡ bias
    → count_found max_node ≡ saib
    → bias + saib < 1 + max_r - min_r + saib
    → choose_gap library u gap_seed member_seed least greatest min_node min_r max_node max_r
      ≡ add_in_gap library u member_seed least greatest min_r
          (bias + gap_seed % (1 + max_r - min_r + saib - (bias + saib)))
          (1 + max_r - min_r + saib)
unfolding choose_gap
choose_gap-code library u gap_seed member_seed least greatest min_r max_r min_node max_node bias
      saib e e' h =
    let test : leb (1 + max_r - min_r + saib) (bias + saib) ≡ false = ground arith in
    let nonzero : 1 + max_r - min_r + saib - (bias + saib) == 0 ≡ false = ground arith in
    rw (e, e', test, nonzero)

module _ (library : SortedSetLibrary) (u : SortedUint32Set library) (f : ℕ → Bool) (rs : List Run)
    (s : Stores library u f rs) (least greatest low high : ℕ) (on_min on_max : Bool)
    (at_min : Spot least rs low on_min) (at_max : Spot greatest rs high on_max)
    (ordered : least ≤ greatest) (fits : greatest < two_32) where
  abbrev pub Picks : ℕ → (ℕ × Bool) × SortedUint32Set library → Type 0
  Picks x r = ((r.0).0 ≡ x) × ((r.0).1 ≡ true) × Models library r.1 (λ y. f y || y == x)

  module _ (t : ℕ) (from : low + of_bool on_min ≤ t) (to : t ≤ high) where
    first_of :
        First library u.sorted_set rs s.held s.proper least greatest low high on_min on_max at_min
          at_max ordered fits t from to
    first_of =
        first-exists library u.sorted_set rs s.held s.proper least greatest low high on_min on_max
          at_min at_max ordered fits t from to

    last_of :
        Last library u.sorted_set rs s.held s.proper least greatest low high on_min on_max at_min
          at_max ordered fits t from to
    last_of =
        last-exists library u.sorted_set rs s.held s.proper least greatest low high on_min on_max
          at_min at_max ordered fits t from to

    first-le-last : first_of.first ≤ last_of.last
    first-le-last = last_of.above first_of.first first_of.le-max first_of.nexts

    abbrev chosen_number : ℕ → ℕ
    chosen_number seed = first_of.first + seed % (1 + (last_of.last - first_of.first))

    chosen_bounds :
        (seed : ℕ) → (first_of.first ≤ chosen_number seed) × (chosen_number seed ≤ last_of.last)
    chosen_bounds seed =
        let r = remainder seed (last_of.last - first_of.first) in
        let o = first-le-last in (omega arith, omega arith)
      where
        remainder : (n d : ℕ) → n % (1 + d) ≤ d
        remainder n d = grind arith

    chosen-free : (seed : ℕ) → f (chosen_number seed) ≡ false
    chosen-free seed =
        let (a, b) = chosen_bounds seed in
        sym (s.members _)
        ∙ Spot-uncovered (chosen_number seed) rs t (
            within-Spot library u.sorted_set rs s.held s.proper least greatest low high on_min
              on_max at_min at_max ordered fits t from to first_of last_of (chosen_number seed) a b)

    add_in_gap-Picks :
        (seed : ℕ)
        → Returns
            (add_in_gap library u seed least greatest
              (suc low)
              (t - low)
              (1 + suc high - suc low + of_bool on_max))
            (Picks (chosen_number seed))
    unfolding add_in_gap
    add_in_gap-Picks seed =
        let (a, b) = chosen_bounds seed in
        let o = first-le-last in
        let m = last_of.le-max in
        let free = chosen-free seed in
        let ((added, left), ran, (new, models)) =
          add-Models library u f (chosen_number seed) (omega arith) (rs, s) in
        let is_new : added ≡ true = new ∙ ap not free in
        let width : 1 + sub_u32 last_of.last first_of.first ≡ 1 + (last_of.last - first_of.first) =
          omega arith in
        let number : add_u32 first_of.first (seed % (1 + (last_of.last - first_of.first)))
            ≡ chosen_number seed =
          omega arith in
        let nonzero : 1 + (last_of.last - first_of.first) == 0 ≡ false = ground arith in
        (
          ((chosen_number seed, true), left),
          rw (first_of.code, last_of.code, width, nonzero, number, ran, is_new),
          (refl, refl, models),
        )

  abbrev pub gaps : ℕ
  gaps = 1 + suc high - suc low + of_bool on_max

  abbrev pub choices : ℕ
  choices = gaps - (of_bool on_min + of_bool on_max)

  module _ (min_node max_node : Option Node) (e_min : count_found min_node ≡ of_bool on_min)
      (e_max : count_found max_node ≡ of_bool on_max) (room : low + of_bool on_min ≤ high) where
    choose_gap-at :
        (gap_seed member_seed t : ℕ) (from : low + of_bool on_min ≤ t) (to : t ≤ high)
        → t - low ≡ of_bool on_min + gap_seed % choices
        → Returns
            (choose_gap library u gap_seed member_seed least greatest min_node
              (suc low)
              max_node
              (suc high))
            (Picks (chosen_number t from to member_seed))
    choose_gap-at gap_seed member_seed t from to offset =
        let (r, ran, picked) = add_in_gap-Picks t from to member_seed in
        (
          r,
          choose_gap-code library u gap_seed member_seed least greatest (suc low) (suc high)
                min_node max_node (of_bool on_min) (of_bool on_max) e_min e_max (omega arith)
              ∙ ap (λ g. add_in_gap library u member_seed least greatest (suc low) g gaps)
                  (sym offset)
              ∙ ran,
          picked,
        )

    -- Whatever the seeds, a free number of the range is added.
    pub choose_gap-Picks :
        (gap_seed member_seed : ℕ)
        → (x : ℕ) × (least ≤ x)
          × (x ≤ greatest)
          × (f x ≡ false)
          × Returns
              (choose_gap library u gap_seed member_seed least greatest min_node
                (suc low)
                max_node
                (suc high))
              (Picks x)
    choose_gap-Picks gap_seed member_seed =
        let enough : choices ≡ suc (high - low - of_bool on_min) = omega arith in
        let small : gap_seed % choices < choices =
          rw enough (remainder gap_seed (high - low - of_bool on_min)) in
        let t = low + (of_bool on_min + gap_seed % choices) in
        let from : low + of_bool on_min ≤ t = omega arith in
        let to : t ≤ high = omega arith in
        let (a, b) = chosen_bounds t from to member_seed in
        (
          chosen_number t from to member_seed,
          omega (arith, (first_of t from to).min-le),
          omega (arith, (last_of t from to).le-max),
          chosen-free t from to member_seed,
          choose_gap-at gap_seed member_seed t from to (omega arith),
        )
      where
        remainder : (n d : ℕ) → n % suc d < suc d
        remainder n d = grind arith

    -- Every free number of the range is added under some seeds.
    pub choose_gap-reaches :
        (y t : ℕ)
        → Spot y rs t false
        → least ≤ y
        → y ≤ greatest
        → (gap_seed : ℕ) × (member_seed : ℕ) × Returns
            (choose_gap library u gap_seed member_seed least greatest min_node
              (suc low)
              max_node
              (suc high))
            (Picks y)
    choose_gap-reaches y t s_y l l' =
        let from : low + of_bool on_min ≤ t =
          spots-behind rs least y low t on_min s.proper l at_min s_y in
        let to : t ≤ high = spots-le rs y greatest t high false on_max s.proper l' s_y at_max in
        let gap_seed = t - low - of_bool on_min in
        let a = (first_of t from to).tight y s_y l in
        let b = (last_of t from to).tight y s_y l' in
        let whole : gap_seed % choices ≡ gap_seed = mod-eq_of_lt (omega arith) in
        let member_seed = y - (first_of t from to).first in
        let same : member_seed % (1 + ((last_of t from to).last - (first_of t from to).first))
            ≡ member_seed =
          mod-eq_of_lt (omega arith) in
        let number : chosen_number t from to member_seed ≡ y = omega arith in
        (
          gap_seed,
          member_seed,
          subst
              (λ x.
                Returns
                  (choose_gap library u gap_seed member_seed least greatest min_node (suc low)
                    max_node (suc high))
                  (Picks x))
              number (choose_gap-at gap_seed member_seed t from to (omega arith)),
        )
