-- ===== src/Uint32Set/Choose/Gaps.antt =====
-- staging/kos/pkg/uint32set/sortedset.go: the gaps that `AddOneInRange` chooses from. A gap is
-- given by the number of runs below it.
use kube_examples.Common.{
  ℕ, suc, ◌+◌, ◌-◌, ◌≤◌, ◌<◌, ◌≡◌, refl, sym, ap, ◌∙◌, Bool, true, false, some, List, arith,
  get_elem?, two_32, Bool-cases, inl, inr, dec_lt, ℕ_discrete, ok,
}
use kube_examples.Uint32Set.Library.{SortedSetLibrary}
use kube_examples.Uint32Set.Runs.{Run, node_of, IsRuns}
use kube_examples.Uint32Set.Contents.{Holds}
use kube_examples.Uint32Set.Choose.{gap_first, gap_last}
use kube_examples.Uint32Set.Choose.Spots.{
  Spot, get_elem?-some, get_elem?-embed, at-proper, at-apart, at_mono, of_bool, Spot-last,
  Spot-first, Spot-first_le,
}

-- Positions grow with the numbers.
pub spots-le :
    (rs : List Run) (x y k t : ℕ) (a b : Bool)
    → IsRuns 0 rs
    → x ≤ y
    → Spot x rs k a
    → Spot y rs t b
    → k ≤ t
spots-le rs x y k t a b i l s s' = elim (dec_lt t k) [
  | no n ↦ omega arith
  | yes n ↦
      let (r, e) = get_elem?-some rs t (omega (arith, s.room)) in
      let lower = s.below t r e n in
      let proper = at-proper 0 rs t r i e in
      elim (Bool-cases b) [
        | inl on ↦ absurd (omega (arith, s'.here on r e))
        | inr off ↦ absurd (omega (arith, s'.after off r e))
      ]
]

-- A gap at or above a number on a run is behind that run.
pub spots-lt :
    (rs : List Run) (x y k t : ℕ)
    → IsRuns 0 rs
    → x ≤ y
    → Spot x rs k true
    → Spot y rs t false
    → k < t
spots-lt rs x y k t i l s s' =
    let le = spots-le rs x y k t true false i l s s' in
    elim (ℕ_discrete k t) [
      | no n ↦ omega arith
      | yes same ↦
          let (r, e) = get_elem?-some rs k (s.exists refl) in
          absurd
            (omega (arith, s.here refl r e, s'.after refl r (ap (get_elem? rs) (sym same) ∙ e)))
    ]

pub spots-behind :
    (rs : List Run) (x y k t : ℕ) (a : Bool)
    → IsRuns 0 rs
    → x ≤ y
    → Spot x rs k a
    → Spot y rs t false
    → k + of_bool a ≤ t
spots-behind rs x y k t true i l s s' = omega (arith, spots-lt rs x y k t i l s s')
spots-behind rs x y k t false i l s s' = omega (arith, spots-le rs x y k t false false i l s s')

-- A range whose ends are located: `low` and `high` runs end below its ends.
module _ (library : SortedSetLibrary) (ss : library.SortedSet) (rs : List Run)
    (held : Holds library ss rs) (proper : IsRuns 0 rs) where
  node_at_rank :
      (i : ℕ) (r : Run)
      → get_elem? rs i ≡ some r
      → library.get_by_rank ss (suc i) ≡ some (node_of r)
  node_at_rank i r e =
      library.get_by_rank-nodes ss i ∙ ap (λ ns. get_elem? ns i) held ∙ get_elem?-embed rs i r e

  module _ (least greatest low high : ℕ) (on_min on_max : Bool) (at_min : Spot least rs low on_min)
      (at_max : Spot greatest rs high on_max) (ordered : least ≤ greatest)
      (fits : greatest < two_32) (t : ℕ) (from : low + of_bool on_min ≤ t) (to : t ≤ high) where
    -- The first number of the gap behind `t` runs.
    pub record First : Type 0 where
      pub first : ℕ
      pub code : gap_first library ss least (suc low) (t - low) ≡ ok first
      pub min-le : least ≤ first
      pub le-max : first ≤ greatest
      pub prevs : (j : ℕ) (r : Run) → get_elem? rs j ≡ some r → j < t → r.last < first
      pub nexts : (r : Run) → get_elem? rs t ≡ some r → first < r.first
      pub tight : (y : ℕ) → Spot y rs t false → least ≤ y → first ≤ y

    first-at-min : low ≡ t → on_min ≡ false → First
    unfolding gap_first
    first-at-min e off = record {
      first = least;
      code = ground arith;
      min-le = omega arith;
      le-max = ordered;
      prevs = λ j r g l. at_min.below j r g (omega arith);
      nexts = λ r g. at_min.after off r (ap (get_elem? rs) e ∙ g);
      tight = λ y s l. l;
    }

    first-after_run : low < t → First
    unfolding gap_first
    first-after_run l =
        let (p, e) = get_elem?-some rs (t - 1) (omega (arith, at_max.room)) in
        let below = at_max.below (t - 1) p e (omega arith) in
        let (_, up, small) = at-proper 0 rs (t - 1) p proper e in
        let node : library.get_by_rank ss (suc low + (t - low) - 1) ≡ some (node_of p) =
          ap (library.get_by_rank ss) (omega arith) ∙ node_at_rank (t - 1) p e in
        record {
          first = p.last + 1;
          code = rw node (ground arith);
          min-le =
              omega (arith, Spot-last least rs proper low on_min at_min (t - 1) p e (omega arith));
          le-max = omega arith;
          prevs = λ j r g k. omega (arith, at_mono rs j (t - 1) r p proper g e (omega arith));
          nexts = λ r g. omega (arith, at-apart 0 rs (t - 1) t p r proper e g (omega arith));
          tight = λ y s m. omega (arith, s.below (t - 1) p e (omega arith));
        }

    pub first-exists : First
    first-exists = elim (dec_lt low t) [
      | yes l ↦ first-after_run l
      | no n ↦ first-at-min (omega arith) (off on_min (omega arith))
    ]
      where
        off : (b : Bool) → of_bool b ≡ 0 → b ≡ false
        off true e = absurd (omega arith)
        off false e = refl

    -- The number of gaps, as the code counts them.
    abbrev pub n_gaps : ℕ
    n_gaps = 1 + suc high - suc low + of_bool on_max

    -- The last number of the gap behind `t` runs.
    pub record Last : Type 0 where
      pub last : ℕ
      pub code : gap_last library ss greatest (suc low) (t - low) n_gaps ≡ ok last
      pub le-max : last ≤ greatest
      pub nexts : (j : ℕ) (r : Run) → get_elem? rs j ≡ some r → t ≤ j → last < r.first
      pub tight : (y : ℕ) → Spot y rs t false → y ≤ greatest → y ≤ last
      pub above :
          (y : ℕ) → y ≤ greatest → ((r : Run) → get_elem? rs t ≡ some r → y < r.first) → y ≤ last

    last-at-max : high + of_bool on_max ≤ t → Last
    unfolding gap_last
    last-at-max l = record {
      last = greatest;
      code = ground arith;
      le-max = omega arith;
      nexts = λ j r e k. Spot-first greatest rs proper high on_max at_max j r e (omega arith);
      tight = λ y s k. k;
      above = λ y k h. k;
    }

    next-exists : t < high + of_bool on_max → (q : Run) × (get_elem? rs t ≡ some q)
    next-exists l = elim (dec_lt t high) [
      | yes k ↦ get_elem?-some rs t (omega (arith, at_max.room))
      | no n ↦ elim (Bool-cases on_max) [
        | inl up ↦ get_elem?-some rs t (ground (arith, at_max.exists up))
        | inr off ↦ absurd (ground arith)
      ]
    ]

    last-before_run : t < high + of_bool on_max → Last
    unfolding gap_last
    last-before_run l =
        let (q, e) = next-exists l in
        let (_, up, small) = at-proper 0 rs t q proper e in
        let over = Spot-first least rs proper low on_min at_min t q e from in
        let under = Spot-first_le greatest rs proper high on_max at_max t q e l in
        let node : library.get_by_rank ss (suc low + (t - low)) ≡ some (node_of q) =
          ap (library.get_by_rank ss) (omega arith) ∙ node_at_rank t q e in
        record {
          last = q.first - 1;
          code = rw node (ground arith);
          le-max = omega arith;
          nexts = λ j r g k. omega (arith, at_mono rs t j q r proper e g k);
          tight = λ y s k. omega (arith, s.after refl q e);
          above = λ y k h. omega (arith, h q e);
        }

    pub last-exists : Last
    last-exists = elim (dec_lt t (high + of_bool on_max)) [
      | yes l ↦ last-before_run l
      | no n ↦ last-at-max (omega arith)
    ]

    -- Every number between them is in the gap.
    pub within-Spot : (a : First) (b : Last) (y : ℕ) → a.first ≤ y → y ≤ b.last → Spot y rs t false
    within-Spot a b y h k = record {
      below = λ j r e l. omega (arith, a.prevs j r e l);
      above = λ j r e l. omega (arith, b.nexts j r e (omega arith));
      after = λ _ r e. omega (arith, b.nexts t r e (omega arith));
      here = λ e. cc;
      room = omega (arith, at_max.room);
      exists = λ e. cc;
    }
