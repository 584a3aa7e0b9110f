-- ===== src/Uint32Set/Contract.antt =====
-- staging/kos/pkg/uint32set/types.go: the interfaces UInt32Set, UInt32SetChooser and
-- UInt32SetChecker, between SortedUInt32Set and HashUInt32Set. The two implementations of one set
-- are interchangeable, and the checker accepts whatever the chooser does.
use kube_examples.Common.{
  ℕ, ◌≤◌, ◌<◌, ◌≡◌, refl, sym, ap, ◌∙◌, Bool, true, false, ◌||◌, some, arith, ltb, ◌==◌, Bool-cases,
  inl, inr, two_32, Returns,
}
use kube_examples.Uint32Set.Library.{SortedSetLibrary}
use kube_examples.Uint32Set.Ascending.{Lists-unique}
use kube_examples.Uint32Set.Sorted.{SortedUint32Set}
use kube_examples.Uint32Set.Sorted.Models
use kube_examples.Uint32Set.Choose.{add_one_in_range}
use kube_examples.Uint32Set.Choose.Range.{Outcome, add_one_in_range-Outcome}
use kube_examples.Uint32Set.Export
use kube_examples.Uint32Set.Export.Theorems as SortedExport
use kube_examples.Uint32Set.Hash
use kube_examples.Uint32Set.Hash.{HashUint32Set, could_add_in_range, has}
use kube_examples.Uint32Set.Hash.Theorems as HashLaws

module _ (library : SortedSetLibrary) (u : SortedUint32Set library) (h : HashUint32Set)
    (f : ℕ → Bool) (sorted : Models.Models library u f) (hashed : HashLaws.Represents h f) where
  -- Both implementations export the same slice.
  pub export-export : Export.export library u ≡ Hash.export h
  export-export =
      let (xs, e, a) = SortedExport.export-Lists library u f sorted in
      let (ys, e', b) = HashLaws.export-Lists h f hashed in
      e ∙ ap some (Lists-unique f xs ys a b) ∙ sym e'

  -- The two sets still agree.
  abbrev pub Agree : SortedUint32Set library × HashUint32Set → Type 0
  Agree (u', h') = (g : ℕ → Bool) × Models.Models library u' g × HashLaws.Represents h' g

  could-added :
      (least greatest x : ℕ)
      → greatest < two_32
      → least ≤ x
      → x ≤ greatest
      → f x ≡ false
      → could_add_in_range h least greatest x true ≡ (true, (Hash.add h x).1)
  unfolding could_add_in_range
  could-added least greatest x fits l l' free =
      let inside : (ltb x least || ltb greatest x) ≡ false = ground arith in
      let absent : has h x ≡ false = HashLaws.has_lem h f hashed x ∙ free in rw (inside, absent)

  could-refused :
      (least greatest x : ℕ)
      → ((y : ℕ) → least ≤ y → y ≤ greatest → f y ≡ true)
      → could_add_in_range h least greatest x false ≡ (true, h)
  unfolding could_add_in_range
  could-refused least greatest x full = elim (Bool-cases (ltb x least || ltb greatest x)) [
    | inl outside ↦ rw outside
    | inr inside ↦
        let present : has h x ≡ true =
          HashLaws.has_lem h f hashed x ∙ full x (ground arith) (ground arith) in
        rw (inside, present)
  ]

  module _ (least greatest : ℕ) (fits : greatest < two_32) where
    could-Outcome :
        (r : (ℕ × Bool) × SortedUint32Set library)
        → Outcome library u f least greatest fits r
        → ((could_add_in_range h least greatest (r.0).0 (r.0).1).0 ≡ true)
          × Agree (r.1, (could_add_in_range h least greatest (r.0).0 (r.0).1).1)
    could-Outcome r (inl (flag, l, l', free, models)) =
        let x = (r.0).0 in
        rw (flag, could-added least greatest x fits l l' free)
          (
            refl,
            ((λ y. f y || y == x), models, (HashLaws.add-Represents h f hashed x (omega arith)).1),
          )
    could-Outcome r (inr (flag, full, models)) =
        rw (flag, could-refused least greatest (r.0).0 full) (refl, (f, models, hashed))

    -- `CouldAddInRange` accepts whatever `AddOneInRange` returns on the same set, and afterwards the
    -- two still represent one set.
    pub add_one_in_range-could_add_in_range :
        (gap_seed member_seed : ℕ)
        → Returns (add_one_in_range library u gap_seed member_seed least greatest) λ r.
          ((could_add_in_range h least greatest (r.0).0 (r.0).1).0 ≡ true)
          × Agree (r.1, (could_add_in_range h least greatest (r.0).0 (r.0).1).1)
    add_one_in_range-could_add_in_range gap_seed member_seed =
        let (r, ran, outcome) =
          add_one_in_range-Outcome library u f least greatest fits gap_seed member_seed sorted in
        (r, ran, could-Outcome r outcome)
