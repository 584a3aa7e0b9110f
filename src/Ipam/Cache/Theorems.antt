-- ===== src/Ipam/Cache/Theorems.antt =====
-- The cache of addresses as a set of pairs of a VNI and an address.
use kube_examples.Common.{
  ℕ, Bool, true, false, not, ◌&&◌, ◌||◌, Option, none, some, ◌==◌, if◌then◌else◌, Returns, ◌≡◌, ◌≤◌,
  ◌<◌, ◌⊎◌, inl, inr, refl, sym, ◌∙◌, two_32, arith, Bool-cases, Option-cases, subst,
}
use kube_examples.Uint32Set.Library.{SortedSetLibrary}
use kube_examples.Uint32Set.Sorted.{SortedUint32Set, new_sorted_uint32_set, is_empty}
use kube_examples.Uint32Set.Sorted.Models.{Models, new-Models, is_empty-Models}
use kube_examples.Uint32Set.Sorted.Add.{add-Models}
use kube_examples.Uint32Set.Sorted.Remove.{remove-Models}
use kube_examples.Uint32Set.Choose.Range.{Outcome, add_one_in_range-Outcome}
use kube_examples.Ipam.Cache.{
  AddrCache, put, get_or_new, take_address, pick_address, release_from, release_address,
}

-- The pairs of a VNI and an address that are in use.
abbrev pub InUse : Type 0
InUse = ℕ → ℕ → Bool

abbrev pub with_used : InUse → ℕ → ℕ → InUse
with_used f vni addr_u = λ v y. f v y || (v == vni && y == addr_u)

abbrev pub without : InUse → ℕ → ℕ → InUse
without f vni addr_u = λ v y. f v y && not (v == vni && y == addr_u)

module _ (library : SortedSetLibrary) where
  -- A set of the cache, or none, that holds the numbers of `g`.
  abbrev pub SetOf : Option (SortedUint32Set library) → (ℕ → Bool) → Type 0
  SetOf none g = (y : ℕ) → g y ≡ false
  SetOf (some addrs) g = Models library addrs g

  -- The cache is valid and holds the pairs of `f`.
  abbrev pub Caches : AddrCache library → InUse → Type 0
  Caches cache f = (v : ℕ) → SetOf (cache v) (f v)

  Models-same :
      (u : SortedUint32Set library) (f g : ℕ → Bool)
      → ((y : ℕ) → f y ≡ g y)
      → Models library u f
      → Models library u g
  Models-same u f g e (rs, s) =
      (rs, record { held = s.held; proper = s.proper; members = λ y. s.members y ∙ e y })

  SetOf-same :
      (o : Option (SortedUint32Set library)) (f g : ℕ → Bool)
      → ((y : ℕ) → f y ≡ g y)
      → SetOf o f
      → SetOf o g
  SetOf-same none f g e h = λ y. sym (e y) ∙ h y
  SetOf-same (some u) f g e h = Models-same u f g e h

  pub Caches-same :
      (cache : AddrCache library) (f g : InUse)
      → ((v y : ℕ) → f v y ≡ g v y)
      → Caches cache f
      → Caches cache g
  Caches-same cache f g e c v = SetOf-same (cache v) (f v) (g v) (e v) (c v)

  put-Caches :
      (cache : AddrCache library) (f g : InUse) (vni : ℕ) (o : Option (SortedUint32Set library))
      → Caches cache f
      → SetOf o (g vni)
      → ((v y : ℕ) → (v == vni) ≡ false → f v y ≡ g v y)
      → Caches (put library cache vni o) g
  unfolding put
  put-Caches cache f g vni o c s e v = elim (Bool-cases (v == vni)) [
    | inl q ↦ let same : v ≡ vni = ground arith in rw (q, same) s
    | inr q ↦ rw q (SetOf-same (cache v) (f v) (g v) (λ y. e v y q) (c v))
  ]

  get_or_new-Models :
      (cache : AddrCache library) (f : InUse) (vni : ℕ)
      → Caches cache f
      → Models library (get_or_new library cache vni) (f vni)
  unfolding get_or_new
  get_or_new-Models cache f vni c = go (cache vni) (c vni)
    where
      go :
          (o : Option (SortedUint32Set library))
          → SetOf o (f vni)
          → Models library
              (elim o [ none ↦ new_sorted_uint32_set library 1 | some addrs ↦ addrs ])
              (f vni)
      go none h = new-Models library 1 (f vni) h
      go (some u) h = h

  abbrev pub Taken : InUse → ℕ → ℕ → Bool × AddrCache library → Type 0
  Taken f vni addr_u r = (r.0 ≡ not (f vni addr_u)) × Caches r.1 (with_used f vni addr_u)

  -- `TakeAddress` of a 32-bit address in a valid cache does not panic: it says whether the address
  -- was free, and leaves a valid cache with that address in use besides those of before.
  pub take_address-Taken :
      (cache : AddrCache library) (f : InUse) (vni addr_u : ℕ)
      → addr_u < two_32
      → Caches cache f
      → Returns (take_address library cache vni addr_u) (Taken f vni addr_u)
  unfolding take_address
  take_address-Taken cache f vni addr_u small c =
      let ((changed, addrs), e, (t, m)) =
        add-Models library (get_or_new library cache vni) (f vni) addr_u small
          (get_or_new-Models cache f vni c) in
      (
        (changed, put library cache vni (some addrs)),
        rw e refl,
        (
          t,
          put-Caches cache f (with_used f vni addr_u) vni (some addrs) c
              (Models-same addrs _ _ (λ y. ground arith) m) (λ v y q. ground arith),
        ),
      )

  -- An address of the range is taken, or there is none and nothing changed.
  abbrev pub Picked : InUse → ℕ → ℕ → ℕ → (ℕ × Bool) × AddrCache library → Type 0
  Picked f vni min max r =
      (((r.0).1 ≡ true)
        × (min ≤ (r.0).0)
        × ((r.0).0 ≤ max)
        × (f vni (r.0).0 ≡ false)
        × Caches r.1 (with_used f vni (r.0).0))
      ⊎ (((r.0).1 ≡ false) × ((y : ℕ) → min ≤ y → y ≤ max → f vni y ≡ true) × Caches r.1 f)

  -- `PickAddress` in a valid cache, for a range that ends at a 32-bit number and any random numbers,
  -- does not panic: it takes a free address of the range into use and returns it with true, or it
  -- returns false, every address of the range is in use and the addresses in use stay.
  pub pick_address-Picked :
      (cache : AddrCache library) (f : InUse) (gap_seed member_seed vni min max : ℕ)
      → max < two_32
      → Caches cache f
      → Returns (pick_address library cache gap_seed member_seed vni min max) (Picked f vni min max)
  unfolding pick_address
  pick_address-Picked cache f gap_seed member_seed vni min max small c =
      let ((ans, addrs), e, o) =
        add_one_in_range-Outcome library (get_or_new library cache vni) (f vni) min max small
          gap_seed member_seed (get_or_new-Models cache f vni c) in
      ((ans, put library cache vni (some addrs)), rw e refl, outcome ans addrs o)
    where
      outcome :
          (ans : ℕ × Bool) (addrs : SortedUint32Set library)
          → Outcome library (get_or_new library cache vni) (f vni) min max small (ans, addrs)
          → Picked f vni min max (ans, put library cache vni (some addrs))
      outcome ans addrs (inl (t, l, l', free, m)) = inl (
        t,
        l,
        l',
        free,
        put-Caches cache f (with_used f vni ans.0) vni (some addrs) c
            (Models-same addrs _ _ (λ y. ground arith) m) (λ v y q. ground arith),
      )
      outcome ans addrs (inr (t, full, m)) =
          inr (t, full, put-Caches cache f f vni (some addrs) c m (λ v y q. refl))

  kept_set :
      (left : SortedUint32Set library) (g : ℕ → Bool)
      → Models library left g
      → SetOf (if is_empty library left then none else some left) g
  kept_set left g m = elim (Bool-cases (is_empty library left)) [
    | inl e ↦ rw e (is_empty-Models library left g m e)
    | inr e ↦ rw e m
  ]

  abbrev pub Released : InUse → ℕ → ℕ → Bool × AddrCache library → Type 0
  Released f vni addr_u r = (r.0 ≡ f vni addr_u) × Caches r.1 (without f vni addr_u)

  release_from-Released :
      (cache : AddrCache library) (f : InUse) (vni addr_u : ℕ) (addrs : SortedUint32Set library)
      → addr_u < two_32
      → Caches cache f
      → Models library addrs (f vni)
      → Returns (release_from library cache vni addr_u addrs) (Released f vni addr_u)
  unfolding release_from
  release_from-Released cache f vni addr_u addrs small c h =
      let ((changed, left), e, (t, m)) = remove-Models library addrs (f vni) addr_u small h in
      (
        (changed, put library cache vni (if is_empty library left then none else some left)),
        rw e refl,
        (
          t,
          put-Caches cache f (without f vni addr_u) vni _ c
              (kept_set left _ (Models-same left _ _ (λ y. ground arith) m))
              (λ v y q. ground arith),
        ),
      )

  -- `ReleaseAddress` of a 32-bit address in a valid cache does not panic: it says whether the
  -- address was in use, and leaves a valid cache with the other addresses in use.
  pub release_address-Released :
      (cache : AddrCache library) (f : InUse) (vni addr_u : ℕ)
      → addr_u < two_32
      → Caches cache f
      → Returns (release_address library cache vni addr_u) (Released f vni addr_u)
  unfolding release_address
  release_address-Released cache f vni addr_u small c = elim (Option-cases (cache vni)) [
    | inl e ↦
        let unused : (y : ℕ) → f vni y ≡ false = subst (λ o. SetOf o (f vni)) e (c vni) in
        (
          (false, cache),
          rw (release_address, e) refl,
          (sym (unused addr_u), λ v. SetOf-same (cache v) (f v) _ (unchanged v unused) (c v)),
        )
    | inr (addrs, e) ↦
        rw (release_address, e)
          (release_from-Released cache f vni addr_u addrs small c
            (subst (λ o. SetOf o (f vni)) e (c vni)))
  ]
    where
      unchanged : (v : ℕ) → ((y : ℕ) → f vni y ≡ false) → (y : ℕ) → f v y ≡ without f vni addr_u v y
      unchanged v unused y = elim (Bool-cases (v == vni)) [
        | inl q ↦ let one : v ≡ vni = ground arith in rw one (ground (arith, unused y))
        | inr q ↦ ground arith
      ]
