-- ===== src/Ipam/Pick/Outcome.antt =====
-- What pickAndLockAddress does to the cache of addresses, however the API server answers.
use kube_examples.Common.{
  ℕ, ◌≤◌, ◌<◌, ◌≡◌, ◌⊎◌, refl, ap, ◌∙◌, subst, inl, inr, Bool, true, false, ◌&&◌, Option, none,
  some, ◌==◌, if◌then◌else◌, Bool-cases, ok, Returns, two_32, arith,
}
use kube_examples.GoText.{Text}
use kube_examples.Uint32Set.Library.{SortedSetLibrary}
use kube_examples.Ipam.LockName.{uint32_to_ipv4}
use kube_examples.Ipam.Locks.{zero_parsed_lock}
use kube_examples.Ipam.Cache.{AddrCache, pick_address}
use kube_examples.Ipam.Cache.Theorems.{
  InUse, with_used, without, Caches, Caches-same, Picked, pick_address-Picked,
  release_address-Released,
}
use kube_examples.Ipam.Pick.{
  CreateAnswer, GetAnswer, LoopEnd, locked, fetch_failed, collision, permanent_error,
  transient_error, lock_round, lock_loop, PickResult, address_range, lock_draft, unlocked,
  with_object, conclude, conclude_loop, pick_and_lock_address,
}
use kube_examples.Ipam.Pick.Rounds.{
  again, IsLast, lock_loop_ends, gives_back, reports, object_of, lock_told, is_error, is_refused,
  end_or, Fits, round_Fits,
}

-- The bounds of the choice are within those of the subnet.
pub address_range_within :
    (base last : ℕ)
    → base ≤ last
    → last < two_32
    → (base ≤ (address_range base last).0) × ((address_range base last).1 ≤ last)
unfolding address_range
address_range_within base last h l = (ground arith, ground arith)

abbrev none_free : PickResult
none_free = record { lock_for_status = zero_parsed_lock; ip_for_status = none; err = true }

module _ (library : SortedSetLibrary) where
  -- The results for a picked address and an end of the loop.
  abbrev Concluded : InUse → ℕ → ℕ → LoopEnd → PickResult × AddrCache library → Type 0
  Concluded f vni addr_u e r =
      ((r.0).ip_for_status ≡ some (uint32_to_ipv4 addr_u))
      × ((r.0).lock_for_status.obj ≡ object_of e)
      × ((r.0).err ≡ reports e)
      × Caches library r.1 (if gives_back e then f else with_used f vni addr_u)

  back_out :
      (f : InUse) (vni addr_u : ℕ)
      → f vni addr_u ≡ false
      → (v y : ℕ) → without (with_used f vni addr_u) vni addr_u v y ≡ f v y
  back_out f vni addr_u free v y = elim (Bool-cases (v == vni && y == addr_u)) [
    | inl q ↦
        let one : v ≡ vni = ground arith in
        let two : y ≡ addr_u = ground arith in rw (one, two) (ground arith)
    | inr q ↦ ground arith
  ]

  conclude-Concluded :
      (f : InUse) (cache : AddrCache library) (ns : Text) (vni addr_u : ℕ) (e : LoopEnd)
      → addr_u < two_32
      → f vni addr_u ≡ false
      → Caches library cache (with_used f vni addr_u)
      → Returns (conclude library ns vni addr_u e cache) (Concluded f vni addr_u e)
  unfolding conclude with_object lock_draft
  conclude-Concluded f cache ns vni addr_u (locked ipl) small free c =
      (_, refl, (refl, refl, refl, c))
  conclude-Concluded f cache ns vni addr_u fetch_failed small free c =
      (_, refl, (refl, refl, refl, c))
  conclude-Concluded f cache ns vni addr_u collision small free c = (_, refl, (refl, refl, refl, c))
  conclude-Concluded f cache ns vni addr_u permanent_error small free c =
      let ((release_ok, left), e, (t, m)) =
        release_address-Released library cache (with_used f vni addr_u) vni addr_u small c in
      (
        (unlocked ns vni addr_u false, left),
        rw e refl,
        (refl, refl, refl, Caches-same library left _ f (back_out f vni addr_u free) m),
      )
  conclude-Concluded f cache ns vni addr_u transient_error small free c =
      let ((release_ok, left), e, (t, m)) =
        release_address-Released library cache (with_used f vni addr_u) vni addr_u small c in
      (
        (unlocked ns vni addr_u true, left),
        rw e refl,
        (refl, refl, refl, Caches-same library left _ f (back_out f vni addr_u free) m),
      )

  -- The results for a picked address and the answers of the last round.
  abbrev pub Answered :
      InUse
      → ℕ
      → ℕ
      → Text
      → Text
      → CreateAnswer × GetAnswer
      → PickResult × AddrCache library
      → Type 0
  Answered f vni addr_u name uid a r =
      ((r.0).ip_for_status ≡ some (uint32_to_ipv4 addr_u))
      × ((r.0).lock_for_status.obj ≡ lock_told name uid a)
      × ((r.0).err ≡ is_error name uid a)
      × Caches library r.1 (if is_refused a then f else with_used f vni addr_u)

  conclude_Answered :
      (f : InUse) (vni addr_u : ℕ) (name uid : Text) (a : CreateAnswer × GetAnswer) (e : LoopEnd)
      (r : PickResult × AddrCache library)
      → again a ≡ false
      → lock_round name uid a none ≡ some e
      → Concluded f vni addr_u e r
      → Answered f vni addr_u name uid a r
  conclude_Answered f vni addr_u name uid a e r stop means (ipq, objq, errq, c) =
      let (obj, err, back) =
        subst (Fits name uid a) (ap end_or means) (round_Fits name uid a stop) in
      (
        ipq,
        objq ∙ obj,
        errq ∙ err,
        subst (λ b. Caches library r.1 (if b then f else with_used f vni addr_u)) back c,
      )

  -- What became of the range and the cache: no address was free, or a free one was picked and the
  -- answers of the last round say what it comes to.
  abbrev pub Settled :
      InUse
      → ℕ
      → ℕ
      → ℕ
      → Text
      → Text
      → (ℕ → CreateAnswer × GetAnswer)
      → PickResult × AddrCache library
      → Type 0
  Settled f vni base last name uid answers r =
      (((r.0).err ≡ true)
        × ((r.0).ip_for_status ≡ none)
        × ((y : ℕ)
            → (address_range base last).0 ≤ y
            → y ≤ (address_range base last).1
            → f vni y ≡ true)
        × Caches library r.1 f)
      ⊎ ((addr_u : ℕ) × (m : ℕ) × (base ≤ addr_u)
          × (addr_u ≤ last)
          × (f vni addr_u ≡ false)
          × IsLast answers 0 m
          × Answered f vni addr_u name uid (answers m) r)

  settle :
      (f : InUse) (cache : AddrCache library) (ns : Text) (vni base last addr_u : ℕ)
      (name uid : Text) (answers : ℕ → CreateAnswer × GetAnswer) (m : ℕ) (o : Option LoopEnd)
      (e : LoopEnd)
      → o ≡ some e
      → IsLast answers 0 m
      → lock_round name uid (answers m) none ≡ some e
      → base ≤ addr_u
      → addr_u ≤ last
      → last < two_32
      → f vni addr_u ≡ false
      → Caches library cache (with_used f vni addr_u)
      → Returns (conclude_loop library ns vni addr_u o cache) (λ r.
        (result : PickResult) × (r.0 ≡ some result)
        × Settled f vni base last name uid answers (result, r.1))
  unfolding conclude_loop
  settle f cache ns vni base last addr_u name uid answers m o e code is_last means low high small
        free c =
      let ((result, left), done, concluded) =
        conclude-Concluded f cache ns vni addr_u e (omega arith) free c in
      let answered =
        conclude_Answered f vni addr_u name uid (answers m) e (result, left) is_last.1 means
          concluded in
      (
        (some result, left),
        rw (code, conclude_loop, done) refl,
        (result, refl, inr (addr_u, m, low, high, free, is_last, answered)),
      )

  -- `pickAndLockAddress` in a valid cache, for a subnet of 32-bit addresses, once the API server
  -- has an answer that does not send the loop round again and the fuel reaches to that round, does
  -- not panic and comes to a result. Either it is an error, no address is set, every address of the
  -- narrowed range is in use and the addresses in use stay. Or an address of the subnet that was
  -- free is set, and the answers of the first round that does not send the loop round again say the
  -- rest. If Create refused, as invalid or with another error than that there is a lock already, the
  -- addresses in use are those of before, and otherwise the address is in use now. The result has the
  -- lock that was created, or that Get gave and the attachment owns, and else none. It is an error
  -- that the lock is another's, that Get failed, or that Create refused for another reason than that
  -- the lock is invalid.
  pub pick_and_lock_address-Settled :
      (cache : AddrCache library) (f : InUse) (gap_seed member_seed : ℕ)
      (answers : ℕ → CreateAnswer × GetAnswer) (fuel n : ℕ) (ns name uid : Text) (vni base last : ℕ)
      → Caches library cache f
      → base ≤ last
      → last < two_32
      → again (answers n) ≡ false
      → n < fuel
      → Returns
          (pick_and_lock_address library cache gap_seed member_seed answers fuel ns name uid vni
            base last)
          (λ r.
            (result : PickResult) × (r.0 ≡ some result)
            × Settled f vni base last name uid answers (result, r.1))
  unfolding pick_and_lock_address
  pick_and_lock_address-Settled cache f gap_seed member_seed answers fuel n ns name uid vni base
        last c h l stop enough =
      let within = address_range_within base last h l in
      let picked =
        pick_address-Picked library cache f gap_seed member_seed vni (address_range base last).0
          (address_range base last).1 (omega (arith, within.1, l)) c in
      go picked.0 picked.1 picked.2 within
    where
      go :
          (r : (ℕ × Bool) × AddrCache library)
          → (pick_address library cache gap_seed member_seed vni
                (address_range base last).0
                (address_range base last).1
              ≡ ok r)
          → Picked library f vni (address_range base last).0 (address_range base last).1 r
          → (base ≤ (address_range base last).0) × ((address_range base last).1 ≤ last)
          → Returns
              (pick_and_lock_address library cache gap_seed member_seed answers fuel ns name uid vni
                base last)
              (λ r.
                (result : PickResult) × (r.0 ≡ some result)
                × Settled f vni base last name uid answers (result, r.1))
      go ((addr_u, found), left) code (inl (t, low, high, free, m)) within =
          let (round, is_last, (e, done, means)) =
            lock_loop_ends name uid answers fuel 0 n
              (subst (λ k. again (answers k) ≡ false) (omega arith) stop) enough in
          rw (pick_and_lock_address, code, t)
            (settle f left ns vni base last addr_u name uid answers round
              (lock_loop name uid answers fuel 0) e done is_last means
              (omega (arith, within.0, low)) (omega (arith, within.1, high)) l free m)
      go ((addr_u, found), left) code (inr (t, full, m)) within =
          rw (pick_and_lock_address, code, t)
            ((some none_free, left), refl, (none_free, refl, inl (refl, refl, full, m)))
