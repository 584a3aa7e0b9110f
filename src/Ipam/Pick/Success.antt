-- ===== src/Ipam/Pick/Success.antt =====
-- When pickAndLockAddress succeeds.
use kube_examples.Common.{
  ℕ, suc, ◌≤◌, ◌<◌, ◌≡◌, refl, arith, Bool, true, false, Option, some, ok, Returns, two_32, inl,
  inr,
}
use kube_examples.GoText.{Text}
use kube_examples.Uint32Set.Library.{SortedSetLibrary}
use kube_examples.Ipam.LockName.{uint32_to_ipv4}
use kube_examples.Ipam.Locks.{IpLock}
use kube_examples.Ipam.Cache.{AddrCache, pick_address}
use kube_examples.Ipam.Cache.Theorems.{InUse, with_used, Caches, Picked, pick_address-Picked}
use kube_examples.Ipam.Pick.{
  CreateAnswer, created, GetAnswer, PickResult, address_range, lock_draft, with_object, lock_round,
  lock_loop, conclude, conclude_loop, pick_and_lock_address,
}
use kube_examples.Ipam.Pick.Outcome.{address_range_within}

module _ (library : SortedSetLibrary) where
  -- An address that was free is locked by an object, and in use.
  abbrev pub LockedNew :
      InUse → Text → ℕ → ℕ → ℕ → IpLock → Option PickResult × AddrCache library → Type 0
  LockedNew f ns vni base last ipl r =
      (addr_u : ℕ) × (base ≤ addr_u)
      × (addr_u ≤ last)
      × (f vni addr_u ≡ false)
      × (r.0
          ≡ some (record {
            lock_for_status = with_object (lock_draft ns vni addr_u) ipl;
            ip_for_status = some (uint32_to_ipv4 addr_u);
            err = false;
          }))
      × Caches library r.1 (with_used f vni addr_u)

  pub pick_and_lock_address-LockedNew :
      (cache : AddrCache library) (f : InUse) (gap_seed member_seed : ℕ)
      (answers : ℕ → CreateAnswer × GetAnswer) (fuel : ℕ) (ns name uid : Text) (vni base last y : ℕ)
      (ipl : IpLock) (got : GetAnswer)
      → Caches library cache f
      → base ≤ last
      → last < two_32
      → (address_range base last).0 ≤ y
      → y ≤ (address_range base last).1
      → f vni y ≡ false
      → answers 0 ≡ (created ipl, got)
      → Returns
          (pick_and_lock_address library cache gap_seed member_seed answers
            (suc fuel)
            ns
            name
            uid
            vni
            base
            last)
          (LockedNew f ns vni base last ipl)
  unfolding pick_and_lock_address lock_loop lock_round conclude_loop conclude
  pick_and_lock_address-LockedNew cache f gap_seed member_seed answers fuel ns name uid vni base
        last y ipl got c h l low_y high_y free_y answer =
      let within = address_range_within base last h l in
      let picked =
        pick_address-Picked library cache f gap_seed member_seed vni (address_range base last).0
          (address_range base last).1 (omega (arith, within.1, l)) c in
      go picked.0 picked.1 picked.2 within
    where
      go :
          (r : (ℕ × Bool) × AddrCache library)
          → pick_address library cache gap_seed member_seed vni
              (address_range base last).0
              (address_range base last).1
            ≡ ok r
          → Picked library f vni (address_range base last).0 (address_range base last).1 r
          → (base ≤ (address_range base last).0) × ((address_range base last).1 ≤ last)
          → Returns
              (pick_and_lock_address library cache gap_seed member_seed answers
                (suc fuel)
                ns
                name
                uid
                vni
                base
                last)
              (LockedNew f ns vni base last ipl)
      go ((addr_u, found), left) code (inl (t, low, high, free, m)) within =
          rw (pick_and_lock_address, code, t, answer)
            (
              _,
              refl,
              (addr_u, omega (arith, within.0, low), omega (arith, within.1, high), free, refl, m),
            )
      go ((addr_u, found), left) code (inr (t, full, m)) within =
          let q : f vni y ≡ true = full y low_y high_y in ground (arith, q, free_y)
