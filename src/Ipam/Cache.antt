-- ===== src/Ipam/Cache.antt =====
-- The cache of addresses in use, `addrCache` of IPAMController in
-- staging/kos/pkg/controllers/ipam/ipam.go: one SortedUInt32Set for each VNI, with TakeAddress,
-- PickAddress and ReleaseAddress. The mutex makes each of them one step.
pub mod Theorems
use kube_examples.Common.{
  ℕ, Bool, true, false, Option, none, some, List, [], ◌∷◌, ◌==◌, if◌then◌else◌, Go, ok, panic,
  ◌>>=◌, ◌>>◌,
}
use kube_examples.Uint32Set.Library.{SortedSetLibrary}
use kube_examples.Uint32Set.Sorted.{SortedUint32Set, new_sorted_uint32_set, add, remove, is_empty}
use kube_examples.Uint32Set.Choose.{add_one_in_range}

module _ (library : SortedSetLibrary) where
  -- The Go map `addrCache`.
  abbrev pub AddrCache : Type 0
  AddrCache = ℕ → Option (SortedUint32Set library)

  -- `addrCache[vni] = addrs`, and `delete(addrCache, vni)` for none.
  unfoldable pub put : AddrCache → ℕ → Option (SortedUint32Set library) → AddrCache
  put cache vni addrs = λ v. if v == vni then addrs else cache v

  -- `addrCache[vni]`, or a new set that checks itself lightly.
  unfoldable pub get_or_new : AddrCache → ℕ → SortedUint32Set library
  get_or_new cache vni = elim (cache vni) [
    | none ↦ new_sorted_uint32_set library 1
    | some addrs ↦ addrs
  ]

  -- `TakeAddress`.
  unfoldable pub take_address : AddrCache → ℕ → ℕ → Go (Bool × AddrCache)
  take_address cache vni addr_u = do
    (changed, addrs) ← add library (get_or_new cache vni) addr_u
    ok (changed, put cache vni (some addrs))

  -- `PickAddress`, with the random numbers that `AddOneInRange` draws.
  unfoldable pub pick_address : AddrCache → ℕ → ℕ → ℕ → ℕ → ℕ → Go ((ℕ × Bool) × AddrCache)
  pick_address cache gap_seed member_seed vni min max = do
    (ans, addrs) ← add_one_in_range library (get_or_new cache vni) gap_seed member_seed min max
    ok (ans, put cache vni (some addrs))

  -- `ReleaseAddress`, where the VNI has a set.
  unfoldable pub release_from : AddrCache → ℕ → ℕ → SortedUint32Set library → Go (Bool × AddrCache)
  release_from cache vni addr_u addrs = do
    (changed, left) ← remove library addrs addr_u
    ok (changed, put cache vni (if is_empty library left then none else some left))

  -- `ReleaseAddress`.
  unfoldable pub release_address : AddrCache → ℕ → ℕ → Go (Bool × AddrCache)
  release_address cache vni addr_u = elim (cache vni) [
    | none ↦ ok (false, cache)
    | some addrs ↦ release_from cache vni addr_u addrs
  ]
