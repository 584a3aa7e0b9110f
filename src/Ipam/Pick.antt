-- ===== src/Ipam/Pick.antt =====
-- Picking an address for a NetworkAttachment and locking it: pickAndLockAddress of
-- staging/kos/pkg/controllers/ipam/ipam.go. What the API server answers to each Create and Get of
-- the loop is a parameter, by the number of the round.
pub mod Rounds
pub mod Outcome
pub mod Success
use kube_examples.Common.{
  ℕ, zero, suc, ◌+◌, ◌-◌, ◌%◌, Bool, true, false, not, ◌&&◌, Option, none, some, List, [], ltb, leb,
  if◌then◌else◌, Go, ok, panic, ◌>>=◌, two_32,
}
use kube_examples.GoNet.{IPv4}
use kube_examples.GoText.{Text, text_eq}
use kube_examples.Uint32Set.Library.{SortedSetLibrary}
use kube_examples.Ipam.LockName.{uint32_to_ipv4, make_ip_lock_name2}
use kube_examples.Ipam.Locks.{IpLock, ParsedLock, zero_parsed_lock}
use kube_examples.Ipam.Owners.{network_attachment, get_owner}
use kube_examples.Ipam.Cache.{AddrCache, pick_address, release_address}

-- What `Create` answers: the object, that there is one already, an error that tells of something
-- invalid, or another error.
pub data CreateAnswer : Type 0 where
  created : IpLock → CreateAnswer
  already_exists : CreateAnswer
  invalid : CreateAnswer
  other_error : CreateAnswer

-- What `Get` answers.
pub data GetAnswer : Type 0 where
  fetched : IpLock → GetAnswer
  absent : GetAnswer
  get_error : GetAnswer

-- How the loop ends.
pub data LoopEnd : Type 0 where
  locked : IpLock → LoopEnd
  fetch_failed : LoopEnd
  collision : LoopEnd
  permanent_error : LoopEnd
  transient_error : LoopEnd

-- The lock that is there belongs to the attachment, or to another.
unfoldable pub recover : Text → Text → IpLock → LoopEnd
recover name uid ipl2 =
    let owner = get_owner ipl2 network_attachment in
    if text_eq owner.0 name && text_eq owner.1 uid then locked ipl2 else collision

-- One round of the loop, given what the rounds after it come to.
unfoldable pub lock_round : Text → Text → CreateAnswer × GetAnswer → Option LoopEnd → Option LoopEnd
lock_round name uid (created ipl, got) rest = some (locked ipl)
lock_round name uid (already_exists, fetched ipl2) rest = some (recover name uid ipl2)
lock_round name uid (already_exists, absent) rest = rest
lock_round name uid (already_exists, get_error) rest = some fetch_failed
lock_round name uid (invalid, got) rest = some permanent_error
lock_round name uid (other_error, got) rest = some transient_error

-- The loop, none where the fuel is spent.
unfoldable pub lock_loop : Text → Text → (ℕ → CreateAnswer × GetAnswer) → ℕ → ℕ → Option LoopEnd
lock_loop name uid answers zero round = none
lock_loop name uid answers (suc fuel) round =
    lock_round name uid (answers round) (lock_loop name uid answers fuel (suc round))

-- The results of `pickAndLockAddress`; `err` is whether the error is not nil.
pub record PickResult : Type 0 where
  pub lock_for_status : ParsedLock
  pub ip_for_status : Option IPv4
  pub err : Bool

-- The range within the bounds of the subnet: but for the smallest, a subnet has its first two
-- addresses and its last one reserved.
unfoldable pub address_range : ℕ → ℕ → ℕ × ℕ
address_range subnet_base_u subnet_last_u =
    if leb 4 ((subnet_last_u + two_32 - subnet_base_u) % two_32)
    then ((subnet_base_u + 2) % two_32, (subnet_last_u + two_32 - 1) % two_32)
    else (subnet_base_u, subnet_last_u)

-- The lock as it is before the API server knows of it.
unfoldable pub lock_draft : Text → ℕ → ℕ → ParsedLock
lock_draft ns vni addr_u = record {
  ns = ns;
  name = make_ip_lock_name2 vni (uint32_to_ipv4 addr_u);
  vni = vni;
  addr_u = addr_u;
  uid = [];
  creation_time = 0;
  obj = none;
}

unfoldable pub with_object : ParsedLock → IpLock → ParsedLock
with_object lock ipl2 = record lock {
  uid = ipl2.uid;
  creation_time = ipl2.creation_timestamp;
  obj = some ipl2;
}

-- The results without an object.
abbrev pub unlocked : Text → ℕ → ℕ → Bool → PickResult
unlocked ns vni addr_u err = record {
  lock_for_status = lock_draft ns vni addr_u;
  ip_for_status = some (uint32_to_ipv4 addr_u);
  err = err;
}

module _ (library : SortedSetLibrary) where
  -- What follows the loop, for the address picked.
  unfoldable pub conclude :
      Text → ℕ → ℕ → LoopEnd → AddrCache library → Go (PickResult × AddrCache library)
  conclude ns vni addr_u (locked ipl2) cache = ok (
    record {
      lock_for_status = with_object (lock_draft ns vni addr_u) ipl2;
      ip_for_status = some (uint32_to_ipv4 addr_u);
      err = false;
    },
    cache,
  )
  conclude ns vni addr_u fetch_failed cache = ok (unlocked ns vni addr_u true, cache)
  conclude ns vni addr_u collision cache = ok (unlocked ns vni addr_u true, cache)
  conclude ns vni addr_u permanent_error cache = do
    (release_ok, left) ← release_address library cache vni addr_u
    ok (unlocked ns vni addr_u false, left)
  conclude ns vni addr_u transient_error cache = do
    (release_ok, left) ← release_address library cache vni addr_u
    ok (unlocked ns vni addr_u true, left)

  unfoldable pub conclude_loop :
      Text → ℕ → ℕ → Option LoopEnd → AddrCache library → Go (Option PickResult × AddrCache library)
  conclude_loop ns vni addr_u none cache = ok (none, cache)
  conclude_loop ns vni addr_u (some loop_end) cache = do
    (result, left) ← conclude ns vni addr_u loop_end cache
    ok (some result, left)

  -- `pickAndLockAddress`, for an attachment with a name and a UID: no result where the fuel of the
  -- loop is spent.
  unfoldable pub pick_and_lock_address :
      AddrCache library
      → ℕ
      → ℕ
      → (ℕ → CreateAnswer × GetAnswer)
      → ℕ
      → Text
      → Text
      → Text
      → ℕ
      → ℕ
      → ℕ
      → Go (Option PickResult × AddrCache library)
  pick_and_lock_address cache gap_seed member_seed answers fuel ns name uid vni subnet_base_u
        subnet_last_u =
      let range = address_range subnet_base_u subnet_last_u in
      do
        ((addr_u, found), cache) ←
            pick_address library cache gap_seed member_seed vni range.0 range.1
        if not found
            then ok (
              some record { lock_for_status = zero_parsed_lock; ip_for_status = none; err = true },
              cache,
            )
            else conclude_loop ns vni addr_u (lock_loop name uid answers fuel 0) cache
