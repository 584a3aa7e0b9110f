-- ===== src/Ipam/Analysis.antt =====
-- What the IPAM controller decides about the locks of one NetworkAttachment: the second half of
-- analyzeAndRelease in staging/kos/pkg/controllers/ipam/ipam.go, from the owned IPLock objects on.
pub mod Considered
pub mod Decision
pub mod Sorting
pub mod Release
use kube_examples.Common.{
  ℕ, Bool, true, false, not, ◌&&◌, ◌||◌, Option, none, some, List, [], ◌∷◌, ◌++◌, ltb, ◌==◌,
  if◌then◌else◌, Go, ok, panic, ◌>>=◌,
}
use kube_examples.GoNet.{IPv4, NetIp, ip_in_four, ip_only_six}
use kube_examples.GoText.{Text, text_eq}
use kube_examples.Ipam.LockName.{ip_to_uint32, make_ip_lock_name2}
use kube_examples.Ipam.Locks.{
  IpLock, ParsedLock, zero_parsed_lock, new_parsed_lock, get_ip, best, rem_func, add_list_func,
}
use kube_examples.Ipam.Owners.{network_attachment, get_owner}

-- `NetworkAttachment`, the parts that the controller reads.
pub record Attachment : Type 0 where
  pub name : Text
  pub uid : Text
  pub resource_version : Text
  pub status_lock_uid : Text
  pub status_ipv4 : Text
  pub subnet : Text

-- `NetworkAttachmentData`.
pub record NetworkAttachmentData : Type 0 where
  pub anticipating_resource_version : Text
  pub anticipated_resource_version : Text
  pub anticipation_subnet_rv : Text
  pub anticipated_ipv4 : Option IPv4

-- The variables that `consider` writes.
pub record Seen : Type 0 where
  pub time_slippers : List ParsedLock
  pub undesired_locks : List ParsedLock
  pub usable_locks : List ParsedLock
  pub considered : List ℕ
  pub lock_in_status : ParsedLock

unfoldable pub nothing_seen : Seen
nothing_seen = record {
  time_slippers = [];
  undesired_locks = [];
  usable_locks = [];
  considered = [];
  lock_in_status = zero_parsed_lock;
}

abbrev pub is_some {ℓ} : {A : Type ℓ} → Option A → Bool
is_some none = false
is_some (some a) = true

unfoldable pub member : List ℕ → ℕ → Bool
member [] n = false
member (m ∷ ms) n = let rest = member ms n in if m == n then true else rest

-- The choice among the usable locks where the status names none.
unfoldable pub choose_best : List ParsedLock → ParsedLock × List ParsedLock
choose_best [] = (zero_parsed_lock, [])
choose_best (first ∷ others) =
    let lock_for_status = best (first ∷ others) in
    (lock_for_status, (rem_func (first ∷ others) lock_for_status).0)

-- `ip_string` and `parse_ip` are `IP.String` and `ParseIP` of package net.
module _ (ip_string : IPv4 → Text) (parse_ip : Text → Option NetIp) (att : Option Attachment)
    (desired_vni desired_base_u desired_last_u : ℕ) where
  -- The lock is of another edition of the attachment.
  unfoldable pub is_time_slipper : IpLock → Bool
  is_time_slipper ipl = elim att [
    | none ↦ false
    | some a ↦ not (text_eq (get_owner ipl network_attachment).1 a.uid)
  ]

  unfoldable pub is_undesired : ParsedLock → Bool
  is_undesired parsed =
      not (parsed.vni == desired_vni)
      || ltb parsed.addr_u desired_base_u
      || ltb desired_last_u parsed.addr_u

  unfoldable pub is_in_status : ParsedLock → Bool
  is_in_status parsed = elim att [
    | none ↦ false
    | some a ↦
        text_eq parsed.uid a.status_lock_uid
        && not (text_eq a.status_ipv4 [])
        && text_eq a.status_ipv4 (ip_string (get_ip parsed))
  ]

  -- The function `consider`, of a lock whose name parses.
  unfoldable pub consider_parsed : Seen → IpLock → ParsedLock → Seen
  consider_parsed seen ipl parsed =
      let considered = parsed.addr_u ∷ seen.considered in
      if is_time_slipper ipl
      then record seen {
        considered = considered;
        time_slippers = seen.time_slippers ++ parsed ∷ [];
      }
      else if is_undesired parsed
      then record seen {
        considered = considered;
        undesired_locks = seen.undesired_locks ++ parsed ∷ [];
      }
      else record seen {
        considered = considered;
        lock_in_status = if is_in_status parsed then parsed else seen.lock_in_status;
        usable_locks = seen.usable_locks ++ parsed ∷ [];
      }

  -- The function `consider`.
  unfoldable pub consider : Seen → IpLock → Seen
  consider seen ipl = elim (new_parsed_lock ipl) [
    | none ↦ seen
    | some parsed ↦ consider_parsed seen ipl parsed
  ]

  -- The loop over the owned objects.
  unfoldable pub consider_all : Seen → List IpLock → Seen
  consider_all seen [] = seen
  consider_all seen (ipl ∷ ipls) = consider_all (consider seen ipl) ipls

  -- The lock for the address in the status, fetched from the API server, if it is the attachment's.
  unfoldable pub consider_fetched : Seen → Attachment → Option IpLock → Seen
  consider_fetched seen a none = seen
  consider_fetched seen a (some ipl) =
      if text_eq (get_owner ipl network_attachment).0 a.name then consider seen ipl else seen

  -- The lock for an address is fetched unless it was considered. `make_ip_lock_name2` has the four
  -- bytes of the address.
  unfoldable pub consider_four : (Text → Option IpLock) → Seen → Attachment → IPv4 → ℕ → Seen
  consider_four get_lock seen a four status_ip_u =
      if member seen.considered status_ip_u
      then seen
      else consider_fetched seen a (get_lock (make_ip_lock_name2 desired_vni four))

  -- What is done for the address in the status, which panics in `IPv4ToUint32` on one without four
  -- bytes.
  unfoldable pub consider_status_ip :
      (Text → Option IpLock) → Seen → Attachment → Option NetIp → Go Seen
  consider_status_ip get_lock seen a none = ok seen
  consider_status_ip get_lock seen a (some (ip_in_four four)) = do
    status_ip_u ← ip_to_uint32 (ip_in_four four)
    ok (consider_four get_lock seen a four status_ip_u)
  consider_status_ip get_lock seen a (some ip_only_six) = do
    status_ip_u ← ip_to_uint32 ip_only_six
    ok seen

  -- The step that makes sure that the lock in the status is not skipped. `get_lock` is `Get` of the
  -- API server, none for an error.
  unfoldable pub consider_status : (Text → Option IpLock) → Seen → Go Seen
  consider_status get_lock seen = elim att [
    | none ↦ ok seen
    | some a ↦
        if text_eq a.status_ipv4 []
        then ok seen
        else consider_status_ip get_lock seen a (parse_ip a.status_ipv4)
  ]

  -- The anticipation, reset where it is out of date.
  unfoldable pub refresh_anticipation : Text → NetworkAttachmentData → NetworkAttachmentData
  refresh_anticipation subnet_rv nadat =
      if elim att [
        | none ↦ true
        | some a ↦
            (not (text_eq nadat.anticipating_resource_version a.resource_version)
              && not (text_eq nadat.anticipated_resource_version a.resource_version))
            || not (text_eq nadat.anticipation_subnet_rv subnet_rv)
      ]
      then record {
        anticipating_resource_version = [];
        anticipated_resource_version = [];
        anticipation_subnet_rv = [];
        anticipated_ipv4 = none;
      }
      else nadat

  -- `lockForStatus` and `usableToRelease`.
  unfoldable pub choose_lock : Seen → ParsedLock × List ParsedLock
  choose_lock seen =
      if not (is_some att)
      then (zero_parsed_lock, seen.usable_locks)
      else if is_some seen.lock_in_status.obj
      then (zero_parsed_lock, (rem_func seen.usable_locks seen.lock_in_status).0)
      else choose_best seen.usable_locks

  -- `locksToRelease`.
  unfoldable pub locks_to_release : Seen → List ParsedLock
  locks_to_release seen = (add_list_func seen.undesired_locks (choose_lock seen).1).0

-- What `Delete` of the API server answers.
pub data DeleteAnswer : Type 0 where
  deleted : DeleteAnswer
  not_found : DeleteAnswer
  gone : DeleteAnswer
  failed : DeleteAnswer

-- `deleteIPLockObject`: whether it returns an error.
unfoldable pub delete_ip_lock_object : (ParsedLock → DeleteAnswer) → ParsedLock → Bool
delete_ip_lock_object delete parsed = elim (delete parsed) [
  | deleted ↦ false
  | not_found ↦ false
  | gone ↦ false
  | failed ↦ true
]

-- The loop that releases: the locks that are off the API server now, and whether it met an error.
unfoldable pub release_all : (ParsedLock → DeleteAnswer) → List ParsedLock → List ParsedLock × Bool
release_all delete [] = ([], false)
release_all delete (lock ∷ locks) =
    let rest = release_all delete locks in
    if delete_ip_lock_object delete lock then ([], true) else (lock ∷ rest.0, rest.1)
