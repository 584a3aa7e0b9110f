-- ===== src/Ipam/Processing/Assigning.antt =====
-- A new attachment gets an address.
use kube_examples.Common.{
  ℕ, suc, ◌≡◌, ◌≤◌, ◌<◌, refl, ap, Bool, true, false, Option, none, some, [], two_32, if◌then◌else◌,
  ok,
}
use kube_examples.GoNet.{IPv4, NetIp, NetBlock}
use kube_examples.GoText.{Text}
use kube_examples.Uint32Set.Library.{SortedSetLibrary}
use kube_examples.Ipam.LockName.{uint32_to_ipv4}
use kube_examples.Ipam.Locks.{IpLock, zero_parsed_lock, add_list_func, add_list_from}
use kube_examples.Ipam.Cache.Theorems.{InUse, Caches, with_used}
use kube_examples.Ipam.Analysis.{
  Attachment, NetworkAttachmentData, nothing_seen, consider_all, consider_status, choose_lock,
  choose_best, locks_to_release, release_all, refresh_anticipation,
}
use kube_examples.Ipam.AttachmentData.{zero_data, add_data, put_data, get_network_attachment_data}
use kube_examples.Ipam.Pick.{created, GetAnswer, address_range, lock_draft, with_object}
use kube_examples.Ipam.Pick.Success.{pick_and_lock_address-LockedNew}
use kube_examples.Ipam.Placing.{
  found, placed, find_place, seen_locks, decide, refresh, analyze_owned, analyze_at,
  analyze_and_release,
}
use kube_examples.Ipam.Processing.{
  StatusUpdate, updated, anticipate, World, IpamState, Processed, write_data, ip_text, status_of,
  remember, after_update, update_na_status, after_pick, pick_and_update, choose_by_data,
  choose_address, process_present, process_analyzed, analysis_of, process_attachment,
  process_network_attachment,
}
use kube_examples.Ipam.Processing.Waiting.{lockless, nothing_to_see}

if_same : (b : Bool) (d : NetworkAttachmentData) → (if b then d else d) ≡ d
if_same true d = refl
if_same false d = refl

module _ (library : SortedSetLibrary) (ip_string : IPv4 → Text) (parse_ip : Text → Option NetIp)
    (parse_cidr : Text → Option NetBlock) where
  abbrev State : Type 0
  State = IpamState library ip_string parse_ip parse_cidr

  abbrev Result : Type 0
  Result = Processed library ip_string parse_ip parse_cidr

  -- The status with an address and the lock that supports it.
  abbrev pub address_status : ℕ → ℕ → IpLock → StatusUpdate
  address_status vni addr_u ipl = record {
    errors = [];
    lock_uid = ipl.uid;
    address_vni = vni;
    ipv4 = ip_string (uint32_to_ipv4 addr_u);
  }

  -- A status was written with an address of the range that was free and is in use now.
  abbrev pub Assigned : InUse → ℕ → ℕ → ℕ → IpLock → Result → Type 0
  Assigned f vni base last ipl p =
      (p.err ≡ false)
      × ((addr_u : ℕ) × (base ≤ addr_u)
          × (addr_u ≤ last)
          × (f vni addr_u ≡ false)
          × (p.written ≡ some (address_status vni addr_u ipl))
          × Caches library p.state.addr_cache (with_used f vni addr_u))

  module _ (w : World) (fuel : ℕ) (ns name : Text) (no_locks : w.owned ≡ some []) (a : Attachment)
      (no_status : a.status_ipv4 ≡ []) where
    refresh-zero_data :
        (rv : Text)
        → refresh ip_string parse_ip w.owned w.get_lock w.delete (some a) rv (some zero_data)
          ≡ some zero_data
    unfolding refresh refresh_anticipation zero_data
    refresh-zero_data rv = ap some (if_same _ zero_data)

    analysis-new :
        (rv : Text) (vni base last : ℕ)
        → find_place parse_cidr w.subnets (some a) ≡ ok (placed rv vni base last)
        → analysis_of library ip_string parse_ip parse_cidr w
            (suc fuel)
            ns
            name
            (some a)
            (some zero_data)
          ≡ ok (lockless library ip_string parse_ip parse_cidr rv vni base last zero_data)
    unfolding analysis_of analyze_and_release analyze_at analyze_owned decide seen_locks
        consider_all consider_status nothing_seen choose_lock choose_best locks_to_release
        release_all add_list_func add_list_from zero_parsed_lock refresh zero_data
    analysis-new rv vni base last at =
        rw
          (
            analysis_of,
            at,
            no_locks,
            nothing_to_see library ip_string parse_ip parse_cidr w (suc fuel) ns name no_locks a
                no_status vni base last,
            refresh-zero_data rv,
          )
          refl

    get-new :
        (s : State)
        → s.atts ns name ≡ none
        → get_network_attachment_data s.atts ns name true
          ≡ (some zero_data, put_data s.atts ns name (some zero_data))
    unfolding get_network_attachment_data add_data
    get-new s h = rw (get_network_attachment_data, h) refl

    -- processNetworkAttachment of an attachment without an address in its status, of which nothing is
    -- remembered and no lock is known, in a valid cache, if its subnet exists and has bounds of 32
    -- bits, an address in the range that is handed out (without the first two addresses and the last
    -- one of a block of five addresses or more) is free, Create makes the lock at once and every
    -- Update is accepted: there is no error, and a status is written with an address within the
    -- bounds of the subnet that was free and now is in use, with its VNI and the UID of the lock.
    pub process_network_attachment-Assigned :
        (f : InUse) (s : State) (rv : Text) (vni base last y : ℕ) (ipl : IpLock) (got : GetAnswer)
        → Caches library s.addr_cache f
        → s.atts ns name ≡ none
        → find_place parse_cidr w.subnets (some a) ≡ ok (placed rv vni base last)
        → base ≤ last
        → last < two_32
        → (address_range base last).0 ≤ y
        → y ≤ (address_range base last).1
        → f vni y ≡ false
        → w.answers 0 ≡ (created ipl, got)
        → ((st : StatusUpdate) → (new_rv : Text) × (w.update st ≡ updated new_rv))
        → (p : Result) × (process_network_attachment library ip_string parse_ip parse_cidr w
              (suc fuel)
              ns
              name
              s
              (found a)
            ≡ ok (some p))
          × Assigned f vni base last ipl p
    unfolding process_network_attachment process_attachment process_analyzed process_present
        choose_address choose_by_data pick_and_update after_pick update_na_status after_update
        remember status_of ip_text write_data zero_parsed_lock zero_data with_object lock_draft
    process_network_attachment-Assigned f s rv vni base last y ipl got c unknown at h l low high
          free answer accepts =
        let ((r, left), e, (addr_u, above, below, was_free, re, held)) =
          pick_and_lock_address-LockedNew library s.addr_cache f w.gap_seed w.member_seed w.answers
            fuel ns name a.uid vni base last y ipl got c h l low high free answer in
        let (new_rv, accepted) = accepts (address_status vni addr_u ipl) in
        let added = put_data (put_data s.atts ns name (some zero_data)) ns name (some zero_data) in
        let p : Result = record {
          err = false;
          written = some (address_status vni addr_u ipl);
          released = [];
          state = record {
            atts =
                put_data added ns name
                  (some (anticipate a.resource_version new_rv rv (some (uint32_to_ipv4 addr_u))));
            addr_cache = left;
          };
        } in
        (
          p,
          rw
              (
                process_attachment,
                get-new s unknown,
                analysis-new rv vni base last at,
                e,
                re,
                accepted,
              )
              refl,
          (refl, (addr_u, above, below, was_free, refl, held)),
        )
