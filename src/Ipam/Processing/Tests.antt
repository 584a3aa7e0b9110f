-- ===== src/Ipam/Processing/Tests.antt =====
-- The controller loop on concrete inputs.
use kube_examples.Common.{
  ◌≡◌, ◌≢◌, ◌<◌, refl, ap, subst, arith, true, false, Option, none, some, [], ◌∷◌, ok, Returns, ◌≤◌,
  two_32,
}
use kube_examples.GoNet.{IPv4, IpNet, NetIp, NetBlock, block_in_four}
use kube_examples.GoText.{Text, codes, text_eq, parse_uint, split}
use kube_examples.Uint32Set.Library.{ordered_lists}
use kube_examples.Ipam.LockName.{
  uint32_to_ipv4, ipv4_to_uint32, parse_bytes, parse_parts, parse_ip_lock_name, ip_net_to_bounds_u,
  block_to_bounds_u,
}
use kube_examples.Ipam.LockName.Bounds.{IsCut}
use kube_examples.Ipam.Locks.{
  IpLock, zero_parsed_lock, new_parsed_lock, get_ip, equal, best_of, best, add_list_from,
  add_list_func, rem_func,
}
use kube_examples.Ipam.Cache.Theorems.{InUse, Caches}
use kube_examples.Ipam.Analysis.{
  Attachment, deleted, nothing_seen, choose_best, is_time_slipper, is_undesired, is_in_status,
  consider_parsed, consider, consider_all, consider_status, refresh_anticipation, choose_lock,
  locks_to_release, release_all,
}
use kube_examples.Ipam.AttachmentData.{put_data, zero_data, add_data, get_network_attachment_data}
use kube_examples.Ipam.Owners.{network_attachment, get_owner_from, get_owner}
use kube_examples.Ipam.Pick.{created, absent, address_range}
use kube_examples.Ipam.Pick.Rounds.{again}
use kube_examples.Ipam.Placing.{
  found, Placement, find_place, place_in, place_of, decide, seen_locks, refresh, analyze_owned,
  analyze_at, analyze_and_release, placed,
}
use kube_examples.Ipam.Processing.{
  World, StatusUpdate, updated, anticipate, IpamState, Processed, process_network_attachment,
  ip_matches, write_data, ip_text, status_of, remember, after_update, update_na_status,
  choose_by_data, choose_address, process_present, process_analyzed, analysis_of,
  process_attachment,
}
use kube_examples.Ipam.Processing.Assigning.{Assigned, process_network_attachment-Assigned}
use kube_examples.Ipam.Processing.Placed.{GivesCut, FourStatus}
use kube_examples.Ipam.Processing.Serving.{Served, process_network_attachment-Serves}
use kube_examples.Ipam.Processing.Waiting.{Quiet}
use kube_examples.Ipam.Processing.Remembering.{process_network_attachment_twice}

abbrev att_a : Attachment
att_a = record {
  name = codes "a";
  uid = codes "u";
  resource_version = codes "9";
  status_lock_uid = [];
  status_ipv4 = [];
  subnet = codes "s";
}

-- 10.0.2.0/23
abbrev net_10 : IpNet
net_10 = record { ip = record { b0 = 10; b1 = 0; b2 = 2; b3 = 0 }; ones = 23; bits = 32 }

net_10-IsCut : IsCut net_10
unfolding ipv4_to_uint32
net_10-IsCut = record { host_bits = omega arith; no_host = refl }

abbrev to_net_10 : Text → Option NetBlock
to_net_10 text = some (block_in_four net_10)

abbrev net_or : IpNet → Option NetBlock → IpNet
net_or net (some (block_in_four other)) = other
net_or net _ = net

to_net_10-GivesCut : GivesCut to_net_10
to_net_10-GivesCut t net e = subst IsCut (ap (net_or net_10) e) net_10-IsCut

abbrev one_text : IPv4 → Text
one_text ip = codes "10.0.2.12"

abbrev no_ip : Text → Option NetIp
no_ip text = none

abbrev new_lock : IpLock
new_lock = record {
  namespace = codes "n";
  name = [];
  uid = codes "x";
  creation_timestamp = 70;
  owner_references = [];
}

-- The lock is created, and the status is accepted.
abbrev obliging : World
obliging = record {
  attachment = found att_a;
  subnets =
      λ name. found (record { vni = 7; ipv4 = codes "10.0.2.0/23"; resource_version = codes "4" });
  owned = some [];
  get_lock = λ name. none;
  delete = λ lock. deleted;
  gap_seed = 0;
  member_seed = 0;
  answers = λ round. (created new_lock, absent);
  update = λ st. updated (codes "10");
}

abbrev no_use : InUse
no_use vni addr_u = false

abbrev empty_state : IpamState ordered_lists one_text no_ip to_net_10
empty_state = record { atts = λ ns name. none; addr_cache = λ vni. none }

empty_state-Caches : Caches ordered_lists empty_state.addr_cache no_use
empty_state-Caches vni y = refl

ends_at_once : again (obliging.answers 0) ≡ false
ends_at_once = refl

enough_fuel : 0 < 1
enough_fuel = omega arith

abbrev obliging_placement : Placement
obliging_placement = placed (codes "4") 7 167772672 167773183

obliging_place : find_place to_net_10 obliging.subnets (some att_a) ≡ ok obliging_placement
unfolding find_place place_of place_in block_to_bounds_u ip_net_to_bounds_u ipv4_to_uint32
obliging_place = refl

four_status : FourStatus no_ip att_a
four_status e = cc

process_network_attachment-Serves_example :
    Returns
      (process_network_attachment ordered_lists one_text no_ip to_net_10 obliging 1
        (codes "n")
        (codes "a")
        empty_state
        (found att_a))
      (λ r.
        (p : Processed ordered_lists one_text no_ip to_net_10) × (r ≡ some p)
        × Served ordered_lists one_text no_ip to_net_10 no_use obliging_placement p)
process_network_attachment-Serves_example =
    process_network_attachment-Serves ordered_lists one_text no_ip to_net_10 obliging 1 0
      (codes "n") (codes "a") ends_at_once enough_fuel no_use empty_state att_a obliging_placement
      to_net_10-GivesCut obliging_place four_status empty_state-Caches

-- A lock of the attachment, on 10.0.2.12.
abbrev own_lock : IpLock
own_lock = record {
  namespace = codes "n";
  name = codes "v1-7-10-0-2-12";
  uid = codes "y";
  creation_timestamp = 60;
  owner_references =
      record {
        kind = network_attachment;
        name = codes "a";
        uid = codes "u";
        controller = some true;
      }
      ∷ [];
}

-- The informers have the lock.
abbrev aware : World
aware = record obliging { owned = some (own_lock ∷ []) }

-- What the first run writes: the address of the lock.
abbrev first_status : StatusUpdate
first_status = record {
  errors = [];
  lock_uid = codes "y";
  address_vni = 7;
  ipv4 = codes "10.0.2.12";
}

-- What the first run comes to.
abbrev first_run : Processed ordered_lists one_text no_ip to_net_10
first_run = record {
  err = false;
  written = some first_status;
  released = [];
  state = record {
    atts =
        put_data
          (put_data (put_data (λ ns name. none) (codes "n") (codes "a") (some zero_data))
            (codes "n") (codes "a") (some zero_data))
          (codes "n") (codes "a")
          (some
            (anticipate (codes "9") (codes "10") (codes "4") (some (uint32_to_ipv4 167772684))));
    addr_cache = λ vni. none;
  };
}

first_run-runs :
    process_network_attachment ordered_lists one_text no_ip to_net_10 aware 1
      (codes "n")
      (codes "a")
      empty_state
      (found att_a)
    ≡ ok (some first_run)
unfolding place_in place_of find_place seen_locks refresh analyze_owned analyze_at
    analyze_and_release ip_matches write_data ip_text status_of remember after_update
    update_na_status choose_by_data choose_address process_present process_analyzed analysis_of
    process_attachment process_network_attachment nothing_seen choose_best is_time_slipper
    is_undesired is_in_status consider_parsed consider consider_all consider_status
    refresh_anticipation choose_lock locks_to_release release_all zero_data add_data
    get_network_attachment_data zero_parsed_lock new_parsed_lock get_ip equal best_of best
    add_list_from add_list_func rem_func get_owner_from get_owner ipv4_to_uint32 block_to_bounds_u
    decide parse_bytes parse_parts parse_ip_lock_name ip_net_to_bounds_u text_eq parse_uint split
first_run-runs = refl

an_address : first_status.ipv4 ≢ []
an_address e = cc

-- The informers know of no lock yet.
process_network_attachment_twice_example :
    (p2 : Processed ordered_lists one_text no_ip to_net_10) × (process_network_attachment
        ordered_lists one_text no_ip to_net_10 obliging 1
        (codes "n")
        (codes "a")
        first_run.state
        (found att_a)
      ≡ ok (some p2))
    × Quiet ordered_lists one_text no_ip to_net_10 first_run.state p2
process_network_attachment_twice_example =
    process_network_attachment_twice ordered_lists one_text no_ip to_net_10 aware obliging 1 1
      (codes "n") (codes "a") att_a empty_state first_run first_status (codes "10") refl refl refl
      first_run-runs refl refl an_address refl

in_order : 167772672 ≤ 167773183
in_order = omega arith

last_small : 167773183 < two_32
last_small = omega arith

above_first : (address_range 167772672 167773183).0 ≤ 167772680
unfolding address_range
above_first = omega arith

below_last : 167772680 ≤ (address_range 167772672 167773183).1
unfolding address_range
below_last = omega arith

process_network_attachment-Assigned_example :
    (p : Processed ordered_lists one_text no_ip to_net_10) × (process_network_attachment
        ordered_lists one_text no_ip to_net_10 obliging 1
        (codes "n")
        (codes "a")
        empty_state
        (found att_a)
      ≡ ok (some p))
    × Assigned ordered_lists one_text no_ip to_net_10 no_use 7 167772672 167773183 new_lock p
process_network_attachment-Assigned_example =
    process_network_attachment-Assigned ordered_lists one_text no_ip to_net_10 obliging 0
      (codes "n") (codes "a") refl att_a refl no_use empty_state (codes "4") 7 167772672 167773183
      167772680 new_lock absent empty_state-Caches refl obliging_place in_order last_small
      above_first below_last refl refl (λ st. (codes "10", refl))
