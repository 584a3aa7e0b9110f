-- ===== src/Ipam/Tests.antt =====
-- The IPAM controller on concrete inputs.
use kube_examples.Common.{
  ℕ, ◌≤◌, ◌<◌, ◌≡◌, ◌≢◌, ◌↔◌, refl, true, false, not, ◌&&◌, ◌||◌, Option, none, some, List, [], ◌∷◌,
  ◌/◌, ◌^◌, arith, ◌==◌, if◌then◌else◌, Returns, two_32, zero, suc, All,
}
use mathlib.Core.List.{Memᴰ}
use kube_examples.GoNet.{IPv4, IpNet, NetIp}
use kube_examples.GoText.{Text, text_eq}
use kube_examples.Uint32Set.Library.{ordered_lists}
use kube_examples.Uint32Set.Runs.{Run, run, embed, covers}
use kube_examples.Uint32Set.Sorted.{SortedUint32Set}
use kube_examples.Ipam.LockName.{
  uint32_to_ipv4, ipv4_to_uint32, make_ip_lock_name2, parse_ip_lock_name, ip_net_to_bounds_u,
}
use kube_examples.Ipam.LockName.Theorems.{parse_ip_lock_name-make_ip_lock_name2}
use kube_examples.Ipam.LockName.Bounds.{IsMasked, ip_net_to_bounds_u_members}
use kube_examples.Ipam.Locks.{
  OwnerReference, IpLock, ParsedLock, best, has, equal, is_better_than, rem_func, add_list_func,
}
use kube_examples.Ipam.Locks.Best.{best-unbeaten, best_same}
use kube_examples.Ipam.Locks.Membership.{IsDistinct, brings, rem_func-has, add_list_func-has}
use kube_examples.Ipam.Cache.{AddrCache, take_address, pick_address, release_address}
use kube_examples.Ipam.Cache.Theorems.{
  InUse, Caches, Taken, Picked, Released, take_address-Taken, pick_address-Picked,
  release_address-Released,
}
use kube_examples.Ipam.Owners.{network_attachment}
use kube_examples.Ipam.Analysis.{
  Attachment, Seen, nothing_seen, is_undesired, consider_all, release_all, DeleteAnswer, deleted,
  failed,
}
use kube_examples.Ipam.Analysis.Decision.{IsSorted, Keeps, locks_to_release-Keeps}
use kube_examples.Ipam.Analysis.Sorting.{SortedFrom, consider_all-SortedFrom}
use kube_examples.Ipam.Analysis.Release.{IsOff, Went, release_all-Went}
use kube_examples.Ipam.Notices.{Notice, lock_create, lock_delete, on_notices}
use kube_examples.Ipam.Notices.Replay.{Handled, on_notices-Caches}
use kube_examples.Ipam.Pick.{
  CreateAnswer, created, already_exists, GetAnswer, absent, PickResult, pick_and_lock_address,
}
use kube_examples.Ipam.Pick.Outcome.{Settled, pick_and_lock_address-Settled}

parse_ip_lock_name-make_ip_lock_name2_example :
    parse_ip_lock_name (make_ip_lock_name2 300 (uint32_to_ipv4 167772161)) ≡ some (300, 167772161)
parse_ip_lock_name-make_ip_lock_name2_example =
    parse_ip_lock_name-make_ip_lock_name2 300 167772161 (omega arith) (omega arith)

-- 10.0.2.0/23
abbrev net_10 : IpNet
net_10 = record { ip = record { b0 = 10; b1 = 0; b2 = 2; b3 = 0 }; ones = 23; bits = 32 }

net_10-IsMasked : IsMasked net_10
unfolding ipv4_to_uint32
net_10-IsMasked = record { bits_32 = refl; some_ones = omega arith; masked = refl }

ip_net_to_bounds_u_members_example :
    (167772700 / 2 ^ 9 ≡ ipv4_to_uint32 net_10.ip / 2 ^ 9)
    ↔ (((ip_net_to_bounds_u net_10).0 ≤ 167772700) × (167772700 ≤ (ip_net_to_bounds_u net_10).1))
ip_net_to_bounds_u_members_example = ip_net_to_bounds_u_members net_10 167772700 net_10-IsMasked

-- A parsed lock of VNI 7.
abbrev lock_at : ℕ → ℕ → Text → ParsedLock
lock_at addr_u time uid = record {
  ns = [];
  name = make_ip_lock_name2 7 (uint32_to_ipv4 addr_u);
  vni = 7;
  addr_u = addr_u;
  uid = uid;
  creation_time = time;
  obj = none;
}

abbrev old : ParsedLock
old = lock_at 20 100 (b'b' ∷ [])

abbrev twin : ParsedLock
twin = lock_at 21 100 (b'a' ∷ [])

abbrev young : ParsedLock
young = lock_at 22 200 (b'c' ∷ [])

abbrev three : List ParsedLock
three = twin ∷ young ∷ old ∷ []

abbrev three_back : List ParsedLock
three_back = old ∷ young ∷ twin ∷ []

three_some : three ≢ []
three_some e = cc

three_back_some : three_back ≢ []
three_back_some e = cc

best-unbeaten_example :
    Memᴰ (best three) three
    × ((y : ParsedLock) → Memᴰ y three → is_better_than y (best three) ≡ false)
best-unbeaten_example = best-unbeaten three three_some

turn : (y : ParsedLock) (a b c : ParsedLock) → Memᴰ y (a ∷ b ∷ c ∷ []) → Memᴰ y (c ∷ b ∷ a ∷ [])
turn y a b c (Memᴰ.head e) = Memᴰ.tail (Memᴰ.tail (Memᴰ.head e))
turn y a b c (Memᴰ.tail (Memᴰ.head e)) = Memᴰ.tail (Memᴰ.head e)
turn y a b c (Memᴰ.tail (Memᴰ.tail (Memᴰ.head e))) = Memᴰ.head e
turn y a b c (Memᴰ.tail (Memᴰ.tail (Memᴰ.tail m))) = elim m [ ]

there_and_back : (y : ParsedLock) → Memᴰ y three → Memᴰ y three_back
there_and_back y m = turn y twin young old m

and_forth : (y : ParsedLock) → Memᴰ y three_back → Memᴰ y three
and_forth y m = turn y old young twin m

best_same_example :
    ((best three).creation_time ≡ (best three_back).creation_time)
    × ((best three).uid ≡ (best three_back).uid)
best_same_example = best_same three three_back three_some three_back_some there_and_back and_forth

three-IsDistinct : IsDistinct three
unfolding has equal text_eq
three-IsDistinct = (refl, (refl, (refl, tt)))

rem_func-has_example :
    ((rem_func three young).1 ≡ has three young)
    × IsDistinct (rem_func three young).0
    × (has (rem_func three young).0 young ≡ (has three young && not (equal young young)))
rem_func-has_example = rem_func-has three young young three-IsDistinct

add_list_func-has_example :
    (has (add_list_func three (young ∷ lock_at 30 5 [] ∷ [])).0 young
      ≡ (has three young || has (young ∷ lock_at 30 5 [] ∷ []) young))
    × IsDistinct (add_list_func three (young ∷ lock_at 30 5 [] ∷ [])).0
    × ((add_list_func three (young ∷ lock_at 30 5 [] ∷ [])).1
        ≡ brings three (young ∷ lock_at 30 5 [] ∷ []))
add_list_func-has_example =
    add_list_func-has three (young ∷ lock_at 30 5 [] ∷ []) young three-IsDistinct

-- {5, 6, 7, 10}
abbrev used_runs : List Run
used_runs = run 5 7 ∷ run 10 10 ∷ []

abbrev used_addrs : SortedUint32Set ordered_lists
used_addrs = record { sorted_set = embed used_runs; check_level = 1 }

-- Every VNI has those addresses in use.
abbrev sample_cache : AddrCache ordered_lists
sample_cache v = some used_addrs

abbrev sample_use : InUse
sample_use v y = covers y used_runs

sample_cache-Caches : Caches ordered_lists sample_cache sample_use
sample_cache-Caches v =
    (used_runs, record { held = refl; proper = omega arith; members = λ y. refl })

small_6 : 6 < two_32
small_6 = omega arith

six_twenty : 6 ≤ 20
six_twenty = omega arith

one_nine : 1 < 9
one_nine = omega arith

small_20 : 20 < two_32
small_20 = omega arith

take_address-Taken_example :
    Returns (take_address ordered_lists sample_cache 7 6) (Taken ordered_lists sample_use 7 6)
take_address-Taken_example =
    take_address-Taken ordered_lists sample_cache sample_use 7 6 small_6 sample_cache-Caches

pick_address-Picked_example :
    Returns
      (pick_address ordered_lists sample_cache 3 4 7 6 20)
      (Picked ordered_lists sample_use 7 6 20)
pick_address-Picked_example =
    pick_address-Picked ordered_lists sample_cache sample_use 3 4 7 6 20 small_20
      sample_cache-Caches

release_address-Released_example :
    Returns (release_address ordered_lists sample_cache 7 6) (Released ordered_lists sample_use 7 6)
release_address-Released_example =
    release_address-Released ordered_lists sample_cache sample_use 7 6 small_6 sample_cache-Caches

-- The attachment a with the UID u.
abbrev att_a : Attachment
att_a = record {
  name = b'a' ∷ [];
  uid = b'u' ∷ [];
  resource_version = b'9' ∷ [];
  status_lock_uid = [];
  status_ipv4 = [];
  subnet = b's' ∷ [];
}

abbrev owned_by_a : OwnerReference
owned_by_a = record {
  kind = network_attachment;
  name = b'a' ∷ [];
  uid = b'u' ∷ [];
  controller = some true;
}

abbrev ip_lock_at : ℕ → ℕ → Text → IpLock
ip_lock_at addr_u time uid = record {
  namespace = [];
  name = make_ip_lock_name2 7 (uint32_to_ipv4 addr_u);
  uid = uid;
  creation_timestamp = time;
  owner_references = owned_by_a ∷ [];
}

abbrev no_string : IPv4 → Text
no_string ip = []

abbrev no_ip : Text → Option NetIp
no_ip text = none

-- Three usable locks and an undesired one.
abbrev four_seen : Seen
four_seen = record {
  time_slippers = [];
  undesired_locks = lock_at 99 3 [] ∷ [];
  usable_locks = three;
  considered = [];
  lock_in_status = twin;
}

four_seen-IsSorted : IsSorted no_string no_ip (some att_a) 7 10 30 four_seen
unfolding is_undesired has
four_seen-IsSorted = record {
  usable_fit = (refl, (refl, (refl, tt)));
  undesired_off = (refl, tt);
  usable_distinct = three-IsDistinct;
  undesired_distinct = (refl, tt);
  status_usable = λ e. cc;
}

locks_to_release-Keeps_example : Keeps no_string no_ip (some att_a) 7 10 30 four_seen (best three)
locks_to_release-Keeps_example =
    locks_to_release-Keeps no_string no_ip (some att_a) 7 10 30 four_seen refl four_seen-IsSorted
      three_some

-- The lock of UID a cannot be deleted.
abbrev stubborn : ParsedLock → DeleteAnswer
stubborn lock = if lock.addr_u == 22 then failed else deleted

release_all-Went_example :
    Went stubborn three (release_all stubborn three)
    × All (λ lock. IsOff (stubborn lock)) (release_all stubborn three).0
release_all-Went_example = release_all-Went stubborn three

-- The lock was there and then not, and is created in the second round.
abbrev sample_answers : ℕ → CreateAnswer × GetAnswer
sample_answers zero = (already_exists, absent)
sample_answers (suc k) = (created (ip_lock_at 8 70 (b'z' ∷ [])), absent)

pick_and_lock_address-Settled_example :
    Returns
      (pick_and_lock_address ordered_lists sample_cache 3 4 sample_answers 9 []
        (b'a' ∷ [])
        (b'u' ∷ [])
        7
        6
        20)
      λ r.
        (result : PickResult) × (r.0 ≡ some result)
        × Settled ordered_lists sample_use 7 6 20
            (b'a' ∷ [])
            (b'u' ∷ [])
            sample_answers
            (result, r.1)
pick_and_lock_address-Settled_example =
    pick_and_lock_address-Settled ordered_lists sample_cache sample_use 3 4 sample_answers 9 1 []
      (b'a' ∷ []) (b'u' ∷ []) 7 6 20 sample_cache-Caches six_twenty small_20 refl one_nine

-- A lock is created, another deleted, and a name does not parse.
abbrev three_notices : List Notice
three_notices =
    lock_create (ip_lock_at 8 70 [])
    ∷ lock_delete (ip_lock_at 6 40 [])
    ∷ lock_create (record (ip_lock_at 9 90 []) { name = b'x' ∷ [] })
    ∷ []

on_notices-Caches_example :
    Handled ordered_lists sample_use three_notices
      (on_notices ordered_lists sample_cache [] three_notices)
on_notices-Caches_example =
    on_notices-Caches ordered_lists sample_cache sample_use [] three_notices sample_cache-Caches

-- A lock of another edition, one inside and one outside of the bounds.
abbrev three_editions : List IpLock
three_editions =
    record (ip_lock_at 11 40 (b'w' ∷ [])) { owner_references = [] }
    ∷ ip_lock_at 12 50 (b'x' ∷ [])
    ∷ ip_lock_at 99 60 (b'y' ∷ [])
    ∷ []

consider_all-SortedFrom_example :
    SortedFrom no_string no_ip
      (some att_a)
      7
      10
      30
      nothing_seen
      three_editions
      (consider_all no_string no_ip (some att_a) 7 10 30 nothing_seen three_editions)
consider_all-SortedFrom_example =
    consider_all-SortedFrom no_string no_ip (some att_a) 7 10 30 three_editions
