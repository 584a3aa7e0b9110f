-- ===== src/Ipam/Notices/Replay.antt =====
-- The cache of addresses after a history of notices.
use kube_examples.Common.{
  ℕ, ◌≡◌, refl, arith, Bool, true, false, ◌&&◌, Bool-cases, ◌⊎◌, inl, inr, Option, none, some, List,
  [], ◌∷◌, ◌++◌, Go, panic, Returns,
}
use kube_examples.Uint32Set.Library.{SortedSetLibrary}
use kube_examples.Ipam.LockName.{parse_ip_lock_name}
use kube_examples.Ipam.LockName.Addresses.{Small, parse_ip_lock_name-Small}
use kube_examples.Ipam.Locks.{IpLock}
use kube_examples.Ipam.Cache.{AddrCache}
use kube_examples.Ipam.Cache.Theorems.{
  InUse, with_used, without, Caches, take_address-Taken, release_address-Released,
}
use kube_examples.Ipam.Notices.{
  Notice, lock_create, lock_update, lock_delete, lock_delete_unknown, Queue, owner_items,
  set_address, notify_place, on_lock_notify, on_notice, on_notices,
}

-- The pairs in use once a lock of a place exists or does not any more.
abbrev pub after_place : InUse → Bool → Option (ℕ × ℕ) → InUse
after_place f exists_ none = f
after_place f true (some place) = with_used f place.0 place.1
after_place f false (some place) = without f place.0 place.1

abbrev pub after_notice : InUse → Notice → InUse
after_notice f (lock_create ipl) = after_place f true (parse_ip_lock_name ipl.name)
after_notice f (lock_update old_ipl new_ipl) = after_place f true (parse_ip_lock_name new_ipl.name)
after_notice f (lock_delete ipl) = after_place f false (parse_ip_lock_name ipl.name)
after_notice f (lock_delete_unknown last_known) = f

-- Whether the informer watched a deletion.
abbrev pub is_known : Notice → Bool
is_known (lock_create ipl) = true
is_known (lock_update old_ipl new_ipl) = true
is_known (lock_delete ipl) = true
is_known (lock_delete_unknown last_known) = false

abbrev pub all_known : List Notice → Bool
all_known [] = true
all_known (notice ∷ notices) = is_known notice && all_known notices

abbrev pub after_notices : InUse → List Notice → InUse
after_notices f [] = f
after_notices f (notice ∷ notices) = after_notices (after_notice f notice) notices

module _ (library : SortedSetLibrary) where
  notify_place-Caches :
      (cache : AddrCache library) (f : InUse) (queue : Queue) (ipl : IpLock) (exists_ : Bool)
      (o : Option (ℕ × ℕ))
      → Small o
      → Caches library cache f
      → Returns
          (notify_place library cache queue ipl exists_ o)
          (λ r. Caches library r.0 (after_place f exists_ o))
  unfolding notify_place set_address
  notify_place-Caches cache f queue ipl true none s c = ((cache, queue), refl, c)
  notify_place-Caches cache f queue ipl false none s c = ((cache, queue), refl, c)
  notify_place-Caches cache f queue ipl true (some place) s c =
      let ((changed, left), e, (t, m)) = take_address-Taken library cache f place.0 place.1 s c in
      ((left, queue ++ owner_items ipl), rw e refl, m)
  notify_place-Caches cache f queue ipl false (some place) s c =
      let ((changed, left), e, (t, m)) =
        release_address-Released library cache f place.0 place.1 s c in
      ((left, queue ++ owner_items ipl), rw e refl, m)

  on_notice-Caches :
      (cache : AddrCache library) (f : InUse) (queue : Queue) (notice : Notice)
      → Caches library cache f
      → is_known notice ≡ true
      → Returns
          (on_notice library cache queue notice)
          (λ r. Caches library r.0 (after_notice f notice))
  unfolding on_notice on_lock_notify
  on_notice-Caches cache f queue (lock_create ipl) c known =
      notify_place-Caches cache f queue ipl true _ (parse_ip_lock_name-Small ipl.name) c
  on_notice-Caches cache f queue (lock_update old_ipl ipl) c known =
      notify_place-Caches cache f queue ipl true _ (parse_ip_lock_name-Small ipl.name) c
  on_notice-Caches cache f queue (lock_delete ipl) c known =
      notify_place-Caches cache f queue ipl false _ (parse_ip_lock_name-Small ipl.name) c
  on_notice-Caches cache f queue (lock_delete_unknown last_known) c known = ground arith

  unknown_panics :
      (cache : AddrCache library) (queue : Queue) (notice : Notice) (notices : List Notice)
      → is_known notice ≡ false
      → on_notices library cache queue (notice ∷ notices) ≡ panic
  unfolding on_notices on_notice
  unknown_panics cache queue (lock_create ipl) notices h = ground arith
  unknown_panics cache queue (lock_update old_ipl ipl) notices h = ground arith
  unknown_panics cache queue (lock_delete ipl) notices h = ground arith
  unknown_panics cache queue (lock_delete_unknown last_known) notices h = refl

  -- What a sequence of notices comes to: it panics if a deletion is among them that the informer did
  -- not watch, and otherwise leaves a valid cache.
  abbrev pub Handled : InUse → List Notice → Go (AddrCache library × Queue) → Type 0
  Handled f notices r =
      ((all_known notices ≡ true) × Returns r (λ x. Caches library x.0 (after_notices f notices)))
      ⊎ ((all_known notices ≡ false) × (r ≡ panic))

  onward :
      (f : InUse) (notice : Notice) (notices : List Notice) (r : Go (AddrCache library × Queue))
      → is_known notice ≡ true
      → Handled (after_notice f notice) notices r
      → Handled f (notice ∷ notices) r
  onward f notice notices r known (inl (all, done)) = inl (ground arith, done)
  onward f notice notices r known (inr (some_unknown, done)) = inr (ground arith, done)

  -- From a valid cache, a sequence of notices of IPLock objects is handled without a panic exactly if
  -- no notice among them is a `DeletedFinalStateUnknown`, on which OnLockDelete panics. Without a panic
  -- it leaves a valid cache: in use are the addresses of before, with those taken in that the name of
  -- a created or updated lock gives, and those given back of a deleted lock, in the order of the
  -- notices. Names that do not parse change nothing.
  pub on_notices-Caches :
      (cache : AddrCache library) (f : InUse) (queue : Queue) (notices : List Notice)
      → Caches library cache f
      → Handled f notices (on_notices library cache queue notices)
  unfolding on_notices on_notice
  on_notices-Caches cache f queue [] c = inl (refl, ((cache, queue), refl, c))
  on_notices-Caches cache f queue (notice ∷ notices) c = elim (Bool-cases (is_known notice)) [
    | inr unknown ↦ inr (ground arith, unknown_panics cache queue notice notices unknown)
    | inl known ↦
        let ((left, queued), e, m) = on_notice-Caches cache f queue notice c known in
        rw (on_notices, e)
          (onward f notice notices _ known
            (on_notices-Caches left (after_notice f notice) queued notices m))
  ]
