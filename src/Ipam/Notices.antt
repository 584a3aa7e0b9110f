-- ===== src/Ipam/Notices.antt =====
-- What the IPAM controller does when it is notified of an object: OnLockNotify with the handlers
-- OnLockCreate, OnLockUpdate and OnLockDelete, and those of subnets and attachments, of
-- staging/kos/pkg/controllers/ipam/ipam.go.
pub mod Replay
use kube_examples.Common.{
  ℕ, Bool, true, false, Option, none, some, List, [], ◌∷◌, ◌++◌, map, Go, ok, panic, ◌>>=◌,
}
use kube_examples.GoText.{Text}
use kube_examples.Uint32Set.Library.{SortedSetLibrary}
use kube_examples.Ipam.LockName.{parse_ip_lock_name}
use kube_examples.Ipam.Locks.{IpLock}
use kube_examples.Ipam.Owners.{owning_attachments}
use kube_examples.Ipam.Analysis.{Attachment}
use kube_examples.Ipam.Cache.{AddrCache, take_address, release_address}

-- A notice of an IPLock: it was created, updated or deleted; or it was deleted while the informer did
-- not watch, for which client-go gives a `DeletedFinalStateUnknown` with what is known of the object.
pub data Notice : Type 0 where
  lock_create : IpLock → Notice
  lock_update : IpLock → IpLock → Notice
  lock_delete : IpLock → Notice
  lock_delete_unknown : Option IpLock → Notice

-- The items that are added to the work queue: namespaces and names of attachments.
abbrev pub Queue : Type 0
Queue = List (Text × Text)

-- The attachments that own the lock, in its namespace.
unfoldable pub owner_items : IpLock → Queue
owner_items ipl = map (λ owner_name. (ipl.namespace, owner_name)) (owning_attachments ipl)

-- `AttachmentSubnets`, the index of attachments by their subnets.
unfoldable pub attachment_subnets : Attachment → List Text
attachment_subnets att = att.subnet ∷ []

-- `OnSubnetNotify`, for which the creation, the update and the deletion are alike: `by_index` gives
-- the namespaces and names of the attachments on a subnet, none for an error.
unfoldable pub on_subnet_notify : (Text → Option Queue) → Queue → Text → Queue
on_subnet_notify by_index queue subnet_name = elim (by_index subnet_name) [
  | none ↦ queue
  | some subnet_attachments ↦ queue ++ subnet_attachments
]

-- `OnAttachmentCreate`, `OnAttachmentUpdate` with the new object, and `OnAttachmentDelete`.
unfoldable pub on_attachment_notice : Queue → Text → Text → Queue
on_attachment_notice queue ns name = queue ++ (ns, name) ∷ []

module _ (library : SortedSetLibrary) where
  -- The change of the cache, for an address of a lock that exists or not.
  unfoldable pub set_address : AddrCache library → ℕ × ℕ → Bool → Go (Bool × AddrCache library)
  set_address cache place true = take_address library cache place.0 place.1
  set_address cache place false = release_address library cache place.0 place.1

  unfoldable pub notify_place :
      AddrCache library → Queue → IpLock → Bool → Option (ℕ × ℕ) → Go (AddrCache library × Queue)
  notify_place cache queue ipl exists_ none = ok (cache, queue)
  notify_place cache queue ipl exists_ (some place) = do
    (changed, left) ← set_address cache place exists_
    ok (left, queue ++ owner_items ipl)

  -- `OnLockNotify`.
  unfoldable pub on_lock_notify :
      AddrCache library → Queue → IpLock → Bool → Go (AddrCache library × Queue)
  on_lock_notify cache queue ipl exists_ =
      notify_place cache queue ipl exists_ (parse_ip_lock_name ipl.name)

  -- `OnLockCreate`, `OnLockUpdate` and `OnLockDelete`: the assertion of the type in the last one
  -- panics on a `DeletedFinalStateUnknown`.
  unfoldable pub on_notice : AddrCache library → Queue → Notice → Go (AddrCache library × Queue)
  on_notice cache queue (lock_create ipl) = on_lock_notify cache queue ipl true
  on_notice cache queue (lock_update old_ipl new_ipl) = on_lock_notify cache queue new_ipl true
  on_notice cache queue (lock_delete ipl) = on_lock_notify cache queue ipl false
  on_notice cache queue (lock_delete_unknown last_known) = panic

  -- The handlers, one after the other.
  unfoldable pub on_notices :
      AddrCache library → Queue → List Notice → Go (AddrCache library × Queue)
  on_notices cache queue [] = ok (cache, queue)
  on_notices cache queue (notice ∷ notices) = do
    (left, queued) ← on_notice cache queue notice
    on_notices left queued notices
