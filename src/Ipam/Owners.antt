-- ===== src/Ipam/Owners.antt =====
-- The owner references of IPLock objects: GetOwner and OwningAttachments of
-- staging/kos/pkg/controllers/ipam/ipam.go.
use kube_examples.Common.{Bool, false, ◌&&◌, Option, none, some, List, [], ◌∷◌, ◌++◌, if◌then◌else◌}
use kube_examples.GoText.{Text, text_eq}
use kube_examples.Ipam.Locks.{OwnerReference, IpLock}

-- "NetworkAttachment"
abbrev pub network_attachment : Text
network_attachment =
    b'N' ∷ b'e' ∷ b't' ∷ b'w' ∷ b'o' ∷ b'r' ∷ b'k' ∷ b'A' ∷ b't' ∷ b't' ∷ b'a' ∷ b'c' ∷ b'h' ∷ b'm'
    ∷ b'e' ∷ b'n' ∷ b't' ∷ []

-- `oref.Controller != nil && *oref.Controller`.
abbrev pub is_controller : Option Bool → Bool
is_controller none = false
is_controller (some controller) = controller

-- `GetOwner`: the loop, with the name and the UID so far.
unfoldable pub get_owner_from : Text → Text × Text → List OwnerReference → Text × Text
get_owner_from owner_kind found [] = found
get_owner_from owner_kind found (oref ∷ orefs) =
    get_owner_from owner_kind
      (if text_eq oref.kind owner_kind && is_controller oref.controller
        then (oref.name, oref.uid)
        else found)
      orefs

-- `GetOwner`: the name and the UID of the last controller of that kind, or empty texts.
unfoldable pub get_owner : IpLock → Text → Text × Text
get_owner obj owner_kind = get_owner_from owner_kind ([], []) obj.owner_references

-- `OwningAttachments`: the loop.
unfoldable pub owners_from : List Text → List OwnerReference → List Text
owners_from owners [] = owners
owners_from owners (oref ∷ orefs) =
    owners_from
      (if text_eq oref.kind network_attachment && is_controller oref.controller
        then owners ++ oref.name ∷ []
        else owners)
      orefs

-- `OwningAttachments`.
unfoldable pub owning_attachments : IpLock → List Text
owning_attachments obj = owners_from [] obj.owner_references
