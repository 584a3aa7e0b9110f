-- ===== src/Logger.antt =====
-- The network fabric that only keeps what it was told, staging/kos/pkg/networkfabric/logger, and the
-- registry of fabrics, staging/kos/pkg/networkfabric/factory. A Go map is a list of keys and values;
-- Go visits it in any order.
pub mod Replay
mod Tests
use kube_examples.Common.{
  ℕ, Bool, true, false, Option, none, some, List, [], ◌∷◌, ◌++◌, map, if◌then◌else◌, Go, ok, panic,
  ◌>>=◌,
}
use kube_examples.GoText.{Text, text_eq, codes}
use kube_examples.Ovs.Flows.{mac_string}
use kube_examples.Ovs.Parsing.{LocalNetIfc, RemoteNetIfc}

-- A Go map from texts: the value of a key, setting it, and deleting it.
unfoldable pub value_of {ℓ} : {A : Type ℓ} → List (Text × A) → Text → Option A
value_of [] key = none
value_of ((k, v) ∷ entries) key =
    let rest = value_of entries key in if text_eq k key then some v else rest

unfoldable pub delete_key {ℓ} : {A : Type ℓ} → List (Text × A) → Text → List (Text × A)
delete_key [] key = []
delete_key ((k, v) ∷ entries) key =
    let rest = delete_key entries key in if text_eq k key then rest else (k, v) ∷ rest

unfoldable pub set_key {ℓ} : {A : Type ℓ} → List (Text × A) → Text → A → List (Text × A)
set_key entries key v = (key, v) ∷ delete_key entries key

-- `logger`.
pub record Logger : Type 0 where
  pub local_ifcs : List (Text × LocalNetIfc)
  pub remote_ifcs : List (Text × RemoteNetIfc)

unfoldable pub new_logger : Logger
new_logger = record { local_ifcs = []; remote_ifcs = [] }

-- An operation of the fabric that changes it: `CreateLocalIfc`, `DeleteLocalIfc`, `CreateRemoteIfc`
-- and `DeleteRemoteIfc`, which have no errors.
pub data LoggerOp : Type 0 where
  log_create_local : LocalNetIfc → LoggerOp
  log_delete_local : LocalNetIfc → LoggerOp
  log_create_remote : RemoteNetIfc → LoggerOp
  log_delete_remote : RemoteNetIfc → LoggerOp

unfoldable pub log_op : Logger → LoggerOp → Logger
log_op l (log_create_local ifc) = record l { local_ifcs = set_key l.local_ifcs ifc.name ifc }
log_op l (log_delete_local ifc) = record l { local_ifcs = delete_key l.local_ifcs ifc.name }
log_op l (log_create_remote ifc) = record l {
  remote_ifcs = set_key l.remote_ifcs (mac_string ifc.guest_mac) ifc;
}
log_op l (log_delete_remote ifc) = record l {
  remote_ifcs = delete_key l.remote_ifcs (mac_string ifc.guest_mac);
}

unfoldable pub log_ops : Logger → List LoggerOp → Logger
log_ops l [] = l
log_ops l (op ∷ ops) = log_ops (log_op l op) ops

-- `ListLocalIfcs` and `ListRemoteIfcs`.
unfoldable pub logged_local_ifcs : Logger → List LocalNetIfc
logged_local_ifcs l = map (λ entry. entry.1) l.local_ifcs

unfoldable pub logged_remote_ifcs : Logger → List RemoteNetIfc
logged_remote_ifcs l = map (λ entry. entry.1) l.remote_ifcs

-- `RegisterFactory`, which panics where the name is taken.
unfoldable pub register_factory {ℓ} :
    {A : Type ℓ} → List (Text × A) → A → Text → Go (List (Text × A))
register_factory registry factory name = elim (value_of registry name) [
  | none ↦ ok ((name, factory) ∷ registry)
  | some other ↦ panic
]

-- `NewNetFabricForName`: what calling the factory of that name gives, none for an error.
unfoldable pub new_net_fabric_for_name {ℓ κ} :
    {F : Type ℓ} {A : Type κ} → (F → Option A) → List (Text × F) → Text → Option A
new_net_fabric_for_name call registry name = elim (value_of registry name) [
  | none ↦ none
  | some new_netfabric ↦ call new_netfabric
]
