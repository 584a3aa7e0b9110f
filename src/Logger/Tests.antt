-- ===== src/Logger/Tests.antt =====
-- The fabric that keeps its interfaces, on concrete inputs.
use kube_examples.Common.{ℕ, ◌≡◌, ◌↔◌, none, some, List, [], ◌∷◌}
use mathlib.Core.List.{Memᴰ}
use kube_examples.GoText.{Text, codes}
use kube_examples.Ovs.Parsing.{LocalNetIfc}
use kube_examples.Logger.{
  LoggerOp, log_create_local, log_delete_local, new_logger, log_ops, logged_local_ifcs,
}
use kube_examples.Logger.Replay.{last_local, logged_local_ifcs-last_local}

abbrev ifc_of : Text → ℕ → LocalNetIfc
ifc_of name vni = record {
  name = name;
  vni = vni;
  guest_mac = 2 ∷ 0 ∷ 0 ∷ 1 ∷ 0 ∷ 7 ∷ [];
  guest_ip = 10 ∷ 0 ∷ 0 ∷ 1 ∷ [];
}

-- The interface a is created twice, and b is deleted.
abbrev some_ops : List LoggerOp
some_ops =
    log_create_local (ifc_of (codes "a") 7)
    ∷ log_create_local (ifc_of (codes "b") 7)
    ∷ log_create_local (ifc_of (codes "a") 8)
    ∷ log_delete_local (ifc_of (codes "b") 7)
    ∷ []

logged_local_ifcs-last_local_example :
    Memᴰ (ifc_of (codes "a") 8) (logged_local_ifcs (log_ops new_logger some_ops))
    ↔ (last_local (codes "a") none some_ops ≡ some (ifc_of (codes "a") 8))
logged_local_ifcs-last_local_example = logged_local_ifcs-last_local some_ops (ifc_of (codes "a") 8)
