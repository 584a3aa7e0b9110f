-- ===== src/Ovs/Listing.antt =====
-- ListLocalIfcs and ListRemoteIfcs of staging/kos/pkg/networkfabric/ovs/ovs.go: the interfaces that
-- Open vSwitch has, and their pairs locked.
use kube_examples.Common.{ℕ, none, some, List, [], ◌∷◌, Go, ok, ◌>>=◌}
use kube_examples.GoText.{Text, codes}
use kube_examples.GoText.Pieces.{trim_right}
use kube_examples.Ovs.Commands.{Cmd, new_get_flows_cmd, new_list_of_ports_and_ifc_names_cmd}
use kube_examples.Ovs.Parsing.{
  LocalNetIfc, RemoteNetIfc, parse_get_flows_output, only_useful_local_flows, only_remote_flows,
  of_port_to_local_flows_pairs, pair_remote_flows_per_ifc, parse_local_flows_pairs,
  parse_remote_flows_pairs, parse_of_ports_and_ifc_names, name_ifcs,
}
use kube_examples.Ovs.Fabric.{
  CmdResult, OvsFabric, OvsError, command_failed, run_cmd, delete_ifc, lock_vni_ip_pair,
}

-- A value or an error.
pub data Listed {ℓ} (A : Type ℓ) : Type ℓ where
  listed : A → Listed A
  unlisted : OvsError → Listed A

module _ (ovs : List Cmd → Cmd → CmdResult) (ip_string : List ℕ → Text)
    (parse_ip parse_mac : Text → List ℕ) where
  -- A command whose output is taken without the newlines at its end.
  unfoldable pub list_cmd : OvsFabric → Cmd → Listed Text × OvsFabric
  list_cmd f cmd =
      let (r, g) = run_cmd ovs ip_string f cmd in
      let out = trim_right (codes "\n") r.out in
      elim r.err [ none ↦ (listed out, g) | some e ↦ (unlisted (command_failed cmd e out), g) ]

  abbrev pub listed_map {ℓ κ} :
      {A : Type ℓ} {B : Type κ} → (A → B) → Listed A × OvsFabric → Listed B × OvsFabric
  listed_map h (listed a, f) = (listed (h a), f)
  listed_map h (unlisted e, f) = (unlisted e, f)

  -- `getFlows`, `getUsefulLocalFlows` and `getRemoteFlows`.
  unfoldable pub get_flows : OvsFabric → Listed (List Text) × OvsFabric
  get_flows f = listed_map parse_get_flows_output (list_cmd f (new_get_flows_cmd f.bridge))

  unfoldable pub get_useful_local_flows : OvsFabric → Listed (List Text) × OvsFabric
  get_useful_local_flows f = listed_map only_useful_local_flows (get_flows f)

  unfoldable pub get_remote_flows : OvsFabric → Listed (List Text) × OvsFabric
  get_remote_flows f = listed_map only_remote_flows (get_flows f)

  unfoldable pub parse_names : Listed Text × OvsFabric → Go (Listed (List (ℕ × Text)) × OvsFabric)
  parse_names (unlisted e, f) = ok (unlisted e, f)
  parse_names (listed out, f) = do
    names ← parse_of_ports_and_ifc_names f.bridge f.vtep out
    ok (listed names, f)

  -- `getOFportsToLocalIfcNames`.
  unfoldable pub get_of_ports_to_local_ifc_names :
      OvsFabric → Go (Listed (List (ℕ × Text)) × OvsFabric)
  get_of_ports_to_local_ifc_names f = parse_names (list_cmd f new_list_of_ports_and_ifc_names_cmd)

  -- `deleteIncompleteIfcs`, whose errors are logged.
  unfoldable pub delete_incomplete_ifcs : OvsFabric → List Text → OvsFabric
  delete_incomplete_ifcs f [] = f
  delete_incomplete_ifcs f (ifc ∷ ifcs) =
      delete_incomplete_ifcs (delete_ifc ovs ip_string f ifc).1 ifcs

  -- The loops that lock the pairs of the interfaces found; the errors are thrown away.
  unfoldable pub lock_local_ifcs : OvsFabric → List LocalNetIfc → Go OvsFabric
  lock_local_ifcs f [] = ok f
  lock_local_ifcs f (ifc ∷ ifcs) = do
    (err, g) ← lock_vni_ip_pair f ifc.vni ifc.guest_ip
    lock_local_ifcs g ifcs

  unfoldable pub lock_remote_ifcs : OvsFabric → List RemoteNetIfc → Go OvsFabric
  lock_remote_ifcs f [] = ok f
  lock_remote_ifcs f (ifc ∷ ifcs) = do
    (err, g) ← lock_vni_ip_pair f ifc.vni ifc.guest_ip
    lock_remote_ifcs g ifcs

  -- `ListLocalIfcs`, from the names and the flows on.
  unfoldable pub complete_local_ifcs :
      OvsFabric → List (ℕ × Text) → List Text → Go (Listed (List LocalNetIfc) × OvsFabric)
  complete_local_ifcs f names flows = do
    nameless ← parse_local_flows_pairs parse_ip parse_mac (of_port_to_local_flows_pairs flows)
    let complete = (name_ifcs names nameless).0
    let incomplete = (name_ifcs names nameless).1
    g ← lock_local_ifcs (delete_incomplete_ifcs f incomplete) complete
    ok (listed complete, g)

  unfoldable pub with_flows :
      List (ℕ × Text) → Listed (List Text) × OvsFabric → Go (Listed (List LocalNetIfc) × OvsFabric)
  with_flows names (unlisted e, f) = ok (unlisted e, f)
  with_flows names (listed flows, f) = complete_local_ifcs f names flows

  unfoldable pub with_names :
      Listed (List (ℕ × Text)) × OvsFabric → Go (Listed (List LocalNetIfc) × OvsFabric)
  with_names (unlisted e, f) = ok (unlisted e, f)
  with_names (listed names, f) = with_flows names (get_useful_local_flows f)

  -- `ListLocalIfcs`.
  unfoldable pub list_local_ifcs : OvsFabric → Go (Listed (List LocalNetIfc) × OvsFabric)
  list_local_ifcs f = do r ← get_of_ports_to_local_ifc_names f; with_names r

  unfoldable pub with_remote_flows :
      Listed (List Text) × OvsFabric → Go (Listed (List RemoteNetIfc) × OvsFabric)
  with_remote_flows (unlisted e, f) = ok (unlisted e, f)
  with_remote_flows (listed flows, f) = do
    ifcs ← parse_remote_flows_pairs parse_ip parse_mac (pair_remote_flows_per_ifc flows)
    g ← lock_remote_ifcs f ifcs
    ok (listed ifcs, g)

  -- `ListRemoteIfcs`.
  unfoldable pub list_remote_ifcs : OvsFabric → Go (Listed (List RemoteNetIfc) × OvsFabric)
  list_remote_ifcs f = with_remote_flows (get_remote_flows f)
