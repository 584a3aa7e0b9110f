-- ===== src/Ovs/Fabric/Keeps.antt =====
-- The commands of the fabric do not touch the locked pairs.
use kube_examples.Common.{◌≡◌, ◌∙◌, arith, Option, none, some, List, ℕ}
use kube_examples.GoText.{Text}
use kube_examples.Ovs.Commands.{Cmd}
use kube_examples.Ovs.Parsing.{LocalNetIfc, RemoteNetIfc}
use kube_examples.Ovs.Fabric.{
  CmdResult, OvsFabric, OvsError, run_cmd, run_simple, create_ifc, delete_ifc, add_flows, del_flows,
  add_local_ifc_flows, delete_local_ifc_flows, add_remote_ifc_flows, delete_remote_ifc_flows,
  get_ifc_of_port, and_then, on_error, connect_local, connect_or_delete, set_up_local,
  delete_flows_and_ifc, tear_down_local,
}

-- Two fabrics with the same locked pairs.
abbrev pub Alike : OvsFabric → OvsFabric → Type 0
Alike f g = g.locked_vni_ip_pairs ≡ f.locked_vni_ip_pairs

module _ (ovs : List Cmd → Cmd → CmdResult) (ip_string : List ℕ → Text) where
  run_simple-Alike : (f : OvsFabric) (cmd : Cmd) → Alike f (run_simple ovs ip_string f cmd).1
  unfolding run_simple run_cmd
  run_simple-Alike f cmd = ground arith

  add_flows-Alike :
      (f : OvsFabric) (flows : List Text) → Alike f (add_flows ovs ip_string f flows).1
  unfolding add_flows run_cmd
  add_flows-Alike f flows = ground arith

  get_ifc_of_port-Alike :
      (f : OvsFabric) (ifc : Text) → Alike f (get_ifc_of_port ovs ip_string f ifc).2
  unfolding get_ifc_of_port run_cmd
  get_ifc_of_port-Alike f ifc = ground arith

  del_flows-Alike :
      (f : OvsFabric) (flows : List Text) → Alike f (del_flows ovs ip_string f flows).1
  unfolding del_flows run_cmd
  del_flows-Alike f flows = ground arith

  -- One command after another, up to the first error.
  then-Alike :
      (f : OvsFabric) (m : Option OvsError × OvsFabric)
      (k : OvsFabric → Option OvsError × OvsFabric)
      → Alike f m.1
      → ((g : OvsFabric) → Alike g (k g).1)
      → Alike f (and_then m k).1
  then-Alike f (some e, g) k h j = h
  then-Alike f (none, g) k h j = j g ∙ h

  clean-Alike :
      (f : OvsFabric) (m : Option OvsError × OvsFabric) (k : OvsFabric → OvsFabric)
      → Alike f m.1
      → ((g : OvsFabric) → Alike g (k g))
      → Alike f (on_error m k).1
  clean-Alike f (some e, g) k h j = j g ∙ h
  clean-Alike f (none, g) k h j = h

  connect_local-Alike :
      (f : OvsFabric) (ifc : LocalNetIfc) → Alike f (connect_local ovs ip_string f ifc).1
  unfolding connect_local add_local_ifc_flows
  connect_local-Alike f ifc =
      let r = get_ifc_of_port ovs ip_string f ifc.name in
      then-Alike f (r.0, r.2) (λ g. add_local_ifc_flows ovs ip_string g r.1 ifc)
        (get_ifc_of_port-Alike f ifc.name) (λ g. add_flows-Alike g _)

  connect_or_delete-Alike :
      (f : OvsFabric) (ifc : LocalNetIfc) → Alike f (connect_or_delete ovs ip_string f ifc).1
  unfolding connect_or_delete delete_ifc
  connect_or_delete-Alike f ifc =
      clean-Alike f (connect_local ovs ip_string f ifc)
        (λ g. (delete_ifc ovs ip_string g ifc.name).1) (connect_local-Alike f ifc)
        (λ g. run_simple-Alike g _)

  pub set_up_local-Alike :
      (f : OvsFabric) (ifc : LocalNetIfc) → Alike f (set_up_local ovs ip_string f ifc).1
  unfolding set_up_local create_ifc
  set_up_local-Alike f ifc =
      then-Alike f (create_ifc ovs ip_string f ifc.name ifc.guest_mac)
        (λ g. connect_or_delete ovs ip_string g ifc) (run_simple-Alike f _)
        (λ g. connect_or_delete-Alike g ifc)

  pub add_remote_ifc_flows-Alike :
      (f : OvsFabric) (ifc : RemoteNetIfc) → Alike f (add_remote_ifc_flows ovs ip_string f ifc).1
  unfolding add_remote_ifc_flows
  add_remote_ifc_flows-Alike f ifc = add_flows-Alike f _

  pub delete_remote_ifc_flows-Alike :
      (f : OvsFabric) (ifc : RemoteNetIfc) → Alike f (delete_remote_ifc_flows ovs ip_string f ifc).1
  unfolding delete_remote_ifc_flows
  delete_remote_ifc_flows-Alike f ifc = del_flows-Alike f _

  delete_flows_and_ifc-Alike :
      (f : OvsFabric) (of_port : ℕ) (ifc : LocalNetIfc)
      → Alike f (delete_flows_and_ifc ovs ip_string f of_port ifc).1
  unfolding delete_flows_and_ifc delete_local_ifc_flows delete_ifc
  delete_flows_and_ifc-Alike f of_port ifc =
      then-Alike f (delete_local_ifc_flows ovs ip_string f of_port ifc)
        (λ g. delete_ifc ovs ip_string g ifc.name) (del_flows-Alike f _) (λ g. run_simple-Alike g _)

  pub tear_down_local-Alike :
      (f : OvsFabric) (ifc : LocalNetIfc) → Alike f (tear_down_local ovs ip_string f ifc).1
  unfolding tear_down_local
  tear_down_local-Alike f ifc =
      let r = get_ifc_of_port ovs ip_string f ifc.name in
      then-Alike f (r.0, r.2) (λ g. delete_flows_and_ifc ovs ip_string g r.1 ifc)
        (get_ifc_of_port-Alike f ifc.name) (λ g. delete_flows_and_ifc-Alike g r.1 ifc)
