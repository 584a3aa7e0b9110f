-- ===== src/Ovs/Fabric.antt =====
-- The state of the fabric and its operations on interfaces, in
-- staging/kos/pkg/networkfabric/ovs/ovs.go. Open vSwitch is a parameter: what it answers to a
-- command may depend on all of the commands that it was given before.
pub mod Keeps
pub mod Locks
pub mod History
pub mod Cleaning
use kube_examples.Common.{
  ℕ, Bool, true, false, not, ◌&&◌, ◌||◌, Option, none, some, List, [], ◌∷◌, ◌++◌, ◌==◌,
  if◌then◌else◌, Go, ok, panic, ◌>>=◌,
}
use kube_examples.GoText.{Text, codes}
use kube_examples.GoText.Pieces.{join, trim_right}
use kube_examples.Util.{make_uint32_from_ipv4}
use kube_examples.Ovs.Commands.{
  Cmd, new_create_bridge_cmd, new_add_vtep_cmd, new_get_ifc_of_port_cmd, new_create_ifc_cmd,
  new_delete_bridge_port_cmd, new_add_flows_cmd, new_del_flows_cmd,
}
use kube_examples.Ovs.Flows.{
  mac_string, default_flows, local_ifc_flows, local_ifc_matches, remote_ifc_flows,
  remote_ifc_matches,
}
use kube_examples.Ovs.Parsing.{LocalNetIfc, RemoteNetIfc, parse_of_port}

-- What a command prints, and the text of its error, if any.
pub record CmdResult : Type 0 where
  pub out : Text
  pub err : Option Text

-- `vniAndIP`.
pub record VniAndIp : Type 0 where
  pub vni : ℕ
  pub ip : ℕ

-- `ovsFabric`: with the pairs in `lockedVNIIPPairs`, and the commands that were run.
pub record OvsFabric : Type 0 where
  pub bridge : Text
  pub vtep : Text
  pub vtep_of_port : ℕ
  pub locked_vni_ip_pairs : List VniAndIp
  pub commands : List Cmd

-- The errors: of a command, with the command, the text of the error and what was printed; of the
-- transactions on flows, `addFlowsErr` and `delFlowsErr`; and of a locked pair.
pub data OvsError : Type 0 where
  command_failed : Cmd → Text → Text → OvsError
  add_flows_err : Text → Text → Text → OvsError
  del_flows_err : Text → Text → Text → OvsError
  already_locked : VniAndIp → OvsError

-- What follows a step, unless the step returned an error.
abbrev pub and_then :
    Option OvsError × OvsFabric
    → (OvsFabric → Option OvsError × OvsFabric)
    → Option OvsError × OvsFabric
and_then (some e, f) next = (some e, f)
and_then (none, f) next = next f

-- What is done on the way out of a step that returned an error.
abbrev pub on_error :
    Option OvsError × OvsFabric → (OvsFabric → OvsFabric) → Option OvsError × OvsFabric
on_error (none, f) clean_up = (none, f)
on_error (some e, f) clean_up = (some e, clean_up f)

abbrev pub same_pair : VniAndIp → VniAndIp → Bool
same_pair p q = p.vni == q.vni && p.ip == q.ip

-- Whether a pair is in `lockedVNIIPPairs`.
unfoldable pub is_locked : List VniAndIp → VniAndIp → Bool
is_locked [] q = false
is_locked (p ∷ pairs) q = let rest = is_locked pairs q in if same_pair p q then true else rest

-- `delete(lockedVNIIPPairs, q)`.
unfoldable pub unlock : List VniAndIp → VniAndIp → List VniAndIp
unlock [] q = []
unlock (p ∷ pairs) q = let rest = unlock pairs q in if same_pair p q then rest else p ∷ rest

-- `lockVNIIPPair`, of the pair.
unfoldable pub lock_pair : OvsFabric → VniAndIp → Option OvsError × OvsFabric
lock_pair f pair =
    if is_locked f.locked_vni_ip_pairs pair
    then (some (already_locked pair), f)
    else (none, record f { locked_vni_ip_pairs = pair ∷ f.locked_vni_ip_pairs })

-- `lockVNIIPPair`.
unfoldable pub lock_vni_ip_pair : OvsFabric → ℕ → List ℕ → Go (Option OvsError × OvsFabric)
lock_vni_ip_pair f vni ip = do
  addr ← make_uint32_from_ipv4 ip
  ok (lock_pair f (record { vni = vni; ip = addr }))

unfoldable pub unlock_pair : OvsFabric → VniAndIp → OvsFabric
unlock_pair f pair = record f { locked_vni_ip_pairs = unlock f.locked_vni_ip_pairs pair }

-- `unlockVNIIPPair`.
unfoldable pub unlock_vni_ip_pair : OvsFabric → ℕ → List ℕ → Go OvsFabric
unlock_vni_ip_pair f vni ip = do
  addr ← make_uint32_from_ipv4 ip
  ok (unlock_pair f (record { vni = vni; ip = addr }))

-- `ip_string` is `IP.String` of package net.
module _ (ovs : List Cmd → Cmd → CmdResult) (ip_string : List ℕ → Text) where
  -- `CombinedOutput` of a command.
  unfoldable pub run_cmd : OvsFabric → Cmd → CmdResult × OvsFabric
  run_cmd f cmd = (ovs f.commands cmd, record f { commands = f.commands ++ cmd ∷ [] })

  -- A command whose error is passed on.
  unfoldable pub run_simple : OvsFabric → Cmd → Option OvsError × OvsFabric
  run_simple f cmd =
      let (r, g) = run_cmd f cmd in
      elim r.err [ none ↦ (none, g) | some e ↦ (some (command_failed cmd e r.out), g) ]

  -- `createBridge`, `addVTEP`, `createIfc` and `deleteIfc`.
  unfoldable pub create_bridge : OvsFabric → Option OvsError × OvsFabric
  create_bridge f = run_simple f (new_create_bridge_cmd f.bridge)

  unfoldable pub add_vtep : OvsFabric → Option OvsError × OvsFabric
  add_vtep f = run_simple f (new_add_vtep_cmd f.bridge f.vtep)

  unfoldable pub create_ifc : OvsFabric → Text → List ℕ → Option OvsError × OvsFabric
  create_ifc f ifc mac = run_simple f (new_create_ifc_cmd f.bridge ifc (mac_string mac))

  unfoldable pub delete_ifc : OvsFabric → Text → Option OvsError × OvsFabric
  delete_ifc f ifc = run_simple f (new_delete_bridge_port_cmd f.bridge ifc)

  -- A transaction on flows. Its error has the flows, the bridge, and the text of the error with what
  -- was printed; TrimRight has no spaces to remove behind the flows.
  unfoldable pub add_flows : OvsFabric → List Text → Option OvsError × OvsFabric
  add_flows f flows =
      let (r, g) = run_cmd f (new_add_flows_cmd f.bridge flows) in
      elim r.err [
        | none ↦ (none, g)
        | some e ↦ (
          some
              (add_flows_err (join flows (codes " ")) f.bridge (join (e ∷ r.out ∷ []) (codes " "))),
          g,
        )
      ]

  unfoldable pub del_flows : OvsFabric → List Text → Option OvsError × OvsFabric
  del_flows f flows =
      let (r, g) = run_cmd f (new_del_flows_cmd f.bridge flows) in
      elim r.err [
        | none ↦ (none, g)
        | some e ↦ (
          some
              (del_flows_err (join flows (codes " ")) f.bridge (join (e ∷ r.out ∷ []) (codes " "))),
          g,
        )
      ]

  -- `addDefaultFlows`, `addLocalIfcFlows`, `deleteLocalIfcFlows`, `addRemoteIfcFlows` and
  -- `deleteRemoteIfcFlows`.
  unfoldable pub add_default_flows : OvsFabric → Option OvsError × OvsFabric
  add_default_flows f = add_flows f default_flows

  unfoldable pub add_local_ifc_flows : OvsFabric → ℕ → LocalNetIfc → Option OvsError × OvsFabric
  add_local_ifc_flows f of_port ifc =
      add_flows f (local_ifc_flows of_port ifc.vni ifc.guest_mac (ip_string ifc.guest_ip))

  unfoldable pub delete_local_ifc_flows : OvsFabric → ℕ → LocalNetIfc → Option OvsError × OvsFabric
  delete_local_ifc_flows f of_port ifc =
      del_flows f (local_ifc_matches of_port ifc.vni ifc.guest_mac (ip_string ifc.guest_ip))

  unfoldable pub add_remote_ifc_flows : OvsFabric → RemoteNetIfc → Option OvsError × OvsFabric
  add_remote_ifc_flows f ifc = add_flows f (
      remote_ifc_flows f.vtep_of_port ifc.vni ifc.guest_mac (ip_string ifc.host_ip)
        (ip_string ifc.guest_ip))

  unfoldable pub delete_remote_ifc_flows : OvsFabric → RemoteNetIfc → Option OvsError × OvsFabric
  delete_remote_ifc_flows f ifc =
      del_flows f (remote_ifc_matches ifc.vni ifc.guest_mac (ip_string ifc.guest_ip))

  -- `getIfcOFport`: the port, 0 with an error.
  unfoldable pub get_ifc_of_port : OvsFabric → Text → Option OvsError × ℕ × OvsFabric
  get_ifc_of_port f ifc =
      let cmd = new_get_ifc_of_port_cmd ifc in
      let (r, g) = run_cmd f cmd in
      let out = trim_right (codes "\n") r.out in
      elim r.err [
        | none ↦ (none, parse_of_port out, g)
        | some e ↦ (some (command_failed cmd e out), 0, g)
      ]

  -- `CreateLocalIfc`: the port and the flows of an interface that was created.
  unfoldable pub connect_local : OvsFabric → LocalNetIfc → Option OvsError × OvsFabric
  connect_local f ifc =
      let (err, of_port, g) = get_ifc_of_port f ifc.name in
      and_then (err, g) (λ h. add_local_ifc_flows h of_port ifc)

  -- The clean up of it: the interface is deleted where the rest failed, whatever comes of that.
  unfoldable pub connect_or_delete : OvsFabric → LocalNetIfc → Option OvsError × OvsFabric
  connect_or_delete f ifc = on_error (connect_local f ifc) (λ g. (delete_ifc g ifc.name).1)

  -- What follows the lock.
  unfoldable pub set_up_local : OvsFabric → LocalNetIfc → Option OvsError × OvsFabric
  set_up_local f ifc = and_then (create_ifc f ifc.name ifc.guest_mac) (λ g. connect_or_delete g ifc)

  -- The deferred unlock of `CreateLocalIfc` and `CreateRemoteIfc`.
  unfoldable pub unlock_on_error :
      Option OvsError × OvsFabric → ℕ → List ℕ → Go (Option OvsError × OvsFabric)
  unlock_on_error (none, f) vni ip = ok (none, f)
  unlock_on_error (some e, f) vni ip = do g ← unlock_vni_ip_pair f vni ip; ok (some e, g)

  -- What is done under the lock of a pair, if it is free.
  unfoldable pub with_lock :
      (OvsFabric → Option OvsError × OvsFabric)
      → Option OvsError × OvsFabric
      → ℕ
      → List ℕ
      → Go (Option OvsError × OvsFabric)
  with_lock work (some e, f) vni ip = ok (some e, f)
  with_lock work (none, f) vni ip = unlock_on_error (work f) vni ip

  -- `CreateLocalIfc`.
  unfoldable pub create_local_ifc : OvsFabric → LocalNetIfc → Go (Option OvsError × OvsFabric)
  create_local_ifc f ifc = do
    r ← lock_vni_ip_pair f ifc.vni ifc.guest_ip
    with_lock (λ g. set_up_local g ifc) r ifc.vni ifc.guest_ip

  -- `CreateRemoteIfc`.
  unfoldable pub create_remote_ifc : OvsFabric → RemoteNetIfc → Go (Option OvsError × OvsFabric)
  create_remote_ifc f ifc = do
    r ← lock_vni_ip_pair f ifc.vni ifc.guest_ip
    with_lock (λ g. add_remote_ifc_flows g ifc) r ifc.vni ifc.guest_ip

  -- The commands of `DeleteLocalIfc`, up to the first error.
  unfoldable pub delete_flows_and_ifc : OvsFabric → ℕ → LocalNetIfc → Option OvsError × OvsFabric
  delete_flows_and_ifc f of_port ifc =
      and_then (delete_local_ifc_flows f of_port ifc) (λ g. delete_ifc g ifc.name)

  unfoldable pub tear_down_local : OvsFabric → LocalNetIfc → Option OvsError × OvsFabric
  tear_down_local f ifc =
      let (err, of_port, g) = get_ifc_of_port f ifc.name in
      and_then (err, g) (λ h. delete_flows_and_ifc h of_port ifc)

  -- The unlock at the end of `DeleteLocalIfc` and `DeleteRemoteIfc`, where there was no error.
  unfoldable pub then_unlock :
      Option OvsError × OvsFabric → ℕ → List ℕ → Go (Option OvsError × OvsFabric)
  then_unlock (some e, f) vni ip = ok (some e, f)
  then_unlock (none, f) vni ip = do g ← unlock_vni_ip_pair f vni ip; ok (none, g)

  -- `DeleteLocalIfc`.
  unfoldable pub delete_local_ifc : OvsFabric → LocalNetIfc → Go (Option OvsError × OvsFabric)
  delete_local_ifc f ifc = then_unlock (tear_down_local f ifc) ifc.vni ifc.guest_ip

  -- `DeleteRemoteIfc`.
  unfoldable pub delete_remote_ifc : OvsFabric → RemoteNetIfc → Go (Option OvsError × OvsFabric)
  delete_remote_ifc f ifc = then_unlock (delete_remote_ifc_flows f ifc) ifc.vni ifc.guest_ip

  -- `initBridge`, from the port of the tunnel endpoint on.
  unfoldable pub init_vtep : OvsFabric → Option OvsError × OvsFabric
  init_vtep f =
      let (err, vtep_of_port, g) = get_ifc_of_port f f.vtep in
      and_then (err, g) (λ h. add_default_flows (record h { vtep_of_port = vtep_of_port }))

  unfoldable pub init_ports : OvsFabric → Option OvsError × OvsFabric
  init_ports f = and_then (add_vtep f) init_vtep

  -- `initBridge`.
  unfoldable pub init_bridge : OvsFabric → Text → Option OvsError × OvsFabric
  init_bridge f name =
      and_then (create_bridge (record f { bridge = name; vtep = codes "vtep" })) init_ports
