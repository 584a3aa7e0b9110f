-- ===== src/Ovs/Commands.antt =====
-- The commands that the fabric runs, ovs-vsctl and ovs-ofctl: the functions new...Cmd of
-- staging/kos/pkg/networkfabric/ovs/ovs.go.
use kube_examples.Common.{List, [], ◌∷◌, ◌++◌}
use kube_examples.GoText.{Text, codes}
use kube_examples.GoText.Pieces.{join, replace_char}

-- An `exec.Cmd`, with the whole of its standard input.
pub record Cmd : Type 0 where
  pub program : Text
  pub args : List Text
  pub stdin : Text

abbrev vsctl : List Text → Cmd
vsctl args = record { program = codes "ovs-vsctl"; args = args; stdin = [] }

abbrev newline : Text
newline = b'\n' ∷ []

-- `newCreateBridgeCmd`.
unfoldable pub new_create_bridge_cmd : Text → Cmd
new_create_bridge_cmd bridge = vsctl (
    codes "--may-exist"
    ∷ codes "add-br"
    ∷ bridge
    ∷ codes "--"
    ∷ codes "set"
    ∷ codes "bridge"
    ∷ bridge
    ∷ codes "protocols=OpenFlow10,OpenFlow11,OpenFlow12,OpenFlow13,OpenFlow14,OpenFlow15"
    ∷ [])

-- `newAddVTEPCmd`.
unfoldable pub new_add_vtep_cmd : Text → Text → Cmd
new_add_vtep_cmd bridge vtep = vsctl (
    codes "--may-exist"
    ∷ codes "add-port"
    ∷ bridge
    ∷ vtep
    ∷ codes "--"
    ∷ codes "set"
    ∷ codes "interface"
    ∷ vtep
    ∷ codes "type=vxlan"
    ∷ codes "option:key=flow"
    ∷ codes "option:remote_ip=flow"
    ∷ [])

-- `newGetIfcOFportCmd`.
unfoldable pub new_get_ifc_of_port_cmd : Text → Cmd
new_get_ifc_of_port_cmd ifc = vsctl (codes "get" ∷ codes "interface" ∷ ifc ∷ codes "ofport" ∷ [])

-- `newCreateIfcCmd`, of the text of the MAC address.
unfoldable pub new_create_ifc_cmd : Text → Text → Text → Cmd
new_create_ifc_cmd bridge ifc mac = vsctl (
    codes "add-port"
    ∷ bridge
    ∷ ifc
    ∷ codes "--"
    ∷ codes "set"
    ∷ codes "interface"
    ∷ ifc
    ∷ codes "type=internal"
    ∷ (codes "mac=" ++ replace_char mac b':' (b'\\' ∷ b':' ∷ []))
    ∷ [])

-- `newDeleteBridgePortCmd`.
unfoldable pub new_delete_bridge_port_cmd : Text → Text → Cmd
new_delete_bridge_port_cmd bridge ifc = vsctl (codes "del-port" ∷ bridge ∷ ifc ∷ [])

-- `newAddFlowsCmd`.
unfoldable pub new_add_flows_cmd : Text → List Text → Cmd
new_add_flows_cmd bridge flows = record {
  program = codes "ovs-ofctl";
  args = codes "--bundle" ∷ codes "add-flows" ∷ bridge ∷ codes "-" ∷ [];
  stdin = join flows newline ++ newline;
}

-- `newDelFlowsCmd`.
unfoldable pub new_del_flows_cmd : Text → List Text → Cmd
new_del_flows_cmd bridge flows = record {
  program = codes "ovs-ofctl";
  args = codes "--bundle" ∷ codes "del-flows" ∷ bridge ∷ codes "-" ∷ [];
  stdin = join flows newline ++ newline;
}

-- `newGetFlowsCmd`.
unfoldable pub new_get_flows_cmd : Text → Cmd
new_get_flows_cmd bridge = record {
  program = codes "ovs-ofctl";
  args = codes "dump-flows" ∷ bridge ∷ [];
  stdin = [];
}

-- `newListOFportsAndIfcNamesCmd`.
unfoldable pub new_list_of_ports_and_ifc_names_cmd : Cmd
new_list_of_ports_and_ifc_names_cmd = vsctl (
    codes "-f"
    ∷ codes "table"
    ∷ codes "--no-heading"
    ∷ codes "--"
    ∷ codes "--columns=ofport,name"
    ∷ codes "list"
    ∷ codes "Interface"
    ∷ [])
