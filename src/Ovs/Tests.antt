-- ===== src/Ovs/Tests.antt =====
-- The Open vSwitch fabric on concrete inputs.
use kube_examples.Common.{
  ℕ, ◌≡◌, ◌<◌, ◌^◌, refl, false, none, List, [], ◌∷◌, ◌++◌, All, Returns, arith,
}
use kube_examples.GoText.{Text, codes}
use kube_examples.Util.{make_ipv4_from_uint32}
use kube_examples.Ovs.Commands.{Cmd}
use kube_examples.Ovs.Parsing.{LocalNetIfc, RemoteNetIfc}
use kube_examples.GoNet.{v4_in_v6_prefix}
use kube_examples.GoText.Hex.{format_hex}
use kube_examples.GoText.Pieces.{has_prefix}
use kube_examples.GoText.Regexp.{runs}
use kube_examples.GoText.Regexp.Finding.{Clear}
use kube_examples.Ovs.Parsing.{extract_vni, extract_host_ip}
use kube_examples.Ovs.Parsing.Extraction.{Stops, extract_vni-format_hex, extract_host_ip-format_hex}
use kube_examples.Ovs.Fabric.{CmdResult, OvsFabric, is_locked, set_up_local}
use kube_examples.Ovs.Fabric.Locks.{Locks, Holds}
use kube_examples.Ovs.Fabric.History.{
  FabricOp, create_local, delete_local, create_remote, IsLong, numbers, Lived, run_ops,
  run_ops-Lived,
}
use kube_examples.Ovs.Fabric.Cleaning.{CleansUp, set_up_local-CleansUp}

-- Every command works and prints a port.
abbrev port_5 : List Cmd → Cmd → CmdResult
port_5 history cmd = record { out = codes "5"; err = none }

-- The texts of addresses do not matter here.
abbrev no_text : List ℕ → Text
no_text ip = []

abbrev fresh : OvsFabric
fresh = record {
  bridge = codes "kos";
  vtep = codes "vtep";
  vtep_of_port = 1;
  locked_vni_ip_pairs = [];
  commands = [];
}

abbrev local_ifc : LocalNetIfc
local_ifc = record {
  name = codes "kos1";
  vni = 7;
  guest_mac = 2 ∷ 0 ∷ 0 ∷ 1 ∷ 0 ∷ 7 ∷ [];
  guest_ip = 10 ∷ 0 ∷ 0 ∷ 1 ∷ [];
}

abbrev remote_ifc : RemoteNetIfc
remote_ifc = record {
  vni = 7;
  guest_mac = 2 ∷ 0 ∷ 0 ∷ 1 ∷ 0 ∷ 7 ∷ [];
  guest_ip = 10 ∷ 0 ∷ 0 ∷ 1 ∷ [];
  host_ip = 192 ∷ 168 ∷ 1 ∷ 1 ∷ [];
}

-- The second one fails: its pair is locked.
abbrev ops : List FabricOp
ops = create_local local_ifc ∷ create_remote remote_ifc ∷ delete_local local_ifc ∷ []

ops-IsLong : All IsLong ops
ops-IsLong = (omega arith, (omega arith, (omega arith, tt)))

abbrev unlocked : Locks
unlocked p = false

fresh-Holds : Holds fresh unlocked
unfolding is_locked
fresh-Holds p = refl

run_ops-Lived_example : Returns (run_ops port_5 no_text fresh ops) (λ r.
    (k : Locks) × Lived port_5 no_text unlocked ops (numbers ops ops-IsLong) r.0 k × Holds r.1 k)
run_ops-Lived_example = run_ops-Lived port_5 no_text fresh unlocked ops ops-IsLong fresh-Holds

set_up_local-CleansUp_example :
    CleansUp port_5 no_text local_ifc fresh (set_up_local port_5 no_text fresh local_ifc)
set_up_local-CleansUp_example = set_up_local-CleansUp port_5 no_text local_ifc fresh

-- A dumped flow, in front of the VNI and behind it.
abbrev dump_start : Text
dump_start = codes "table=1, "

abbrev dump_end : Text
dump_end = codes ",dl_dst=02:00:00:01:00:07"

dump_end-Stops : Stops dump_end
unfolding runs
dump_end-Stops = refl

dump_start-Clear :
    Clear (codes "tun_id=") dump_start (codes "tun_id=" ++ (format_hex 300 ++ dump_end))
unfolding has_prefix
dump_start-Clear = (refl, (refl, (refl, (refl, (refl, (refl, (refl, (refl, (refl, tt)))))))))

small_vni : 300 < 2 ^ 32
small_vni = omega arith

extract_vni-format_hex_example :
    extract_vni (dump_start ++ (codes "tun_id=" ++ (format_hex 300 ++ dump_end))) ≡ 300
extract_vni-format_hex_example =
    extract_vni-format_hex dump_start 300 dump_end small_vni dump_end-Stops dump_start-Clear

-- An action of a flow of a remote interface, in front of the address and behind it.
abbrev action_start : Text
action_start = codes "actions="

abbrev action_end : Text
action_end = codes "->NXM"

action_end-Stops : Stops action_end
unfolding runs
action_end-Stops = refl

action_start-Clear :
    Clear (codes "load:") action_start (codes "load:" ++ (format_hex 3232235777 ++ action_end))
unfolding has_prefix
action_start-Clear = (refl, (refl, (refl, (refl, (refl, (refl, (refl, (refl, tt))))))))

small_address : 3232235777 < 2 ^ 32
small_address = omega arith

extract_host_ip-format_hex_example :
    extract_host_ip (action_start ++ (codes "load:" ++ (format_hex 3232235777 ++ action_end)))
    ≡ v4_in_v6_prefix ++ make_ipv4_from_uint32 3232235777
extract_host_ip-format_hex_example =
    extract_host_ip-format_hex action_start 3232235777 action_end small_address action_end-Stops
      action_start-Clear
