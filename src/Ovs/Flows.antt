-- ===== src/Ovs/Flows.antt =====
-- The texts of the flows that the fabric adds and deletes, in
-- staging/kos/pkg/networkfabric/ovs/ovs.go.
use kube_examples.Common.{
  ℕ, ◌+◌, ◌*◌, ◌%◌, ◌^◌, ◌&&◌, ◌||◌, List, [], ◌∷◌, ◌++◌, ltb, ◌==◌, if◌then◌else◌,
}
use kube_examples.GoText.{Text, codes, format_decimal}
use kube_examples.GoText.Hex.{format_hex, format_byte}

-- `HardwareAddr.String`: the bytes with colons between them.
unfoldable pub mac_string : List ℕ → Text
mac_string [] = []
mac_string (b ∷ []) = format_byte b
mac_string (b ∷ c ∷ bs) = format_byte b ++ b':' ∷ mac_string (c ∷ bs)

-- `binary.Uvarint`, the number: seven bits of each byte, the low ones first, up to a byte below 128.
-- 0 where there is no such byte, or where the number takes more than 64 bits. The bits are added,
-- as no two of the summands have a bit in common.
unfoldable pub uvarint_from : ℕ → ℕ → List ℕ → ℕ
uvarint_from i x [] = 0
uvarint_from i x (b ∷ buf) =
    let rest = uvarint_from (i + 1) ((x + b % 128 * 2 ^ (7 * i)) % 2 ^ 64) buf in
    if ltb b 128
    then if ltb 9 i || (i == 9 && ltb 1 b) then 0 else (x + b * 2 ^ (7 * i)) % 2 ^ 64
    else rest

unfoldable pub uvarint : List ℕ → ℕ
uvarint buf = uvarint_from 0 0 buf

-- The flows that `addDefaultFlows` adds.
unfoldable pub default_flows : List Text
default_flows =
    codes "table=0,priority=1,actions=resubmit(,1)" ∷ codes "table=1,priority=1,actions=drop" ∷ []

-- `addLocalIfcFlows`: the flow out of the port, those to it for its MAC address, and for ARP. The IP
-- address is its text.
unfoldable pub tunneling_flow : ℕ → ℕ → Text
tunneling_flow of_port tun_id =
    codes "table=0,in_port="
    ++ format_decimal of_port
    ++ codes ",actions=set_field:"
    ++ format_hex tun_id
    ++ codes "->tun_id,resubmit(,1)"

unfoldable pub dl_traffic_flow : ℕ → ℕ → List ℕ → Text
dl_traffic_flow of_port tun_id dl_dst =
    codes "table=1,tun_id="
    ++ format_hex tun_id
    ++ codes ",dl_dst="
    ++ mac_string dl_dst
    ++ codes ",actions=output:"
    ++ format_decimal of_port

unfoldable pub arp_flow : ℕ → ℕ → Text → Text
arp_flow of_port tun_id arp_tpa =
    codes "table=1,tun_id="
    ++ format_hex tun_id
    ++ codes ",arp,arp_tpa="
    ++ arp_tpa
    ++ codes ",actions=output:"
    ++ format_decimal of_port

unfoldable pub local_ifc_flows : ℕ → ℕ → List ℕ → Text → List Text
local_ifc_flows of_port tun_id dl_dst arp_tpa =
    tunneling_flow of_port tun_id
    ∷ dl_traffic_flow of_port tun_id dl_dst
    ∷ arp_flow of_port tun_id arp_tpa
    ∷ []

-- `deleteLocalIfcFlows`: what the flows to delete match.
unfoldable pub local_ifc_matches : ℕ → ℕ → List ℕ → Text → List Text
local_ifc_matches of_port tun_id dl_dst arp_tpa =
    (codes "in_port=" ++ format_decimal of_port)
    ∷ (codes "tun_id=" ++ format_hex tun_id ++ codes ",dl_dst=" ++ mac_string dl_dst)
    ∷ (codes "tun_id=" ++ format_hex tun_id ++ codes ",arp,arp_tpa=" ++ arp_tpa)
    ∷ []

-- What the two flows of `addRemoteIfcFlows` have in common: in front of their own matches, and
-- behind them.
unfoldable pub remote_start : List ℕ → ℕ → Text
remote_start dl_dst tun_id =
    codes "table=1,cookie="
    ++ format_decimal (uvarint dl_dst)
    ++ codes ",tun_id="
    ++ format_hex tun_id

unfoldable pub remote_actions : Text → ℕ → Text
remote_actions tun_dst vtep_of_port =
    codes ",actions=set_field:"
    ++ tun_dst
    ++ codes "->tun_dst,output:"
    ++ format_decimal vtep_of_port

-- `addRemoteIfcFlows`.
unfoldable pub remote_ifc_flows : ℕ → ℕ → List ℕ → Text → Text → List Text
remote_ifc_flows vtep_of_port tun_id dl_dst tun_dst arp_tpa =
    (remote_start dl_dst tun_id
      ++ codes ",dl_dst="
      ++ mac_string dl_dst
      ++ remote_actions tun_dst vtep_of_port)
    ∷ (remote_start dl_dst tun_id
        ++ codes ",arp,arp_tpa="
        ++ arp_tpa
        ++ remote_actions tun_dst vtep_of_port)
    ∷ []

-- `deleteRemoteIfcFlows`.
unfoldable pub remote_ifc_matches : ℕ → List ℕ → Text → List Text
remote_ifc_matches tun_id dl_dst arp_tpa =
    (codes "table=1,tun_id=" ++ format_hex tun_id ++ codes ",dl_dst=" ++ mac_string dl_dst)
    ∷ (codes "table=1,tun_id=" ++ format_hex tun_id ++ codes ",arp,arp_tpa=" ++ arp_tpa)
    ∷ []
