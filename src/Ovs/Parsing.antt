-- ===== src/Ovs/Parsing.antt =====
-- Reading flows and interfaces back from what ovs-ofctl and ovs-vsctl print, in
-- staging/kos/pkg/networkfabric/ovs/ovs.go. Go's maps are lists of keys and values in the order in
-- which the keys came; Go visits them in any order.
pub mod Extraction
use kube_examples.Common.{
  ℕ, ◌/◌, ◌%◌, ◌^◌, Bool, not, ◌&&◌, ◌||◌, Option, none, some, List, [], ◌∷◌, ◌++◌, map, keep, ◌==◌,
  if◌then◌else◌, get_elem?, Go, ok, ◌>>=◌, deref,
}
use kube_examples.GoNet.{v4_in_v6_prefix}
use kube_examples.GoText.{Text, text_eq, codes, split}
use kube_examples.GoText.Hex.{parse_value}
use kube_examples.GoText.Pieces.{contains, trim_left, trim, fields}
use kube_examples.GoText.Regexp.{
  Regexp, class, plus, then_, either, literal, option, times, between, find_string,
}

-- `LocalNetIfc`, of package networkfabric.
pub record LocalNetIfc : Type 0 where
  pub name : Text
  pub vni : ℕ
  pub guest_mac : List ℕ
  pub guest_ip : List ℕ

-- `RemoteNetIfc`.
pub record RemoteNetIfc : Type 0 where
  pub vni : ℕ
  pub guest_mac : List ℕ
  pub guest_ip : List ℕ
  pub host_ip : List ℕ

abbrev pub is_dec : ℕ → Bool
is_dec = between b'0' b'9'

abbrev pub is_hex : ℕ → Bool
is_hex c = between b'0' b'9' c || between b'a' b'f' c || between b'A' b'F' c

-- `decNbrRegexpStr` and the others.
abbrev pub dec_nbr : Regexp
dec_nbr = plus is_dec

abbrev pub output : Regexp
output = then_ (literal (codes "output:")) dec_nbr

abbrev pub hex_nbr : Regexp
hex_nbr = then_ (literal (codes "0")) (then_ (class λ c. c == b'x' || c == b'X') (plus is_hex))

abbrev pub tun_id : Regexp
tun_id = then_ (literal (codes "tun_id=")) hex_nbr

abbrev pub load : Regexp
load = then_ (literal (codes "load:")) hex_nbr

abbrev pub cookie : Regexp
cookie = then_ (literal (codes "cookie=")) hex_nbr

abbrev octet : Regexp
octet = either (then_ (literal (codes "25")) (class (between b'0' b'5'))) (
    either (then_ (literal (codes "2")) (then_ (class (between b'0' b'4')) (class is_dec)))
      (then_ (option (class (between b'0' b'1'))) (then_ (class is_dec) (option (class is_dec)))))

abbrev pub ipv4 : Regexp
ipv4 = then_ (times 3 (then_ octet (literal (codes ".")))) octet

abbrev pub arp_tpa : Regexp
arp_tpa = then_ (literal (codes "arp_tpa=")) ipv4

abbrev pub mac : Regexp
mac =
    then_ (times 5 (then_ (times 2 (class is_hex)) (class λ c. c == b':' || c == b'-')))
      (times 2 (class is_hex))

-- `hexPrefixChars`.
abbrev pub hex_prefix_chars : Text
hex_prefix_chars = codes "0xX"

-- `isLocal`.
unfoldable pub is_local : Text → Bool
is_local flow = contains flow (codes "in_port") || contains flow (codes "actions=output:")

-- `isRemote`.
unfoldable pub is_remote : Text → Bool
is_remote flow = contains flow (codes "NXM_NX_TUN_IPV4_DST")

-- `isARP`.
unfoldable pub is_arp : Text → Bool
is_arp flow = contains flow (codes "arp")

-- `isTunneling`.
unfoldable pub is_tunneling : Text → Bool
is_tunneling flow = contains flow (codes "in_port")

-- `onlyUsefulLocalFlowsFunc`.
unfoldable pub only_useful_local_flows : List Text → List Text
only_useful_local_flows flows = keep (λ flow. is_local flow && not (is_tunneling flow)) flows

-- `onlyRemoteFlowsFunc`.
unfoldable pub only_remote_flows : List Text → List Text
only_remote_flows flows = keep is_remote flows

-- `parseGetFlowsOutput`.
unfoldable pub parse_get_flows_output : Text → List Text
parse_get_flows_output out = split b'\n' out

-- `parseOFport`, with the value that `ParseUint` returns whatever its error.
unfoldable pub parse_of_port : Text → ℕ
parse_of_port of_port = parse_value 10 16 of_port

-- `arpOrDlTrafficFlowOFport`.
unfoldable pub arp_or_dl_traffic_flow_of_port : Text → Text
arp_or_dl_traffic_flow_of_port flow = find_string dec_nbr (find_string output flow)

-- `usefulLocalFlowOFport`.
unfoldable pub useful_local_flow_of_port : Text → ℕ
useful_local_flow_of_port flow = parse_of_port (arp_or_dl_traffic_flow_of_port flow)

-- `extractVNI`.
unfoldable pub extract_vni : Text → ℕ
extract_vni flow =
    parse_value 16 32 (trim_left hex_prefix_chars (find_string hex_nbr (find_string tun_id flow)))

-- `hexStrToIPv4`.
unfoldable pub hex_str_to_ipv4 : Text → List ℕ
hex_str_to_ipv4 hex_str =
    let i = parse_value 16 32 (trim_left hex_prefix_chars hex_str) in
    v4_in_v6_prefix
    ++ (i / 2 ^ 24 % 2 ^ 8 ∷ i / 2 ^ 16 % 2 ^ 8 ∷ i / 2 ^ 8 % 2 ^ 8 ∷ i % 2 ^ 8 ∷ [])

-- `extractHostIP`.
unfoldable pub extract_host_ip : Text → List ℕ
extract_host_ip flow = hex_str_to_ipv4 (find_string hex_nbr (find_string load flow))

-- `extractCookie`.
unfoldable pub extract_cookie : Text → Text
extract_cookie flow = find_string hex_nbr (find_string cookie flow)

-- A Go map from ports: the flow is added to those of its port.
unfoldable pub add_to_port : ℕ → Text → List (ℕ × List Text) → List (ℕ × List Text)
add_to_port of_port flow [] = (of_port, flow ∷ []) ∷ []
add_to_port of_port flow ((p, flows) ∷ pairs) =
    let rest = add_to_port of_port flow pairs in
    if p == of_port then (p, flows ++ flow ∷ []) ∷ pairs else (p, flows) ∷ rest

-- `ofPortToLocalFlowsPairs`: the loop.
unfoldable pub pair_local_from : List (ℕ × List Text) → List Text → List (ℕ × List Text)
pair_local_from pairs [] = pairs
pair_local_from pairs (flow ∷ flows) =
    pair_local_from (add_to_port (useful_local_flow_of_port flow) flow pairs) flows

-- `ofPortToLocalFlowsPairs`.
unfoldable pub of_port_to_local_flows_pairs : List Text → List (ℕ × List Text)
of_port_to_local_flows_pairs flows = pair_local_from [] flows

-- The same with cookies as the keys.
unfoldable pub add_to_cookie : Text → Text → List (Text × List Text) → List (Text × List Text)
add_to_cookie key flow [] = (key, flow ∷ []) ∷ []
add_to_cookie key flow ((k, flows) ∷ pairs) =
    let rest = add_to_cookie key flow pairs in
    if text_eq k key then (k, flows ++ flow ∷ []) ∷ pairs else (k, flows) ∷ rest

unfoldable pub pair_remote_from : List (Text × List Text) → List Text → List (Text × List Text)
pair_remote_from pairs [] = pairs
pair_remote_from pairs (flow ∷ flows) =
    pair_remote_from (add_to_cookie (extract_cookie flow) flow pairs) flows

-- `pairRemoteFlowsPerIfc`.
unfoldable pub pair_remote_flows_per_ifc : List Text → List (List Text)
pair_remote_flows_per_ifc flows = map (λ pair. pair.1) (pair_remote_from [] flows)

-- `parse_ip` and `parse_mac` are `ParseIP` and `ParseMAC` of package net, the empty slice for nil.
module _ (parse_ip parse_mac : Text → List ℕ) where
  -- `extractGuestIP`.
  unfoldable pub extract_guest_ip : Text → List ℕ
  extract_guest_ip flow = parse_ip (find_string ipv4 (find_string arp_tpa flow))

  -- `extractGuestMAC`.
  unfoldable pub extract_guest_mac : Text → List ℕ
  extract_guest_mac flow = parse_mac (find_string mac flow)

  -- The loops over the flows of an interface: the address for ARP of the last ARP flow, and the MAC
  -- address of the last of the others.
  unfoldable pub guest_ip_of : List ℕ → List Text → List ℕ
  guest_ip_of ip [] = ip
  guest_ip_of ip (flow ∷ flows) =
      guest_ip_of (if is_arp flow then extract_guest_ip flow else ip) flows

  unfoldable pub guest_mac_of : List ℕ → List Text → List ℕ
  guest_mac_of hw [] = hw
  guest_mac_of hw (flow ∷ flows) =
      guest_mac_of (if is_arp flow then hw else extract_guest_mac flow) flows

  -- `parseLocalFlowPair`.
  unfoldable pub parse_local_flow_pair : List Text → Go LocalNetIfc
  parse_local_flow_pair flows_pair = do
    first ← deref (get_elem? flows_pair 0)
    ok (record {
      name = [];
      vni = extract_vni first;
      guest_mac = guest_mac_of [] flows_pair;
      guest_ip = guest_ip_of [] flows_pair;
    })

  -- `parseRemoteFlowPair`.
  unfoldable pub parse_remote_flow_pair : List Text → Go RemoteNetIfc
  parse_remote_flow_pair flows_pair = do
    first ← deref (get_elem? flows_pair 0)
    ok (record {
      vni = extract_vni first;
      guest_mac = guest_mac_of [] flows_pair;
      guest_ip = guest_ip_of [] flows_pair;
      host_ip = extract_host_ip first;
    })

  -- `parseLocalFlowsPairs`: the log line takes the second flow of each pair, if there is none it panics.
  unfoldable pub parse_local_flows_pairs : List (ℕ × List Text) → Go (List (ℕ × LocalNetIfc))
  parse_local_flows_pairs [] = ok []
  parse_local_flows_pairs ((of_port, pair) ∷ pairs) = do
    second ← deref (get_elem? pair 1)
    ifc ← parse_local_flow_pair pair
    ifcs ← parse_local_flows_pairs pairs
    ok ((of_port, ifc) ∷ ifcs)

  -- `parseRemoteFlowsPairs`.
  unfoldable pub parse_remote_flows_pairs : List (List Text) → Go (List RemoteNetIfc)
  parse_remote_flows_pairs [] = ok []
  parse_remote_flows_pairs (pair ∷ pairs) = do
    second ← deref (get_elem? pair 1)
    ifc ← parse_remote_flow_pair pair
    ifcs ← parse_remote_flows_pairs pairs
    ok (ifc ∷ ifcs)

-- A Go map from ports to names: the value of a key is set.
unfoldable pub put_name : ℕ → Text → List (ℕ × Text) → List (ℕ × Text)
put_name of_port name [] = (of_port, name) ∷ []
put_name of_port name ((p, n) ∷ names) =
    let rest = put_name of_port name names in
    if p == of_port then (p, name) ∷ names else (p, n) ∷ rest

-- `parseOFportAndIfcName`: a line with a single field panics. The names of the tunnel endpoint and of
-- the bridge are left out.
unfoldable pub parse_of_port_and_ifc_name :
    Text → Text → Text → List (ℕ × Text) → Go (List (ℕ × Text))
parse_of_port_and_ifc_name bridge vtep joined names = do
  quoted ← deref (get_elem? (fields joined) 1)
  let name = trim (codes "\"") quoted
  of_port ← deref (get_elem? (fields joined) 0)
  if not (text_eq name vtep) && not (text_eq name bridge)
      then ok (put_name (parse_of_port of_port) name names)
      else ok names

unfoldable pub parse_names_from : Text → Text → List (ℕ × Text) → List Text → Go (List (ℕ × Text))
parse_names_from bridge vtep names [] = ok names
parse_names_from bridge vtep names (line ∷ lines) = do
  more ← parse_of_port_and_ifc_name bridge vtep line names
  parse_names_from bridge vtep more lines

-- `parseOFportsAndIfcNames`.
unfoldable pub parse_of_ports_and_ifc_names : Text → Text → Text → Go (List (ℕ × Text))
parse_of_ports_and_ifc_names bridge vtep raw = parse_names_from bridge vtep [] (split b'\n' raw)

-- `ofPortToIfc[ofPort]`.
unfoldable pub ifc_at : ℕ → List (ℕ × LocalNetIfc) → Option LocalNetIfc
ifc_at of_port [] = none
ifc_at of_port ((p, ifc) ∷ ifcs) =
    let rest = ifc_at of_port ifcs in if p == of_port then some ifc else rest

-- The interface with its name if its flows were found, else its name among the incomplete ones.
abbrev pub sort_ifc :
    Text → Option LocalNetIfc → List LocalNetIfc × List Text → List LocalNetIfc × List Text
sort_ifc name none (complete, incomplete) = (complete, name ∷ incomplete)
sort_ifc name (some ifc) (complete, incomplete) =
    (record ifc { name = name } ∷ complete, incomplete)

-- `nameIfcs`.
unfoldable pub name_ifcs : List (ℕ × Text) → List (ℕ × LocalNetIfc) → List LocalNetIfc × List Text
name_ifcs [] ifcs = ([], [])
name_ifcs ((of_port, name) ∷ names) ifcs =
    sort_ifc name (ifc_at of_port ifcs) (name_ifcs names ifcs)
