-- ===== src/Subnet/Tests.antt =====
-- The subnet registry on concrete inputs.
use kube_examples.Common.{
  ℕ, ◌≤◌, ◌≡◌, ◌↔◌, refl, ap, subst, ok, Bool, true, false, Option, none, some, [], ◌∷◌, arith,
  if◌then◌else◌,
}
use kube_examples.GoNet.{IpNet, NetBlock, block_in_four, block_only_six}
use kube_examples.GoText.{Text, text_eq}
use kube_examples.Ipam.LockName
use kube_examples.Ipam.LockName.{ip_net_to_bounds_u}
use kube_examples.Ipam.LockName.Bounds.{IsCut}
use kube_examples.Subnet.{Subnet, ParsedSubnet, overlaps, parsed_net, validate}
use kube_examples.Subnet.Ranges.{Within, overlaps_shared, parsed_net-ip_net_to_bounds_u}
use kube_examples.Subnet.Validity.{IsAcceptable, validate-IsAcceptable}

abbrev low_range : ParsedSubnet
low_range = record { base_u = 16; last_u = 31 }

abbrev high_range : ParsedSubnet
high_range = record { base_u = 24; last_u = 27 }

low_proper : 16 ≤ 31
low_proper = omega arith

high_proper : 24 ≤ 27
high_proper = omega arith

overlaps_shared_example :
    (overlaps low_range high_range ≡ true) ↔ ((x : ℕ) × Within x low_range × Within x high_range)
overlaps_shared_example = overlaps_shared low_range high_range low_proper high_proper

-- 10.0.2.0/23
abbrev net_10 : IpNet
net_10 = record { ip = record { b0 = 10; b1 = 0; b2 = 2; b3 = 0 }; ones = 23; bits = 32 }

parsed_net-ip_net_to_bounds_u_example :
    ((parsed_net net_10).base_u ≡ (ip_net_to_bounds_u net_10).0)
    × ((parsed_net net_10).last_u ≡ (ip_net_to_bounds_u net_10).1)
parsed_net-ip_net_to_bounds_u_example = parsed_net-ip_net_to_bounds_u net_10

net_10-IsCut : IsCut net_10
unfolding LockName.ipv4_to_uint32
net_10-IsCut = record { host_bits = omega arith; no_host = refl }

abbrev cidr_10 : Text
cidr_10 = b'n' ∷ []

abbrev cidr_six : Text
cidr_six = b's' ∷ []

-- It reads two texts.
abbrev read_two : Text → Option NetBlock
read_two cidr =
    if text_eq cidr cidr_10
    then some (block_in_four net_10)
    else if text_eq cidr cidr_six
    then some block_only_six
    else none

abbrev net_or : Option NetBlock → IpNet
net_or (some (block_in_four net)) = net
net_or _ = net_10

branch-IsCut :
    (b c : Bool) (net : IpNet)
    → (if b then some (block_in_four net_10) else if c then some block_only_six else none)
      ≡ some (block_in_four net)
    → IsCut net
branch-IsCut true c net e = subst IsCut (ap net_or e) net_10-IsCut
branch-IsCut false true net e = subst IsCut (ap net_or e) net_10-IsCut
branch-IsCut false false net e = subst IsCut (ap net_or e) net_10-IsCut

read_two-IsCut : (cidr : Text) (net : IpNet) → read_two cidr ≡ some (block_in_four net) → IsCut net
read_two-IsCut cidr net e = branch-IsCut (text_eq cidr cidr_10) (text_eq cidr cidr_six) net e

abbrev subnet_a : Subnet ℕ
subnet_a = record {
  namespace = [];
  name = b'a' ∷ [];
  uid = b'1' ∷ [];
  vni = 5;
  ipv4 = cidr_10;
  status = 0;
}

abbrev subnet_b : Subnet ℕ
subnet_b = record {
  namespace = [];
  name = b'b' ∷ [];
  uid = b'2' ∷ [];
  vni = 6;
  ipv4 = cidr_10;
  status = 0;
}

validate-IsAcceptable_example :
    (validate ℕ 0 read_two (some (subnet_a ∷ subnet_b ∷ [])) subnet_a ≡ ok [])
    ↔ IsAcceptable ℕ 0 read_two read_two-IsCut (subnet_a ∷ subnet_b ∷ []) subnet_a
validate-IsAcceptable_example =
    validate-IsAcceptable ℕ 0 read_two read_two-IsCut (subnet_a ∷ subnet_b ∷ []) subnet_a
