-- ===== src/Subnet/Ranges.antt =====
-- Which addresses a Subnet holds, and when two of them overlap.
use kube_examples.Common.{
  ℕ, ◌≤◌, ◌↔◌, ◌≡◌, refl, true, arith, Option, some, dec_le, Option-cases, inl, inr, OnOk,
}
use kube_examples.GoNet.{IpNet, NetBlock, block_in_four, block_only_six}
use kube_examples.GoText.{Text}
use kube_examples.Ipam.LockName
use kube_examples.Ipam.LockName.{ip_net_to_bounds_u}
use kube_examples.Ipam.LockName.Bounds.{IsCut, cut_bounds}
use kube_examples.Subnet.{
  Subnet, ParsedSubnet, overlaps, ipv4_to_uint32, parsed_net, parsed_block, parse_subnet,
}

-- An address in a range.
abbrev pub Within : ℕ → ParsedSubnet → Type 0
Within x ps = (ps.base_u ≤ x) × (x ≤ ps.last_u)

-- Two ranges that are not empty overlap exactly if they share an address.
pub overlaps_shared :
    (ps1 ps2 : ParsedSubnet)
    → ps1.base_u ≤ ps1.last_u
    → ps2.base_u ≤ ps2.last_u
    → (overlaps ps1 ps2 ≡ true) ↔ ((x : ℕ) × Within x ps1 × Within x ps2)
unfolding overlaps
overlaps_shared ps1 ps2 a b = (
  (λ e. elim (dec_le ps1.base_u ps2.base_u) [
    | yes l ↦ (ps2.base_u, (l, ground arith), (ground arith, b))
    | no l ↦ (ps1.base_u, (ground arith, a), (ground arith, ground arith))
  ]),
  (λ s. ground (arith, s.1, s.2)),
)

-- The API server gives a network the range that the IPAM controller gives it.
pub parsed_net-ip_net_to_bounds_u :
    (net : IpNet)
    → ((parsed_net net).base_u ≡ (ip_net_to_bounds_u net).0)
      × ((parsed_net net).last_u ≡ (ip_net_to_bounds_u net).1)
unfolding parsed_net ip_net_to_bounds_u ipv4_to_uint32 LockName.ipv4_to_uint32
parsed_net-ip_net_to_bounds_u net = (refl, refl)

parsed_net_proper : (net : IpNet) → IsCut net → (parsed_net net).base_u ≤ (parsed_net net).last_u
parsed_net_proper net m =
    let same = parsed_net-ip_net_to_bounds_u net in rw (same.0, same.1) (cut_bounds net m)

module _ (Status : Type 0) (zero_status : Status) (parse_cidr : Text → Option NetBlock)
    (cut : (cidr : Text) (net : IpNet)
      → parse_cidr cidr ≡ some (block_in_four net)
      → IsCut net) where
  pub parse_subnet_proper :
      (s : Subnet Status)
      → OnOk (λ ps. ps.base_u ≤ ps.last_u) (parse_subnet Status zero_status parse_cidr s)
  unfolding parse_subnet parsed_block
  parse_subnet_proper s = elim (Option-cases (parse_cidr s.ipv4)) [
    | inl e ↦ rw (parse_subnet, e) (omega arith)
    | inr (block_in_four net, e) ↦ rw (parse_subnet, e) (parsed_net_proper net (cut s.ipv4 net e))
    | inr (block_only_six, e) ↦ rw (parse_subnet, e) tt
  ]
