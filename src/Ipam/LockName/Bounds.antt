-- ===== src/Ipam/LockName/Bounds.antt =====
-- The addresses between the bounds of a network.
use kube_examples.Common.{
  ℕ, ◌+◌, ◌-◌, ◌/◌, ◌%◌, ◌^◌, ◌≤◌, ◌<◌, ◌↔◌, ◌≡◌, refl, sym, subst, arith, two_32,
}
use kube_examples.Common.Blocks.{block_members, block_last}
use native.Mathlib.Nat.{one-le-pow}
use kube_examples.GoNet.{IPv4, IpNet}
use kube_examples.Ipam.LockName.{ipv4_to_uint32, ip_net_to_bounds_u}

ipv4_to_uint32_small : (ip : IPv4) → ipv4_to_uint32 ip < two_32
unfolding ipv4_to_uint32
ipv4_to_uint32_small ip = omega arith

-- A network of 32 bits with its address masked, as `net.ParseCIDR` gives it for an IPv4 block.
pub record IsMasked (net : IpNet) : Type 0 where
  pub bits_32 : net.bits ≡ 32
  pub some_ones : net.ones ≤ 32
  pub masked : ipv4_to_uint32 net.ip % 2 ^ (32 - net.ones) ≡ 0

bounds_of :
    (net : IpNet)
    → IsMasked net
    → ((ip_net_to_bounds_u net).1 ≡ ipv4_to_uint32 net.ip + 2 ^ (32 - net.ones) - 1)
unfolding ip_net_to_bounds_u
bounds_of net m =
    rw (m.bits_32)
      (block_last net.ones (ipv4_to_uint32 net.ip) m.some_ones (ipv4_to_uint32_small net.ip)
        m.masked).0

first_of : (net : IpNet) → (ip_net_to_bounds_u net).0 ≡ ipv4_to_uint32 net.ip
unfolding ip_net_to_bounds_u
first_of net = refl

pub bounds_proper :
    (net : IpNet) → IsMasked net → (ip_net_to_bounds_u net).0 ≤ (ip_net_to_bounds_u net).1
bounds_proper net m =
    omega (arith, first_of net, bounds_of net m, one-le-pow (32 - net.ones) 2 (omega arith))

-- A network as `net.ParseCIDR` gives it where the address has four bytes: the mask leaves at most 32
-- bits, of 32, or of 128 for an IPv4 block that is written in IPv6, and the address is masked.
pub record IsCut (net : IpNet) : Type 0 where
  pub host_bits : net.bits - net.ones ≤ 32
  pub no_host : ipv4_to_uint32 net.ip % 2 ^ (net.bits - net.ones) ≡ 0

pub cut_bounds : (net : IpNet) → IsCut net → (ip_net_to_bounds_u net).0 ≤ (ip_net_to_bounds_u net).1
unfolding ip_net_to_bounds_u
cut_bounds net c =
    let h : 32 - (32 - (net.bits - net.ones)) ≡ net.bits - net.ones = omega (arith, c.host_bits) in
    let last =
      block_last (32 - (net.bits - net.ones)) (ipv4_to_uint32 net.ip) (omega arith)
        (ipv4_to_uint32_small net.ip)
        (subst (λ k. ipv4_to_uint32 net.ip % 2 ^ k ≡ 0) (sym h) c.no_host) in
    let size = one-le-pow (net.bits - net.ones) 2 (omega arith) in
    let last2 =
      subst
        (λ k.
          (ipv4_to_uint32 net.ip + (2 ^ k % 2 ^ 64 + (2 ^ 64 - 1)) % 2 ^ 64 % two_32) % two_32
          ≡ ipv4_to_uint32 net.ip + 2 ^ k - 1)
        h last.0 in
    omega (arith, last2, size)

-- The bounds of a masked network of 32 bits are those of its block: a number is between them
-- exactly if it has the network's leading bits.
pub ip_net_to_bounds_u_members :
    (net : IpNet) (x : ℕ)
    → IsMasked net
    → (x / 2 ^ (32 - net.ones) ≡ ipv4_to_uint32 net.ip / 2 ^ (32 - net.ones))
      ↔ (((ip_net_to_bounds_u net).0 ≤ x) × (x ≤ (ip_net_to_bounds_u net).1))
ip_net_to_bounds_u_members net x m =
    let p : 1 ≤ 2 ^ (32 - net.ones) = one-le-pow (32 - net.ones) 2 (omega arith) in
    let block = block_members (2 ^ (32 - net.ones)) (ipv4_to_uint32 net.ip) x p m.masked in
    let last = bounds_of net m in
    let first = first_of net in
    (
      (λ e. let i = block.0 e in (omega (arith, i.0, first), omega (arith, i.1, last))),
      (λ i. block.1 (omega (arith, i.0, first), omega (arith, i.1, last, p))),
    )
