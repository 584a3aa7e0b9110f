-- ===== src/Ipam/LockName.antt =====
-- The names of IPLock objects and the numbers behind addresses: IPv4ToUint32, Uint32ToIPv4,
-- makeIPLockName2, parseIPLockName and IPNetToBoundsU of staging/kos/pkg/controllers/ipam/ipam.go.
pub mod Theorems
pub mod Bounds
pub mod Addresses
use kube_examples.Common.{
  ℕ, zero, suc, ◌+◌, ◌-◌, ◌*◌, ◌/◌, ◌%◌, ◌^◌, ◌≡◌, Bool, true, false, ◌||◌, Option, none, some,
  List, [], ◌∷◌, ◌++◌, ltb, leb, ◌==◌, not, if◌then◌else◌, length, get_elem?, two_32, Go, ok, panic,
}
use mathlib.Core.Option.{map}
use kube_examples.GoNet.{
  IPv4, IpNet, NetIp, ip_in_four, ip_only_six, NetBlock, block_in_four, block_only_six,
}
use kube_examples.GoText.{Text, text_eq, format_decimal, parse_uint, split}

-- What `IPv4ToUint32` computes of the four bytes that `To4` gives: the sums wrap around as Go's do.
unfoldable pub ipv4_to_uint32 : IPv4 → ℕ
ipv4_to_uint32 ip = (ip.b0 * 2 ^ 24 + ip.b1 * 2 ^ 16 + ip.b2 * 2 ^ 8 + ip.b3) % two_32

-- `IPv4ToUint32`, which panics on an address that `To4` has no four bytes for.
unfoldable pub ip_to_uint32 : NetIp → Go ℕ
ip_to_uint32 (ip_in_four ip) = ok (ipv4_to_uint32 ip)
ip_to_uint32 ip_only_six = panic

-- `Uint32ToIPv4`.
unfoldable pub uint32_to_ipv4 : ℕ → IPv4
uint32_to_ipv4 i = record {
  b0 = i / 2 ^ 24 % 2 ^ 8;
  b1 = i / 2 ^ 16 % 2 ^ 8;
  b2 = i / 2 ^ 8 % 2 ^ 8;
  b3 = i % 2 ^ 8;
}

abbrev v1 : Text
v1 = b'v' ∷ b'1' ∷ []

abbrev dash : ℕ
dash = b'-'

-- `makeIPLockName2`: "v1-%d-%d-%d-%d-%d".
unfoldable pub make_ip_lock_name2 : ℕ → IPv4 → Text
make_ip_lock_name2 vni ip =
    v1
    ++ dash
      ∷ (format_decimal vni
          ++ dash
            ∷ (format_decimal ip.b0
                ++ dash
                  ∷ (format_decimal ip.b1
                      ++ dash ∷ (format_decimal ip.b2 ++ dash ∷ format_decimal ip.b3))))

-- The loop of `parseIPLockName` over the four address bytes.
unfoldable pub parse_bytes : ℕ → List Text → Option ℕ
parse_bytes addr_u [] = some addr_u
parse_bytes addr_u (part ∷ parts) = elim (parse_uint 8 part) [
  | none ↦ none
  | some b ↦ parse_bytes ((addr_u * 256 + b) % two_32) parts
]

-- What `parseIPLockName` reads from the parts of a name, six of them.
unfoldable pub parse_parts : List Text → Option (ℕ × ℕ)
parse_parts [] = none
parse_parts (version ∷ []) = none
parse_parts (version ∷ vni_part ∷ bytes) =
    if not (length bytes == 4) || not (text_eq version v1)
    then none
    else elim (parse_uint 21 vni_part) [
      | none ↦ none
      | some vni ↦ map (λ addr_u. (vni, addr_u)) (parse_bytes 0 bytes)
    ]

-- `parseIPLockName`: the VNI and the address, or an error.
unfoldable pub parse_ip_lock_name : Text → Option (ℕ × ℕ)
parse_ip_lock_name lock_name = parse_parts (split dash lock_name)

-- What `IPNetToBoundsU` computes of a network whose address has four bytes: the shift is of 64
-- bits, the sum of 32.
unfoldable pub ip_net_to_bounds_u : IpNet → ℕ × ℕ
ip_net_to_bounds_u net =
    let low = ipv4_to_uint32 net.ip in
    let delta = (2 ^ (net.bits - net.ones) % 2 ^ 64 + (2 ^ 64 - 1)) % 2 ^ 64 % two_32 in
    (low, (low + delta) % two_32)

-- `IPNetToBoundsU`, which panics through `IPv4ToUint32`.
unfoldable pub block_to_bounds_u : NetBlock → Go (ℕ × ℕ)
block_to_bounds_u (block_in_four net) = ok (ip_net_to_bounds_u net)
block_to_bounds_u block_only_six = panic
