-- ===== src/GoNet.antt =====
-- The addresses and networks of Go's package net, as the KOS code uses them.
use kube_examples.Common.{ℕ, List, [], ◌∷◌, ◌==◌, if◌then◌else◌, length}

-- A Go `net.IP` of four bytes.
pub record IPv4 : Type 0 where
  pub b0 : ℕ
  pub b1 : ℕ
  pub b2 : ℕ
  pub b3 : ℕ

-- A Go `net.IPNet`: the address, and the size of the mask.
pub record IpNet : Type 0 where
  pub ip : IPv4
  pub ones : ℕ
  pub bits : ℕ

-- A `net.IP` that `ParseIP` gives: it has a form of four bytes, which `To4` gives, or has none.
pub data NetIp : Type 0 where
  ip_in_four : IPv4 → NetIp
  ip_only_six : NetIp

-- The network that `ParseCIDR` gives: its address has a form of four bytes, or has none.
pub data NetBlock : Type 0 where
  block_in_four : IpNet → NetBlock
  block_only_six : NetBlock

-- The first twelve bytes of an IPv4 address of sixteen bytes, as `net.IPv4` makes them.
abbrev pub v4_in_v6_prefix : List ℕ
v4_in_v6_prefix = 0 ∷ 0 ∷ 0 ∷ 0 ∷ 0 ∷ 0 ∷ 0 ∷ 0 ∷ 0 ∷ 0 ∷ 255 ∷ 255 ∷ []

-- What is behind a prefix, nothing without the prefix.
abbrev strip_prefix : List ℕ → List ℕ → List ℕ
strip_prefix [] ip = ip
strip_prefix (p ∷ prefix) [] = []
strip_prefix (p ∷ prefix) (b ∷ ip) =
    let rest = strip_prefix prefix ip in if b == p then rest else []

-- `IP.To4`, the empty slice for nil.
unfoldable pub to4 : List ℕ → List ℕ
to4 ip =
    if length ip == 4 then ip else if length ip == 16 then strip_prefix v4_in_v6_prefix ip else []
