-- ===== src/Agent.antt =====
-- How the connection agent names the interfaces of attachments and gives them MAC addresses, in
-- staging/kos/pkg/controllers/connectionagent/connectionagent.go.
pub mod Macs
pub mod Sightings
mod Tests
use kube_examples.Common.{
  ℕ, zero, suc, ◌+◌, ◌-◌, ◌*◌, ◌/◌, ◌%◌, ◌^◌, Bool, true, false, List, [], ◌∷◌, ◌++◌, get_elem?, Go,
  ok, panic, ◌>>=◌, deref,
}
use kube_examples.GoNet.{to4}
use kube_examples.GoText.{Text, codes}
use kube_examples.GoText.Hex.{hex_digits_of}
use kube_examples.GoText.Pieces.{replace_char}
use kube_examples.Ovs.Flows.{mac_string}

-- `ifcVNIAndIP`; `ip_string` is `IP.String` of package net.
unfoldable pub ifc_vni_and_ip : (List ℕ → Text) → ℕ → List ℕ → Text
ifc_vni_and_ip ip_string vni ipv4 = hex_digits_of 16 vni ++ codes "/" ++ ip_string ipv4

-- The first byte of `generateMACAddr`. The bits are added, as no two of the summands have a bit in
-- common: bits 3 to 7 of the byte of the VNI, bit 1 of the first byte of the address moved to bit 2,
-- and bit 1.
unfoldable pub first_mac_byte : ℕ → ℕ → ℕ
first_mac_byte vni b = vni / 2 ^ 13 % 2 ^ 8 / 8 * 8 + b / 2 % 2 * 4 + 2

-- `generateMACAddr`: it panics where the address has no form of four bytes.
unfoldable pub generate_mac_addr : ℕ → List ℕ → Go (List ℕ)
generate_mac_addr vni guest_ip_v4 = do
  let guest_ip_bytes = to4 guest_ip_v4
  b3 ← deref (get_elem? guest_ip_bytes 3)
  b2 ← deref (get_elem? guest_ip_bytes 2)
  b1 ← deref (get_elem? guest_ip_bytes 1)
  b0 ← deref (get_elem? guest_ip_bytes 0)
  ok (first_mac_byte vni b0 ∷ b1 ∷ b2 ∷ b3 ∷ vni / 2 ^ 8 % 2 ^ 8 ∷ vni % 2 ^ 8 ∷ [])

-- `generateIfcName`.
unfoldable pub generate_ifc_name : List ℕ → Text
generate_ifc_name mac_addr = codes "kos" ++ replace_char (mac_string mac_addr) b':' []
