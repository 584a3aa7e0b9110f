-- ===== src/Agent/Macs.antt =====
-- Which attachments get different MAC addresses, and which cookies Open vSwitch gets for them.
use kube_examples.Common.{
  ℕ, zero, suc, ◌+◌, ◌*◌, ◌/◌, ◌%◌, ◌^◌, ◌<◌, ◌≡◌, refl, sym, ap, ◌∙◌, arith, true, List, [], ◌∷◌,
  Go, ok, panic, Returns, ltb,
}
use kube_examples.GoNet.{to4}
use kube_examples.Agent.{first_mac_byte, generate_mac_addr}
use kube_examples.Ovs.Flows.{uvarint, uvarint_from}

-- The address in its form of four bytes.
abbrev pub FourBytes : List ℕ → ℕ → ℕ → ℕ → ℕ → Type 0
FourBytes ip b0 b1 b2 b3 = to4 ip ≡ b0 ∷ b1 ∷ b2 ∷ b3 ∷ []

generate_mac_addr_lem :
    (vni : ℕ) (ip : List ℕ) (b0 b1 b2 b3 : ℕ)
    → FourBytes ip b0 b1 b2 b3
    → generate_mac_addr vni ip
      ≡ ok (first_mac_byte vni b0 ∷ b1 ∷ b2 ∷ b3 ∷ vni / 2 ^ 8 % 2 ^ 8 ∷ vni % 2 ^ 8 ∷ [])
unfolding generate_mac_addr
generate_mac_addr_lem vni ip b0 b1 b2 b3 h = rw (generate_mac_addr, h) refl

-- The first byte says the bits of the VNI from bit 16 on, and bit 1 of the address.
first_mac_byte_lem :
    (vni wni b c : ℕ)
    → vni < 2 ^ 21
    → wni < 2 ^ 21
    → first_mac_byte vni b ≡ first_mac_byte wni c
    → (vni / 2 ^ 16 ≡ wni / 2 ^ 16) × (b / 2 % 2 ≡ c / 2 % 2)
unfolding first_mac_byte
first_mac_byte_lem vni wni b c h l e = (omega (arith, e), omega (arith, e))

vni_of_pieces :
    (vni wni : ℕ)
    → vni / 2 ^ 16 ≡ wni / 2 ^ 16
    → vni / 2 ^ 8 % 2 ^ 8 ≡ wni / 2 ^ 8 % 2 ^ 8
    → vni % 2 ^ 8 ≡ wni % 2 ^ 8
    → vni ≡ wni
vni_of_pieces vni wni h m l = omega arith

-- A byte of a result.
abbrev byte_at : ℕ → List ℕ → ℕ
byte_at n [] = 0
byte_at zero (b ∷ bs) = b
byte_at (suc n) (b ∷ bs) = byte_at n bs

abbrev byte_of : ℕ → Go (List ℕ) → ℕ
byte_of n panic = 0
byte_of n (ok bs) = byte_at n bs

-- The same VNI, the same last three bytes of the address, and the same bit 1 of its first byte.
abbrev pub Agree : ℕ → ℕ → ℕ → ℕ → ℕ → ℕ → ℕ → ℕ → ℕ → ℕ → Type 0
Agree vni wni b0 b1 b2 b3 c0 c1 c2 c3 =
    (vni ≡ wni) × (b1 ≡ c1) × (b2 ≡ c2) × (b3 ≡ c3) × (b0 / 2 % 2 ≡ c0 / 2 % 2)

-- generateMACAddr, for two VNIs below 2 ^ 21 and two IPv4 addresses: if the MAC addresses are the
-- same, then so are the VNIs, the last three bytes of the IP addresses, and bit 1 of their first
-- bytes.
pub generate_mac_addr_unique :
    (vni wni : ℕ) (ip jp : List ℕ) (b0 b1 b2 b3 c0 c1 c2 c3 : ℕ)
    → vni < 2 ^ 21
    → wni < 2 ^ 21
    → FourBytes ip b0 b1 b2 b3
    → FourBytes jp c0 c1 c2 c3
    → generate_mac_addr vni ip ≡ generate_mac_addr wni jp
    → Agree vni wni b0 b1 b2 b3 c0 c1 c2 c3
generate_mac_addr_unique vni wni ip jp b0 b1 b2 b3 c0 c1 c2 c3 h l four four' e =
    let same =
      sym (generate_mac_addr_lem vni ip b0 b1 b2 b3 four)
      ∙ e
      ∙ generate_mac_addr_lem wni jp c0 c1 c2 c3 four' in
    let (high, bit) = first_mac_byte_lem vni wni b0 c0 h l (ap (byte_of 0) same) in
    (
      vni_of_pieces vni wni high (ap (byte_of 4) same) (ap (byte_of 5) same),
      ap (byte_of 1) same,
      ap (byte_of 2) same,
      ap (byte_of 3) same,
      bit,
    )

-- A byte below 128 ends the number at once.
pub uvarint_first : (b : ℕ) (bs : List ℕ) → b < 128 → uvarint (b ∷ bs) ≡ b
unfolding uvarint uvarint_from
uvarint_first b bs h =
    let test : ltb b 128 ≡ true = ground arith in rw (uvarint_from, test) (omega (arith, h))

-- For a VNI below 2 ^ 20 and an IPv4 address, the cookie that addRemoteIfcFlows computes of the MAC
-- address of generateMACAddr is its first byte: the other bytes of the address, and the low sixteen
-- bits of the VNI, do not count.
pub uvarint-generate_mac_addr :
    (vni : ℕ) (ip : List ℕ) (b0 b1 b2 b3 : ℕ)
    → vni < 2 ^ 20
    → FourBytes ip b0 b1 b2 b3
    → Returns
        (generate_mac_addr vni ip)
        (λ mac. uvarint mac ≡ vni / 2 ^ 16 * 8 + b0 / 2 % 2 * 4 + 2)
unfolding first_mac_byte
uvarint-generate_mac_addr vni ip b0 b1 b2 b3 h four = (
  _,
  generate_mac_addr_lem vni ip b0 b1 b2 b3 four,
  uvarint_first (first_mac_byte vni b0) _ (omega arith) ∙ omega arith,
)
