-- ===== src/Agent/Tests.antt =====
-- The addresses of interfaces on concrete inputs.
use kube_examples.Common.{
  ℕ, ◌+◌, ◌*◌, ◌/◌, ◌%◌, ◌^◌, ◌<◌, ◌≡◌, refl, arith, List, [], ◌∷◌, Returns, ◌↔◌, true, false, ◌==◌,
}
use kube_examples.GoNet.{to4}
use kube_examples.Agent.{generate_mac_addr}
use kube_examples.Agent.Macs.{FourBytes, Agree, generate_mac_addr_unique, uvarint-generate_mac_addr}
use kube_examples.GoText.{codes}
use kube_examples.Agent.Sightings.{Sighting, get_att_seen_in_vni, on_sightings}
use kube_examples.Agent.Sightings.Only.{
  no_sightings, nowhere, after_sightings, get_att_seen_in_vni_only,
}
use kube_examples.Ovs.Flows.{uvarint}

abbrev address_a : List ℕ
address_a = 10 ∷ 0 ∷ 0 ∷ 1 ∷ []

-- The same address in its form of sixteen bytes.
abbrev address_long : List ℕ
address_long = 0 ∷ 0 ∷ 0 ∷ 0 ∷ 0 ∷ 0 ∷ 0 ∷ 0 ∷ 0 ∷ 0 ∷ 255 ∷ 255 ∷ 10 ∷ 0 ∷ 0 ∷ 1 ∷ []

address_a-FourBytes : FourBytes address_a 10 0 0 1
unfolding to4
address_a-FourBytes = refl

address_long-FourBytes : FourBytes address_long 10 0 0 1
unfolding to4
address_long-FourBytes = refl

same_macs : generate_mac_addr 300 address_a ≡ generate_mac_addr 300 address_long
unfolding generate_mac_addr to4
same_macs = refl

small_vni : 300 < 2 ^ 21
small_vni = omega arith

smaller_vni : 300 < 2 ^ 20
smaller_vni = omega arith

generate_mac_addr_unique_example : Agree 300 300 10 0 0 1 10 0 0 1
generate_mac_addr_unique_example =
    generate_mac_addr_unique 300 300 address_a address_long 10 0 0 1 10 0 0 1 small_vni small_vni
      address_a-FourBytes address_long-FourBytes same_macs

uvarint-generate_mac_addr_example :
    Returns
      (generate_mac_addr 300 address_a)
      (λ mac. uvarint mac ≡ 300 / 2 ^ 16 * 8 + 10 / 2 % 2 * 4 + 2)
uvarint-generate_mac_addr_example =
    uvarint-generate_mac_addr 300 address_a 10 0 0 1 smaller_vni address_a-FourBytes

-- The attachment n/a is added in the virtual networks 7 and 8, and removed from 7.
abbrev some_sightings : List Sighting
some_sightings =
    record { added = true; ns = codes "n"; name = codes "a"; vni = 7 }
    ∷ record { added = true; ns = codes "n"; name = codes "a"; vni = 8 }
    ∷ record { added = false; ns = codes "n"; name = codes "a"; vni = 7 }
    ∷ []

get_att_seen_in_vni_only_example :
    (get_att_seen_in_vni (on_sightings no_sightings some_sightings) (codes "n") (codes "a")
      ≡ (8, 1))
    ↔ ((u : ℕ) → after_sightings nowhere some_sightings (codes "n") (codes "a") u ≡ (8 == u))
get_att_seen_in_vni_only_example = get_att_seen_in_vni_only some_sightings (codes "n") (codes "a") 8
