-- ===== src/Subnet.antt =====
-- The strategy of the subnet registry, which validates Subnet objects in the API server:
-- staging/kos/pkg/registry/network/subnet/strategy.go.
pub mod Ranges
mod NoErrors
pub mod Validity
mod Tests
use kube_examples.Common.{
  ℕ, ◌+◌, ◌-◌, ◌*◌, ◌%◌, ◌^◌, Bool, true, false, not, ◌&&◌, ◌||◌, Option, none, some, List, [], ◌∷◌,
  ◌++◌, ltb, leb, ◌==◌, if◌then◌else◌, keep, two_32, Go, ok, panic, ◌>>=◌,
}
use kube_examples.GoNet.{
  IPv4, IpNet, NetIp, ip_in_four, ip_only_six, NetBlock, block_in_four, block_only_six,
}
use kube_examples.GoText.{Text, text_eq}

-- `Subnet` of pkg/apis/network, with `status` for the whole `SubnetStatus`.
pub record Subnet (Status : Type 0) : Type 0 where
  pub namespace : Text
  pub name : Text
  pub uid : Text
  pub vni : ℕ
  pub ipv4 : Text
  pub status : Status

-- The elements of `field.ErrorList` that the strategy makes, by the calls that make them.
pub data FieldError : Type 0 where
  invalid_vni : ℕ → FieldError
  invalid_ipv4 : Text → FieldError
  internal_error : ℕ → FieldError
  forbidden_namespace : Text → Text → FieldError
  forbidden_ipv4 : Text → Text → FieldError

-- `minVNI`.
abbrev pub min_vni : ℕ
min_vni = 1

-- `maxVNI`.
abbrev pub max_vni : ℕ
max_vni = 2097151

-- `parsedSubnet`.
pub record ParsedSubnet : Type 0 where
  pub base_u : ℕ
  pub last_u : ℕ

-- `overlaps`.
unfoldable pub overlaps : ParsedSubnet → ParsedSubnet → Bool
overlaps ps1 ps2 = leb ps1.base_u ps2.last_u && leb ps2.base_u ps1.last_u

-- What `ipv4ToUint32` computes of the four bytes that `To4` gives.
unfoldable pub ipv4_to_uint32 : IPv4 → ℕ
ipv4_to_uint32 ip = (ip.b0 * 2 ^ 24 + ip.b1 * 2 ^ 16 + ip.b2 * 2 ^ 8 + ip.b3) % two_32

-- `ipv4ToUint32`, which panics on an address that `To4` has no four bytes for.
unfoldable pub ip_to_uint32 : NetIp → Go ℕ
ip_to_uint32 (ip_in_four ip) = ok (ipv4_to_uint32 ip)
ip_to_uint32 ip_only_six = panic

-- What `parseSubnet` computes from a network whose address has four bytes.
unfoldable pub parsed_net : IpNet → ParsedSubnet
parsed_net ip_net =
    let base_u = ipv4_to_uint32 ip_net.ip in
    let delta = (2 ^ (ip_net.bits - ip_net.ones) % 2 ^ 64 + (2 ^ 64 - 1)) % 2 ^ 64 % two_32 in
    record { base_u = base_u; last_u = (base_u + delta) % two_32 }

-- What `parseSubnet` computes from a network: it panics through `ipv4ToUint32`.
unfoldable pub parsed_block : NetBlock → Go ParsedSubnet
parsed_block (block_in_four ip_net) = ok (parsed_net ip_net)
parsed_block block_only_six = panic

abbrev pub empty {ℓ} : {A : Type ℓ} → List A → Bool
empty [] = true
empty (x ∷ xs) = false

abbrev pub add_if : Bool → FieldError → List FieldError → List FieldError
add_if b err errs = if b then err ∷ errs else errs

-- Errors, and those of the check that follows.
abbrev pub and_errors : List FieldError → Go (List FieldError) → Go (List FieldError)
and_errors errs check = do more ← check; ok (errs ++ more)

-- `net.ParseCIDR` is the parameter `parse_cidr`: the network, or an error.
module _ (Status : Type 0) (zero_status : Status) (parse_cidr : Text → Option NetBlock) where
  -- `PrepareForCreate`.
  unfoldable pub prepare_for_create : Subnet Status → Subnet Status
  prepare_for_create subnet = record subnet { status = zero_status }

  -- `parseSubnet`.
  unfoldable pub parse_subnet : Subnet Status → Go ParsedSubnet
  parse_subnet subnet = elim (parse_cidr subnet.ipv4) [
    | none ↦ ok (record { base_u = 0; last_u = 0 })
    | some ip_net ↦ parsed_block ip_net
  ]

  -- `checkVNIRange`.
  unfoldable pub check_vni_range : Subnet Status → List FieldError
  check_vni_range subnet =
      if ltb subnet.vni min_vni || ltb max_vni subnet.vni then invalid_vni subnet.vni ∷ [] else []

  -- `checkCIDRFormat`.
  unfoldable pub check_cidr_format : Subnet Status → List FieldError
  check_cidr_format subnet = elim (parse_cidr subnet.ipv4) [
    | none ↦ invalid_ipv4 subnet.ipv4 ∷ []
    | some ip_net ↦ []
  ]

  -- `allSubnetsWithVNI`, of what the lister returns, or its error.
  unfoldable pub all_subnets_with_vni :
      Option (List (Subnet Status)) → ℕ → Option (List (Subnet Status))
  all_subnets_with_vni none vni = none
  all_subnets_with_vni (some all_subnets) vni =
      some (keep (λ a_subnet. a_subnet.vni == vni) all_subnets)

  -- `checkSameVNISameNs`.
  unfoldable pub check_same_vni_same_ns : Subnet Status → List (Subnet Status) → List FieldError
  check_same_vni_same_ns this_subnet [] = []
  check_same_vni_same_ns this_subnet (a_subnet ∷ subnets) =
      let rest = check_same_vni_same_ns this_subnet subnets in
      if not (text_eq a_subnet.namespace this_subnet.namespace)
      then forbidden_namespace a_subnet.namespace a_subnet.name ∷ rest
      else rest

  -- One round of the loop of `checkCIDRDoesNotOverlap`, given what the rounds after it come to.
  unfoldable pub check_overlap :
      ParsedSubnet → Subnet Status → Subnet Status → Go (List FieldError) → Go (List FieldError)
  check_overlap this_parsed this_subnet a_subnet rest =
      if text_eq this_subnet.uid a_subnet.uid then rest else do
        a_parsed ← parse_subnet a_subnet
        errs ← rest
        ok (
            add_if (overlaps this_parsed a_parsed) (forbidden_ipv4 a_subnet.namespace a_subnet.name)
              errs)

  -- The loop of `checkCIDRDoesNotOverlap`.
  unfoldable pub check_overlaps :
      ParsedSubnet → Subnet Status → List (Subnet Status) → Go (List FieldError)
  check_overlaps this_parsed this_subnet [] = ok []
  check_overlaps this_parsed this_subnet (a_subnet ∷ subnets) =
      check_overlap this_parsed this_subnet a_subnet
        (check_overlaps this_parsed this_subnet subnets)

  -- `checkCIDRDoesNotOverlap`.
  unfoldable pub check_cidr_does_not_overlap :
      Subnet Status → List (Subnet Status) → Go (List FieldError)
  check_cidr_does_not_overlap this_subnet subnets = do
    this_parsed ← parse_subnet this_subnet
    check_overlaps this_parsed this_subnet subnets

  -- `Validate` where the VNI is in range, from the errors of the address format on.
  unfoldable pub validate_among :
      Subnet Status → List FieldError → Option (List (Subnet Status)) → Go (List FieldError)
  validate_among this_subnet cidr_format_errs none =
      ok (cidr_format_errs ++ internal_error this_subnet.vni ∷ [])
  validate_among this_subnet cidr_format_errs (some subnets) =
      let errs = cidr_format_errs ++ check_same_vni_same_ns this_subnet subnets in
      if empty cidr_format_errs
      then and_errors errs (check_cidr_does_not_overlap this_subnet subnets)
      else ok errs

  -- `Validate`, given what the subnet lister returns.
  unfoldable pub validate : Option (List (Subnet Status)) → Subnet Status → Go (List FieldError)
  validate listed this_subnet =
      let vni_range_errs = check_vni_range this_subnet in
      let cidr_format_errs = check_cidr_format this_subnet in
      if not (empty vni_range_errs)
      then ok (vni_range_errs ++ cidr_format_errs)
      else validate_among this_subnet cidr_format_errs (all_subnets_with_vni listed this_subnet.vni)

  -- `ValidateUpdate`.
  unfoldable pub validate_update :
      Option (List (Subnet Status)) → Subnet Status → Subnet Status → Go (List FieldError)
  validate_update listed subnet old = validate listed subnet
