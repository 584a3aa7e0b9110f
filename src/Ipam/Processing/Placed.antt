-- ===== src/Ipam/Processing/Placed.antt =====
-- What the analysis of an attachment says of its subnet and its data.
use kube_examples.Common.{
  ℕ, ◌≡◌, ◌≢◌, ◌≤◌, ◌<◌, refl, sym, subst, arith, true, false, Option, none, some, List, [], two_32,
  Option-cases, Bool-cases, inl, inr, Go, ok, panic, ◌>>=◌, OnOk,
}
use kube_examples.GoNet.{
  IPv4, IpNet, NetIp, ip_in_four, ip_only_six, NetBlock, block_in_four, block_only_six,
}
use kube_examples.GoText.{Text, text_eq}
use kube_examples.Ipam.LockName.{ip_net_to_bounds_u, ip_to_uint32, block_to_bounds_u}
use kube_examples.Ipam.LockName.Bounds.{IsCut, cut_bounds}
use kube_examples.Ipam.Locks.{IpLock, ParsedLock}
use kube_examples.Ipam.Analysis.{
  Attachment, NetworkAttachmentData, DeleteAnswer, Seen, nothing_seen, consider_all,
  consider_status_ip, consider_status,
}
use kube_examples.Ipam.Placing.{
  LookupAnswer, found, missing, lookup_failed, DesiredSubnet, Placement, unknown, misplaced, placed,
  Analysis, place_in, place_of, find_place, refresh, seen_locks, decide, analyze_owned, analyze_at,
}
use kube_examples.Ipam.Processing.{is_nil}

-- The bounds of a place are of 32 bits.
abbrev pub Bounded : Placement → Type 0
Bounded unknown = Unit
Bounded (misplaced subnet_rv vni errs) = Unit
Bounded (placed subnet_rv vni base last) = (base ≤ last) × (last < two_32)

-- A place without bounds has errors for the status.
abbrev pub Explained : Placement → Type 0
Explained unknown = Unit
Explained (misplaced subnet_rv vni errs) = is_nil errs ≡ false
Explained (placed subnet_rv vni base last) = Unit

-- The networks that `ParseCIDR` gives with an address of four bytes are masked, and leave at most 32
-- bits.
abbrev pub GivesCut : (Text → Option NetBlock) → Type 0
GivesCut parse_cidr = (t : Text) (net : IpNet) → parse_cidr t ≡ some (block_in_four net) → IsCut net

last_small : (net : IpNet) → (ip_net_to_bounds_u net).1 < two_32
unfolding ip_net_to_bounds_u
last_small net = omega arith

module _ (parse_cidr : Text → Option NetBlock) where
  place_in-Explained :
      (subnet_name : Text) (subnet : DesiredSubnet)
      → OnOk Explained (place_in parse_cidr subnet_name subnet)
  unfolding place_in block_to_bounds_u
  place_in-Explained subnet_name subnet = elim (Option-cases (parse_cidr subnet.ipv4)) [
    | inl e ↦ rw (place_in, e) refl
    | inr (block_in_four net, e) ↦ rw (place_in, e) tt
    | inr (block_only_six, e) ↦ rw (place_in, e) tt
  ]

  find_place-Explained :
      (subnets : Text → LookupAnswer DesiredSubnet) (att : Option Attachment)
      → OnOk Explained (find_place parse_cidr subnets att)
  unfolding find_place place_of
  find_place-Explained subnets none = tt
  find_place-Explained subnets (some a) = go (subnets a.subnet)
    where
      go :
          (answer : LookupAnswer DesiredSubnet)
          → OnOk Explained (place_of parse_cidr a.subnet answer)
      go (found subnet) = place_in-Explained a.subnet subnet
      go missing = refl
      go lookup_failed = tt

  pub found-Explained :
      (subnets : Text → LookupAnswer DesiredSubnet) (att : Option Attachment) (place : Placement)
      → find_place parse_cidr subnets att ≡ ok place
      → Explained place
  found-Explained subnets att place e = subst (OnOk Explained) e (find_place-Explained subnets att)

  module _ (cut : GivesCut parse_cidr) where
    place_in-Bounded :
        (subnet_name : Text) (subnet : DesiredSubnet)
        → OnOk Bounded (place_in parse_cidr subnet_name subnet)
    unfolding place_in block_to_bounds_u
    place_in-Bounded subnet_name subnet = elim (Option-cases (parse_cidr subnet.ipv4)) [
      | inl e ↦ rw (place_in, e) tt
      | inr (block_in_four net, e) ↦
          rw (place_in, e) (cut_bounds net (cut subnet.ipv4 net e), last_small net)
      | inr (block_only_six, e) ↦ rw (place_in, e) tt
    ]

    find_place-Bounded :
        (subnets : Text → LookupAnswer DesiredSubnet) (att : Option Attachment)
        → OnOk Bounded (find_place parse_cidr subnets att)
    unfolding find_place place_of
    find_place-Bounded subnets none = (omega arith, omega arith)
    find_place-Bounded subnets (some a) = go (subnets a.subnet)
      where
        go :
            (answer : LookupAnswer DesiredSubnet)
            → OnOk Bounded (place_of parse_cidr a.subnet answer)
        go (found subnet) = place_in-Bounded a.subnet subnet
        go missing = tt
        go lookup_failed = tt

    pub found-Bounded :
        (subnets : Text → LookupAnswer DesiredSubnet) (att : Option Attachment) (place : Placement)
        → find_place parse_cidr subnets att ≡ ok place
        → Bounded place
    found-Bounded subnets att place e = subst (OnOk Bounded) e (find_place-Bounded subnets att)

-- The analysis of a place: there is data, and where it proceeds without errors for the status its
-- VNI and bounds are those of the place.
pub record Placed (place : Placement) (an : Analysis) : Type 0 where
  pub data_of : NetworkAttachmentData
  pub has_data : an.nadat ≡ some data_of
  pub at_place :
      an.proceeds ≡ true
      → is_nil an.status_errs ≡ true
      → place ≡ placed an.subnet_rv an.desired_vni an.desired_base_u an.desired_last_u

module _ (ip_string : IPv4 → Text) (parse_ip : Text → Option NetIp) (owned : Option (List IpLock))
    (get_lock : Text → Option IpLock) (delete : ParsedLock → DeleteAnswer)
    (att : Option Attachment) where
  analyze_owned-Placed :
      (subnet_rv : Text) (vni base last : ℕ) (d : NetworkAttachmentData) (o : Option (List IpLock))
      → OnOk (Placed (placed subnet_rv vni base last)) (
          analyze_owned ip_string parse_ip owned get_lock delete att subnet_rv vni base last
            (some d)
            o)
  unfolding analyze_owned decide refresh
  analyze_owned-Placed subnet_rv vni base last d none = record {
    data_of = d;
    has_data = refl;
    at_place = λ h k. ground arith;
  }
  analyze_owned-Placed subnet_rv vni base last d (some ipls) =
      go (seen_locks ip_string parse_ip owned get_lock delete att vni base last ipls)
    where
      go :
          (seen : Go Seen)
          → OnOk (Placed (placed subnet_rv vni base last)) (
              seen >>= λ x. ok (
                decide ip_string parse_ip owned get_lock delete att subnet_rv vni base last
                  (some d)
                  x))
      go panic = tt
      go (ok x) = record { data_of = _; has_data = refl; at_place = λ h k. refl }

  analyze_at-Placed :
      (d : NetworkAttachmentData) (place : Placement)
      → Explained place
      → OnOk (Placed place) (analyze_at ip_string parse_ip owned get_lock delete att (some d) place)
  unfolding analyze_at
  analyze_at-Placed d unknown p = record {
    data_of = d;
    has_data = refl;
    at_place = λ h k. ground arith;
  }
  analyze_at-Placed d (misplaced subnet_rv vni errs) p = record {
    data_of = d;
    has_data = refl;
    at_place = λ h k. ground arith;
  }
  analyze_at-Placed d (placed subnet_rv vni base last) p =
      analyze_owned-Placed subnet_rv vni base last d owned

  pub analyzed-Placed :
      (o : Option NetworkAttachmentData) (d : NetworkAttachmentData) (place : Placement)
      (an : Analysis)
      → Explained place
      → o ≡ some d
      → analyze_at ip_string parse_ip owned get_lock delete att o place ≡ ok an
      → Placed place an
  analyzed-Placed o d place an p same e = subst (OnOk (Placed place)) e (
      subst
        (λ q. OnOk (Placed place) (analyze_at ip_string parse_ip owned get_lock delete att q place))
        (sym same) (analyze_at-Placed d place p))

-- The address in the status, if any, has a form of four bytes.
abbrev pub FourStatus : (Text → Option NetIp) → Attachment → Type 0
FourStatus parse_ip a = parse_ip a.status_ipv4 ≢ some ip_only_six

module _ (ip_string : IPv4 → Text) (parse_ip : Text → Option NetIp) (owned : Option (List IpLock))
    (get_lock : Text → Option IpLock) (delete : ParsedLock → DeleteAnswer) (a : Attachment)
    (four : FourStatus parse_ip a) where
  consider_status_returns :
      (vni base last : ℕ) (seen : Seen)
      → (x : Seen) × (consider_status ip_string parse_ip (some a) vni base last get_lock seen
          ≡ ok x)
  unfolding consider_status consider_status_ip ip_to_uint32
  consider_status_returns vni base last seen = elim (Bool-cases (text_eq a.status_ipv4 [])) [
    | inl e ↦ rw (consider_status, e) (_, refl)
    | inr e ↦ elim (Option-cases (parse_ip a.status_ipv4)) [
      | inl f ↦ rw (consider_status, e, f) (_, refl)
      | inr (ip_in_four ip, f) ↦ rw (consider_status, e, f) (_, refl)
      | inr (ip_only_six, f) ↦ elim (four f) [ ]
    ]
  ]

  pub analyze_at_returns :
      (o : Option NetworkAttachmentData) (place : Placement)
      → (an : Analysis) × (analyze_at ip_string parse_ip owned get_lock delete (some a) o place
          ≡ ok an)
  unfolding analyze_at analyze_owned seen_locks
  analyze_at_returns o unknown = (_, refl)
  analyze_at_returns o (misplaced subnet_rv vni errs) = (_, refl)
  analyze_at_returns o (placed subnet_rv vni base last) = go owned
    where
      go :
          (ipls : Option (List IpLock))
          → (an : Analysis) × (analyze_owned ip_string parse_ip owned get_lock delete
                (some a)
                subnet_rv
                vni
                base
                last
                o
                ipls
              ≡ ok an)
      go none = (_, refl)
      go (some ipls) =
          let (x, e) =
            consider_status_returns vni base last
              (consider_all ip_string parse_ip (some a) vni base last nothing_seen ipls) in
          rw (analyze_owned, e) (_, refl)
