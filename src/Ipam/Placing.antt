-- ===== src/Ipam/Placing.antt =====
-- analyzeAndRelease of staging/kos/pkg/controllers/ipam/ipam.go as a whole: where the subnet of an
-- attachment places it, and what Ipam/Analysis makes of its locks there.
use kube_examples.Common.{
  ℕ, Bool, true, false, not, Option, none, some, List, [], ◌∷◌, ◌++◌, Go, ok, ◌>>=◌,
}
use kube_examples.GoNet.{IPv4, NetIp, NetBlock}
use kube_examples.GoText.{Text, codes}
use kube_examples.Ipam.LockName.{block_to_bounds_u}
use kube_examples.Ipam.Locks.{IpLock, ParsedLock, zero_parsed_lock}
use kube_examples.Ipam.Analysis.{
  Attachment, NetworkAttachmentData, Seen, nothing_seen, consider_all, consider_status,
  refresh_anticipation, choose_lock, locks_to_release, DeleteAnswer, release_all,
}

-- What a lister answers: the object, that it is not found, or another error.
pub data LookupAnswer {ℓ} (A : Type ℓ) : Type ℓ where
  found : A → LookupAnswer A
  missing : LookupAnswer A
  lookup_failed : LookupAnswer A

-- `Subnet`, the parts that the controller reads.
pub record DesiredSubnet : Type 0 where
  pub vni : ℕ
  pub ipv4 : Text
  pub resource_version : Text

-- What the subnet comes to: the lister failed; there are errors for the status; or the VNI and the
-- bounds of the addresses.
pub data Placement : Type 0 where
  unknown : Placement
  misplaced : Text → ℕ → List Text → Placement
  placed : Text → ℕ → ℕ → ℕ → Placement

-- The results of `analyzeAndRelease`: `err` is whether the error is not nil, `proceeds` the last
-- one. With the data of the attachment, which it writes, and the locks that it deleted.
pub record Analysis : Type 0 where
  pub subnet_rv : Text
  pub desired_vni : ℕ
  pub desired_base_u : ℕ
  pub desired_last_u : ℕ
  pub lock_in_status : ParsedLock
  pub lock_for_status : ParsedLock
  pub status_errs : List Text
  pub err : Bool
  pub proceeds : Bool
  pub nadat : Option NetworkAttachmentData
  pub released : List ParsedLock

-- The analysis that found nothing.
abbrev pub nothing_found : Option NetworkAttachmentData → Analysis
nothing_found nadat = record {
  subnet_rv = codes ".";
  desired_vni = 0;
  desired_base_u = 0;
  desired_last_u = 0;
  lock_in_status = zero_parsed_lock;
  lock_for_status = zero_parsed_lock;
  status_errs = [];
  err = false;
  proceeds = false;
  nadat = nadat;
  released = [];
}

-- `parse_cidr` is the network of `ParseCIDR` of package net, none for an error.
module _ (parse_cidr : Text → Option NetBlock) where
  unfoldable pub place_in : Text → DesiredSubnet → Go Placement
  place_in subnet_name subnet = elim (parse_cidr subnet.ipv4) [
    | none ↦ ok (
        misplaced subnet.resource_version subnet.vni (
          (codes "Subnet "
            ++ subnet_name
            ++ codes " has malformed IPv4 CIDR block ("
            ++ subnet.ipv4
            ++ codes ")")
          ∷ []))
    | some ip_net ↦ do
      (base, last) ← block_to_bounds_u ip_net
      ok (placed subnet.resource_version subnet.vni base last)
  ]

  unfoldable pub place_of : Text → LookupAnswer DesiredSubnet → Go Placement
  place_of subnet_name (found subnet) = place_in subnet_name subnet
  place_of subnet_name missing =
      ok
        (misplaced (codes ".") 0 ((codes "Subnet " ++ subnet_name ++ codes " does not exist") ∷ []))
  place_of subnet_name lookup_failed = ok unknown

  -- The first half of `analyzeAndRelease`, with the lister of subnets.
  unfoldable pub find_place : (Text → LookupAnswer DesiredSubnet) → Option Attachment → Go Placement
  find_place subnets none = ok (placed (codes ".") 0 0 0)
  find_place subnets (some a) = place_of a.subnet (subnets a.subnet)

-- `ip_string` and `parse_ip` are `IP.String` and `ParseIP`; `owned` is what the index says of the
-- owner's name, none for an error; `get_lock` and `delete` are Get and Delete of the API server.
module _ (ip_string : IPv4 → Text) (parse_ip : Text → Option NetIp) (owned : Option (List IpLock))
    (get_lock : Text → Option IpLock) (delete : ParsedLock → DeleteAnswer)
    (att : Option Attachment) where
  unfoldable pub seen_locks : ℕ → ℕ → ℕ → List IpLock → Go Seen
  seen_locks vni base last ipls =
      consider_status ip_string parse_ip att vni base last get_lock
        (consider_all ip_string parse_ip att vni base last nothing_seen ipls)

  unfoldable pub refresh : Text → Option NetworkAttachmentData → Option NetworkAttachmentData
  refresh subnet_rv none = none
  refresh subnet_rv (some nadat) =
      some (refresh_anticipation ip_string parse_ip att 0 0 0 subnet_rv nadat)

  -- What follows once the locks are considered.
  unfoldable pub decide : Text → ℕ → ℕ → ℕ → Option NetworkAttachmentData → Seen → Analysis
  decide subnet_rv vni base last nadat seen =
      let went = release_all delete (locks_to_release ip_string parse_ip att vni base last seen) in
      record {
        subnet_rv = subnet_rv;
        desired_vni = vni;
        desired_base_u = base;
        desired_last_u = last;
        lock_in_status = seen.lock_in_status;
        lock_for_status = (choose_lock ip_string parse_ip att vni base last seen).0;
        status_errs = [];
        err = went.1;
        proceeds = not went.1;
        nadat = refresh subnet_rv nadat;
        released = went.0;
      }

  -- The second half, for the locks of the index.
  unfoldable pub analyze_owned :
      Text → ℕ → ℕ → ℕ → Option NetworkAttachmentData → Option (List IpLock) → Go Analysis
  analyze_owned subnet_rv vni base last nadat none = ok (nothing_found nadat)
  analyze_owned subnet_rv vni base last nadat (some ipls) = do
    seen ← seen_locks vni base last ipls
    ok (decide subnet_rv vni base last nadat seen)

  unfoldable pub analyze_at : Option NetworkAttachmentData → Placement → Go Analysis
  analyze_at nadat unknown = ok (nothing_found nadat)
  analyze_at nadat (misplaced subnet_rv vni errs) = ok (record (nothing_found nadat) {
    subnet_rv = subnet_rv;
    desired_vni = vni;
    status_errs = errs;
    proceeds = true;
  })
  analyze_at nadat (placed subnet_rv vni base last) =
      analyze_owned subnet_rv vni base last nadat owned

  -- `analyzeAndRelease`.
  unfoldable pub analyze_and_release :
      (Text → Option NetBlock)
      → (Text → LookupAnswer DesiredSubnet)
      → Option NetworkAttachmentData
      → Go Analysis
  analyze_and_release parse_cidr subnets nadat = do
    place ← find_place parse_cidr subnets att
    analyze_at nadat place
