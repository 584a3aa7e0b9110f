-- ===== src/Ipam/Analysis/Sorting.antt =====
-- Into which lists analyzeAndRelease sorts the locks that a NetworkAttachment owns.
use kube_examples.Common.{
  ℕ, ◌≡◌, refl, sym, ap, ◌∙◌, Bool, true, false, not, ◌&&◌, Option, none, some, List, [], ◌∷◌, ◌++◌,
  leb, ◌==◌, if◌then◌else◌, arith, Option-cases, inl, inr,
}
use mathlib.Core.List.{append_assoc}
use kube_examples.GoNet.{IPv4, NetIp}
use kube_examples.GoText.{Text, text_eq}
use kube_examples.Ipam.LockName.{uint32_to_ipv4}
use kube_examples.Ipam.Locks.{ParsedLock, IpLock, new_parsed_lock, get_ip}
use kube_examples.Ipam.Owners.{network_attachment, get_owner}
use kube_examples.Ipam.Analysis.{
  Attachment, Seen, nothing_seen, is_time_slipper, is_undesired, is_in_status, consider_parsed,
  consider, consider_all,
}

-- The locks whose names parse and which pass a test, in their order.
abbrev pub kept_if : Bool → ParsedLock → List ParsedLock
kept_if b p = if b then p ∷ [] else []

abbrev pub kept_one : (IpLock → ParsedLock → Bool) → IpLock → Option ParsedLock → List ParsedLock
kept_one test ipl none = []
kept_one test ipl (some p) = kept_if (test ipl p) p

abbrev pub kept : (IpLock → ParsedLock → Bool) → List IpLock → List ParsedLock
kept test [] = []
kept test (ipl ∷ ipls) = kept_one test ipl (new_parsed_lock ipl) ++ kept test ipls

-- The last of a list, if there is one.
abbrev pub last_of : ParsedLock → List ParsedLock → ParsedLock
last_of old [] = old
last_of old (p ∷ ps) = last_of p ps

append_end : {A : Type 0} (xs : List A) → xs ++ [] ≡ xs
append_end [] = refl
append_end (x ∷ xs) = ap (λ l. x ∷ l) (append_end xs)

last_of-append :
    (old : ParsedLock) (xs ys : List ParsedLock)
    → last_of (last_of old xs) ys ≡ last_of old (xs ++ ys)
last_of-append old [] ys = refl
last_of-append old (x ∷ xs) ys = last_of-append x xs ys

module _ (ip_string : IPv4 → Text) (parse_ip : Text → Option NetIp) (att : Option Attachment)
    (desired_vni desired_base_u desired_last_u : ℕ) where
  -- The owner of the lock has the UID of the attachment, or the attachment does not exist.
  abbrev pub is_own_edition : IpLock → Bool
  is_own_edition ipl = elim att [
    | none ↦ true
    | some a ↦ text_eq (get_owner ipl network_attachment).1 a.uid
  ]

  -- The lock has the VNI, and its address is within the bounds.
  abbrev pub is_inside : ParsedLock → Bool
  is_inside p = p.vni == desired_vni && leb desired_base_u p.addr_u && leb p.addr_u desired_last_u

  -- The status of the attachment has the UID of the lock and its address.
  abbrev pub names_status : ParsedLock → Bool
  names_status p = elim att [
    | none ↦ false
    | some a ↦
        not (text_eq a.status_ipv4 [])
        && text_eq p.uid a.status_lock_uid
        && text_eq a.status_ipv4 (ip_string (uint32_to_ipv4 p.addr_u))
  ]

  abbrev slips : IpLock → ParsedLock → Bool
  slips ipl p = not (is_own_edition ipl)

  abbrev off : IpLock → ParsedLock → Bool
  off ipl p = is_own_edition ipl && not (is_inside p)

  abbrev fits : IpLock → ParsedLock → Bool
  fits ipl p = is_own_edition ipl && is_inside p

  abbrev named : IpLock → ParsedLock → Bool
  named ipl p = is_own_edition ipl && is_inside p && names_status p

  abbrev more :
      (IpLock → ParsedLock → Bool) → IpLock → List IpLock → Option ParsedLock → List ParsedLock
  more test ipl ipls o = kept_one test ipl o ++ kept test ipls

  -- What the lists are after some locks, from what they were.
  pub record SortedFrom (seen : Seen) (ipls : List IpLock) (left : Seen) : Type 0 where
    pub slipped : left.time_slippers ≡ seen.time_slippers ++ kept slips ipls
    pub undesired : left.undesired_locks ≡ seen.undesired_locks ++ kept off ipls
    pub usable : left.usable_locks ≡ seen.usable_locks ++ kept fits ipls
    pub in_status : left.lock_in_status ≡ last_of seen.lock_in_status (kept named ipls)

  own_time_slipper :
      (ipl : IpLock)
      → is_time_slipper ip_string parse_ip att desired_vni desired_base_u desired_last_u ipl
        ≡ not (is_own_edition ipl)
  unfolding is_time_slipper
  own_time_slipper ipl = elim (Option-cases att) [
    | inl e ↦ rw (is_time_slipper, e) refl
    | inr (a, e) ↦ rw (is_time_slipper, e) refl
  ]

  inside_undesired :
      (p : ParsedLock)
      → is_undesired ip_string parse_ip att desired_vni desired_base_u desired_last_u p
        ≡ not (is_inside p)
  unfolding is_undesired
  inside_undesired p = ground arith

  status_names :
      (p : ParsedLock)
      → is_in_status ip_string parse_ip att desired_vni desired_base_u desired_last_u p
        ≡ names_status p
  unfolding is_in_status get_ip
  status_names p = elim (Option-cases att) [
    | inl e ↦ rw (is_in_status, e) refl
    | inr (a, e) ↦ rw (is_in_status, e) (ground arith)
  ]

  -- What one lock does, by its tests.
  record StepFrom (a b c : Bool) (p : ParsedLock) (seen left : Seen) : Type 0 where
    slipped : left.time_slippers ≡ seen.time_slippers ++ kept_if (not a) p
    undesired : left.undesired_locks ≡ seen.undesired_locks ++ kept_if (a && not b) p
    usable : left.usable_locks ≡ seen.usable_locks ++ kept_if (a && b) p
    in_status : left.lock_in_status ≡ last_of seen.lock_in_status (kept_if (a && b && c) p)

  step-StepFrom :
      (seen : Seen) (ipl : IpLock) (p : ParsedLock) (a b c : Bool)
      → is_time_slipper ip_string parse_ip att desired_vni desired_base_u desired_last_u ipl ≡ not a
      → is_undesired ip_string parse_ip att desired_vni desired_base_u desired_last_u p ≡ not b
      → is_in_status ip_string parse_ip att desired_vni desired_base_u desired_last_u p ≡ c
      → StepFrom a b c p seen (
          consider_parsed ip_string parse_ip att desired_vni desired_base_u desired_last_u seen ipl
            p)
  unfolding consider_parsed
  step-StepFrom seen ipl p false b c t u w =
      rw (consider_parsed, t)
        record {
          slipped = refl;
          undesired = sym (append_end seen.undesired_locks);
          usable = sym (append_end seen.usable_locks);
          in_status = refl;
        }
  step-StepFrom seen ipl p true false c t u w =
      rw (consider_parsed, t, u)
        record {
          slipped = sym (append_end seen.time_slippers);
          undesired = refl;
          usable = sym (append_end seen.usable_locks);
          in_status = refl;
        }
  step-StepFrom seen ipl p true true c t u w =
      rw (consider_parsed, t, u, w)
        record {
          slipped = sym (append_end seen.time_slippers);
          undesired = sym (append_end seen.undesired_locks);
          usable = refl;
          in_status = chosen c;
        }
    where
      chosen :
          (c : Bool)
          → (if c then p else seen.lock_in_status) ≡ last_of seen.lock_in_status (kept_if c p)
      chosen true = refl
      chosen false = refl

  -- One lock, and then the others.
  onward :
      {A : Type 0} (old one all : List A) (mid left : List A)
      → mid ≡ old ++ one
      → left ≡ mid ++ all
      → left ≡ old ++ (one ++ all)
  onward old one all mid left e f = f ∙ ap (λ l. l ++ all) e ∙ append_assoc old one all

  all_from :
      (seen : Seen) (ipls : List IpLock)
      → SortedFrom seen ipls
          (consider_all ip_string parse_ip att desired_vni desired_base_u desired_last_u seen ipls)
  unfolding consider_all consider
  all_from seen [] = record {
    slipped = sym (append_end seen.time_slippers);
    undesired = sym (append_end seen.undesired_locks);
    usable = sym (append_end seen.usable_locks);
    in_status = refl;
  }
  all_from seen (ipl ∷ ipls) = elim (Option-cases (new_parsed_lock ipl)) [
    | inl e ↦
        let later = all_from seen ipls in
        rw (consider_all, consider, e)
          record {
            slipped = later.slipped ∙ ap (λ o. seen.time_slippers ++ more slips ipl ipls o) (sym e);
            undesired =
                later.undesired ∙ ap (λ o. seen.undesired_locks ++ more off ipl ipls o) (sym e);
            usable = later.usable ∙ ap (λ o. seen.usable_locks ++ more fits ipl ipls o) (sym e);
            in_status =
                later.in_status
                ∙ ap (λ o. last_of seen.lock_in_status (more named ipl ipls o)) (sym e);
          }
    | inr (p, e) ↦
        let mid =
          consider_parsed ip_string parse_ip att desired_vni desired_base_u desired_last_u seen ipl
            p in
        let one =
          step-StepFrom seen ipl p (is_own_edition ipl) (is_inside p) (names_status p)
            (own_time_slipper ipl) (inside_undesired p) (status_names p) in
        let later = all_from mid ipls in
        rw (consider_all, consider, e)
          record {
            slipped =
                onward seen.time_slippers _ _ mid.time_slippers _ one.slipped later.slipped
                ∙ ap (λ o. seen.time_slippers ++ more slips ipl ipls o) (sym e);
            undesired =
                onward seen.undesired_locks _ _ mid.undesired_locks _ one.undesired later.undesired
                ∙ ap (λ o. seen.undesired_locks ++ more off ipl ipls o) (sym e);
            usable =
                onward seen.usable_locks _ _ mid.usable_locks _ one.usable later.usable
                ∙ ap (λ o. seen.usable_locks ++ more fits ipl ipls o) (sym e);
            in_status =
                later.in_status
                ∙ ap (λ l. last_of l (kept named ipls)) one.in_status
                ∙ last_of-append seen.lock_in_status (kept_if (named ipl p) p) (kept named ipls)
                ∙ ap (λ o. last_of seen.lock_in_status (more named ipl ipls o)) (sym e);
          }
  ]

  -- The lists that the loop over the owned locks makes hold the locks whose names parse, in their
  -- order: the time slippers are those of another edition of the attachment, which exists; of the
  -- others, the usable ones are those with the VNI of the subnet and an address within its bounds,
  -- and the undesired ones are the rest. The lock of the status is the last usable one whose UID and
  -- address are those in the status, or none.
  pub consider_all-SortedFrom :
      (ipls : List IpLock)
      → SortedFrom nothing_seen ipls (
          consider_all ip_string parse_ip att desired_vni desired_base_u desired_last_u nothing_seen
            ipls)
  consider_all-SortedFrom ipls = all_from nothing_seen ipls
