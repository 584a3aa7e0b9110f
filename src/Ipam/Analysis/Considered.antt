-- ===== src/Ipam/Analysis/Considered.antt =====
-- How analyzeAndRelease sorts the locks that a NetworkAttachment owns.
use kube_examples.Common.{
  ℕ, ◌≡◌, refl, ◌∙◌, Bool, true, false, Option, none, some, List, [], ◌∷◌, ◌++◌, if◌then◌else◌, All,
  All-append, arith, Bool-cases, inl, inr,
}
use kube_examples.GoNet.{IPv4, NetIp}
use kube_examples.GoText.{Text}
use kube_examples.Ipam.Locks.{ParsedLock, IpLock, new_parsed_lock, zero_parsed_lock, equal, has}
use kube_examples.Ipam.Locks.Membership.{
  IsDistinct, equal-sym, equal_refl, has-append, append-IsDistinct,
}
use kube_examples.Ipam.Analysis.{
  Attachment, Seen, nothing_seen, is_some, is_time_slipper, is_in_status, consider_parsed, consider,
  consider_all,
}
use kube_examples.Ipam.Analysis.Decision.{IsSorted, off}

-- The locks whose names parse.
abbrev pub parsed_all : List IpLock → List ParsedLock
parsed_all [] = []
parsed_all (ipl ∷ ipls) = elim (new_parsed_lock ipl) [
  | none ↦ parsed_all ipls
  | some parsed ↦ parsed ∷ parsed_all ipls
]

-- A lock that no list has yet.
abbrev New : Seen → ParsedLock → Type 0
New seen p = (has seen.usable_locks p ≡ false) × (has seen.undesired_locks p ≡ false)

status_kept :
    (list : List ParsedLock) (p old : ParsedLock) (b : Bool)
    → (is_some old.obj ≡ true → has list old ≡ true)
    → is_some (if b then p else old).obj ≡ true
    → has (list ++ p ∷ []) (if b then p else old) ≡ true
status_kept list p old true h e = has-append list p p ∙ ground (arith, equal_refl p)
status_kept list p old false h e = has-append list p old ∙ ground (arith, h e)

-- Locks that are not equal to `p`.
abbrev Apart : ParsedLock → List ParsedLock → Type 0
Apart p = All (λ q. equal p q ≡ false)

apart : (p : ParsedLock) (list : List ParsedLock) → has list p ≡ false → Apart p list
unfolding has
apart p [] h = tt
apart p (q ∷ list) h = (equal-sym p q ∙ ground arith, apart p list (ground arith))

All-New : (list : List ParsedLock) → All (New nothing_seen) list
unfolding nothing_seen has
All-New [] = tt
All-New (p ∷ list) = ((refl, refl), All-New list)

module _ (ip_string : IPv4 → Text) (parse_ip : Text → Option NetIp) (att : Option Attachment)
    (desired_vni desired_base_u desired_last_u : ℕ) where
  abbrev Sorted : Seen → Type 0
  Sorted = IsSorted ip_string parse_ip att desired_vni desired_base_u desired_last_u

  abbrev step : Seen → IpLock → ParsedLock → Seen
  step = consider_parsed ip_string parse_ip att desired_vni desired_base_u desired_last_u

  nothing_seen-Sorted : Sorted nothing_seen
  unfolding nothing_seen zero_parsed_lock
  nothing_seen-Sorted = record {
    usable_fit = tt;
    undesired_off = tt;
    usable_distinct = tt;
    undesired_distinct = tt;
    status_usable = λ e. cc;
  }

  step-Sorted :
      (seen : Seen) (ipl : IpLock) (p : ParsedLock)
      → Sorted seen
      → New seen p
      → Sorted (step seen ipl p)
  unfolding consider_parsed
  step-Sorted seen ipl p s n =
      elim (Bool-cases
        (is_time_slipper ip_string parse_ip att desired_vni desired_base_u desired_last_u ipl)) [
          | inl e ↦
              rw (consider_parsed, e)
                record {
                  usable_fit = s.usable_fit;
                  undesired_off = s.undesired_off;
                  usable_distinct = s.usable_distinct;
                  undesired_distinct = s.undesired_distinct;
                  status_usable = s.status_usable;
                }
          | inr e ↦
              elim (Bool-cases
                (off ip_string parse_ip att desired_vni desired_base_u desired_last_u p)) [
                  | inl o ↦
                      rw (consider_parsed, e, o)
                        record {
                          usable_fit = s.usable_fit;
                          undesired_off =
                              All-append _ seen.undesired_locks (p ∷ []) s.undesired_off (o, tt);
                          usable_distinct = s.usable_distinct;
                          undesired_distinct =
                              append-IsDistinct seen.undesired_locks p s.undesired_distinct n.1;
                          status_usable = s.status_usable;
                        }
                  | inr o ↦
                      rw (consider_parsed, e, o)
                        record {
                          usable_fit = All-append _ seen.usable_locks (p ∷ []) s.usable_fit (o, tt);
                          undesired_off = s.undesired_off;
                          usable_distinct =
                              append-IsDistinct seen.usable_locks p s.usable_distinct n.0;
                          undesired_distinct = s.undesired_distinct;
                          status_usable =
                              status_kept seen.usable_locks p seen.lock_in_status
                                (is_in_status ip_string parse_ip att desired_vni desired_base_u
                                  desired_last_u p)
                                s.status_usable;
                        }
                ]
        ]

  step-New :
      (seen : Seen) (ipl : IpLock) (p q : ParsedLock)
      → New seen q
      → equal p q ≡ false
      → New (step seen ipl p) q
  unfolding consider_parsed
  step-New seen ipl p q n d =
      elim (Bool-cases
        (is_time_slipper ip_string parse_ip att desired_vni desired_base_u desired_last_u ipl)) [
          | inl e ↦ rw (consider_parsed, e) n
          | inr e ↦
              elim (Bool-cases
                (off ip_string parse_ip att desired_vni desired_base_u desired_last_u p)) [
                  | inl o ↦
                      rw (consider_parsed, e, o)
                        (n.0, has-append seen.undesired_locks p q ∙ ground (arith, n.1))
                  | inr o ↦
                      rw (consider_parsed, e, o)
                        (has-append seen.usable_locks p q ∙ ground (arith, n.0), n.1)
                ]
        ]

  steps-New :
      (seen : Seen) (ipl : IpLock) (p : ParsedLock) (list : List ParsedLock)
      → All (New seen) list
      → Apart p list
      → All (New (step seen ipl p)) list
  steps-New seen ipl p [] n d = tt
  steps-New seen ipl p (q ∷ list) n d =
      (step-New seen ipl p q n.0 d.0, steps-New seen ipl p list n.1 d.1)

  abbrev run : Seen → List IpLock → Seen
  run = consider_all ip_string parse_ip att desired_vni desired_base_u desired_last_u

  -- One round, given what the later ones do.
  onward :
      (seen : Seen) (ipl : IpLock) (o : Option ParsedLock) (list : List ParsedLock)
      (later : Seen → Seen)
      → ((l : Seen) → Sorted l → IsDistinct list → All (New l) list → Sorted (later l))
      → Sorted seen
      → IsDistinct (elim o [ none ↦ list | some parsed ↦ parsed ∷ list ])
      → All (New seen) (elim o [ none ↦ list | some parsed ↦ parsed ∷ list ])
      → Sorted (later (elim o [ none ↦ seen | some parsed ↦ step seen ipl parsed ]))
  onward seen ipl none list later ih s d n = ih seen s d n
  onward seen ipl (some p) list later ih s d n =
      ih (step seen ipl p) (step-Sorted seen ipl p s n.0) d.1
        (steps-New seen ipl p list n.1 (apart p list d.0))

  run-Sorted :
      (seen : Seen) (ipls : List IpLock)
      → Sorted seen
      → IsDistinct (parsed_all ipls)
      → All (New seen) (parsed_all ipls)
      → Sorted (run seen ipls)
  unfolding consider_all consider
  run-Sorted seen [] s d n = s
  run-Sorted seen (ipl ∷ ipls) s d n =
      onward seen ipl (new_parsed_lock ipl) (parsed_all ipls) (λ l. run l ipls)
        (λ l. run-Sorted l ipls) s d n

  -- The lists that the loop over the owned locks makes are sorted, if no two of the locks whose
  -- names parse are equal: the usable ones are wanted, the undesired ones are not, no two in a list
  -- are equal, and the lock of the status, if it is found, is a usable one.
  pub consider_all-IsSorted :
      (ipls : List IpLock)
      → IsDistinct (parsed_all ipls)
      → IsSorted ip_string parse_ip att desired_vni desired_base_u desired_last_u (
          consider_all ip_string parse_ip att desired_vni desired_base_u desired_last_u nothing_seen
            ipls)
  consider_all-IsSorted ipls d =
      run-Sorted nothing_seen ipls nothing_seen-Sorted d (All-New (parsed_all ipls))
