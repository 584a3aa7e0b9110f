-- ===== src/Ipam/Analysis/Decision.antt =====
-- Which locks of a NetworkAttachment are released, and which one is kept.
use kube_examples.Common.{
  ℕ, ◌≡◌, ◌≢◌, refl, sym, ap, ◌∙◌, Bool, true, false, not, ◌&&◌, ◌||◌, Option, List, [], ◌∷◌,
  if◌then◌else◌, All, arith, Bool-cases, inl, inr,
}
use kube_examples.GoNet.{IPv4, NetIp}
use kube_examples.GoText.{Text}
use kube_examples.Ipam.Locks.{ParsedLock, equal, has, best, add_list_func, rem_func}
use kube_examples.Ipam.Locks.Best.{best-unbeaten}
use kube_examples.Ipam.Locks.Membership.{
  IsDistinct, equal_refl, add_list_func-has, rem_func-has, has-member,
}
use kube_examples.Ipam.Analysis.{
  Attachment, Seen, is_some, is_undesired, choose_lock, choose_best, locks_to_release,
}

choose_best_rest :
    (list : List ParsedLock) → list ≢ [] → (choose_best list).1 ≡ (rem_func list (best list)).0
unfolding choose_best
choose_best_rest [] h = elim (h refl) [ ]
choose_best_rest (x ∷ list) h = refl

module _ (ip_string : IPv4 → Text) (parse_ip : Text → Option NetIp) (att : Option Attachment)
    (desired_vni desired_base_u desired_last_u : ℕ) where
  abbrev pub off : ParsedLock → Bool
  off = is_undesired ip_string parse_ip att desired_vni desired_base_u desired_last_u

  abbrev pub to_release : Seen → List ParsedLock
  to_release = locks_to_release ip_string parse_ip att desired_vni desired_base_u desired_last_u

  -- The lists of locks that the analysis makes: the undesired and the usable ones, no two of them
  -- equal, and the lock of the status among the usable ones.
  pub record IsSorted (seen : Seen) : Type 0 where
    pub usable_fit : All (λ p. off p ≡ false) seen.usable_locks
    pub undesired_off : All (λ p. off p ≡ true) seen.undesired_locks
    pub usable_distinct : IsDistinct seen.usable_locks
    pub undesired_distinct : IsDistinct seen.undesired_locks
    pub status_usable :
        is_some seen.lock_in_status.obj ≡ true → has seen.usable_locks seen.lock_in_status ≡ true

  off-equal : (x y : ParsedLock) → equal x y ≡ true → off x ≡ off y
  unfolding equal is_undesired
  off-equal x y e = ground arith

  same_side :
      (list : List ParsedLock) (b : Bool) (k : ParsedLock)
      → All (λ p. off p ≡ b) list
      → has list k ≡ true
      → off k ≡ b
  unfolding has
  same_side [] b k h e = ground arith
  same_side (x ∷ list) b k h e = elim (Bool-cases (equal x k)) [
    | inl q ↦ sym (off-equal x k q) ∙ h.0
    | inr q ↦ same_side list b k h.1 (ground arith)
  ]

  -- One usable lock is kept; the undesired locks and the other usable ones are released.
  abbrev pub Keeps : Seen → ParsedLock → Type 0
  Keeps seen k =
      (has seen.usable_locks k ≡ true)
      × (has (to_release seen) k ≡ false)
      × ((y : ParsedLock)
          → has (to_release seen) y
            ≡ (has seen.undesired_locks y || (has seen.usable_locks y && not (equal k y))))

  released :
      (seen : Seen) (k : ParsedLock)
      → IsSorted seen
      → has seen.usable_locks k ≡ true
      → to_release seen ≡ (add_list_func seen.undesired_locks (rem_func seen.usable_locks k).0).0
      → Keeps seen k
  released seen k s e code = (e, kept, all)
    where
      all :
          (y : ParsedLock)
          → has (to_release seen) y
            ≡ (has seen.undesired_locks y || (has seen.usable_locks y && not (equal k y)))
      all y =
          let added =
            (add_list_func-has seen.undesired_locks (rem_func seen.usable_locks k).0 y
              s.undesired_distinct).0 in
          let removed = (rem_func-has seen.usable_locks k y s.usable_distinct).2 in
          ap (λ l. has l y) code ∙ added ∙ ap (λ b. has seen.undesired_locks y || b) removed

      kept : has (to_release seen) k ≡ false
      kept = elim (Bool-cases (has seen.undesired_locks k)) [
        | inl q ↦
            let on = same_side seen.usable_locks false k s.usable_fit e in
            let off_too = same_side seen.undesired_locks true k s.undesired_off q in ground arith
        | inr q ↦ all k ∙ ground (arith, equal_refl k)
      ]

  -- For an attachment that exists and has usable locks, one usable lock is kept: the lock in its
  -- status, if there is one, and otherwise the best. What is released is the undesired locks and
  -- the other usable ones.
  pub locks_to_release-Keeps :
      (seen : Seen)
      → is_some att ≡ true
      → IsSorted seen
      → seen.usable_locks ≢ []
      → Keeps seen
          (if is_some seen.lock_in_status.obj then seen.lock_in_status else best seen.usable_locks)
  unfolding locks_to_release choose_lock
  locks_to_release-Keeps seen exists s some_usable =
      elim (Bool-cases (is_some seen.lock_in_status.obj)) [
        | inl e ↦ rw e (
            released seen seen.lock_in_status s (s.status_usable e)
              (rw (locks_to_release, choose_lock, exists, e) refl))
        | inr e ↦ rw e (
            released seen (best seen.usable_locks) s
              (has-member (best seen.usable_locks) seen.usable_locks
                (best-unbeaten seen.usable_locks some_usable).0)
              (rw (locks_to_release, choose_lock, exists, e)
                (ap (λ l. (add_list_func seen.undesired_locks l).0)
                  (choose_best_rest seen.usable_locks some_usable))))
      ]

  -- For an attachment that does not exist any more all of the locks are released.
  pub locks_to_release_all :
      (seen : Seen) (y : ParsedLock)
      → is_some att ≡ false
      → IsDistinct seen.undesired_locks
      → has (to_release seen) y ≡ (has seen.undesired_locks y || has seen.usable_locks y)
  unfolding locks_to_release choose_lock
  locks_to_release_all seen y gone d =
      rw (locks_to_release, choose_lock, gone)
        (add_list_func-has seen.undesired_locks seen.usable_locks y d).0
