-- ===== src/Ipam/Pick/Rounds.antt =====
-- The loop of pickAndLockAddress: which round is the last, and what its answers mean.
use kube_examples.Common.{
  ℕ, zero, suc, ◌+◌, ◌≤◌, ◌<◌, ◌≡◌, ◌⊎◌, refl, ◌∙◌, subst, inl, inr, Bool, true, false, not, ◌&&◌,
  dec_le, Option, none, some, if◌then◌else◌, Bool-cases, arith,
}
use kube_examples.GoText.{Text, text_eq}
use kube_examples.Ipam.Locks.{IpLock}
use kube_examples.Ipam.Owners.{network_attachment, get_owner}
use kube_examples.Ipam.Pick.{
  CreateAnswer, created, already_exists, invalid, other_error, GetAnswer, fetched, absent,
  get_error, LoopEnd, locked, fetch_failed, collision, permanent_error, transient_error, lock_round,
  recover, lock_loop,
}

-- The answers send the loop round again.
abbrev pub again : CreateAnswer × GetAnswer → Bool
again (already_exists, absent) = true
again _ = false

round_on :
    (name uid : Text) (a : CreateAnswer × GetAnswer) (rest : Option LoopEnd)
    → again a ≡ true
    → lock_round name uid a rest ≡ rest
unfolding lock_round
round_on name uid (created ipl, got) rest h = ground arith
round_on name uid (already_exists, fetched ipl2) rest h = ground arith
round_on name uid (already_exists, absent) rest h = refl
round_on name uid (already_exists, get_error) rest h = ground arith
round_on name uid (invalid, got) rest h = ground arith
round_on name uid (other_error, got) rest h = ground arith

round_ends :
    (name uid : Text) (a : CreateAnswer × GetAnswer)
    → again a ≡ false
    → (e : LoopEnd) × ((rest : Option LoopEnd) → lock_round name uid a rest ≡ some e)
unfolding lock_round
round_ends name uid (created ipl, got) h = (locked ipl, λ rest. refl)
round_ends name uid (already_exists, fetched ipl2) h = (recover name uid ipl2, λ rest. refl)
round_ends name uid (already_exists, absent) h = ground arith
round_ends name uid (already_exists, get_error) h = (fetch_failed, λ rest. refl)
round_ends name uid (invalid, got) h = (permanent_error, λ rest. refl)
round_ends name uid (other_error, got) h = (transient_error, λ rest. refl)

-- The last round of the loop, from a round on: the first one whose answers do not send it round
-- again.
abbrev pub IsLast : (ℕ → CreateAnswer × GetAnswer) → ℕ → ℕ → Type 0
IsLast answers round m =
    (round ≤ m)
    × (again (answers m) ≡ false)
    × ((k : ℕ) → round ≤ k → k < m → again (answers k) ≡ true)

earlier :
    (answers : ℕ → CreateAnswer × GetAnswer) (round m k : ℕ)
    → again (answers round) ≡ true
    → IsLast answers (suc round) m
    → round ≤ k
    → k < m
    → again (answers k) ≡ true
earlier answers round m k here later low high = elim (dec_le (suc round) k) [
  | yes l ↦ later.2 k l high
  | no l ↦ subst (λ i. again (answers i) ≡ true) {x = round} {y = k} (omega arith) here
]

pred_of : (n : ℕ) → (n ≡ 0) ⊎ ((k : ℕ) × (n ≡ suc k))
pred_of zero = inl refl
pred_of (suc n) = inr (n, refl)

pub lock_loop_ends :
    (name uid : Text) (answers : ℕ → CreateAnswer × GetAnswer) (fuel round n : ℕ)
    → again (answers (round + n)) ≡ false
    → n < fuel
    → (m : ℕ) × IsLast answers round m
      × ((e : LoopEnd) × (lock_loop name uid answers fuel round ≡ some e)
          × (lock_round name uid (answers m) none ≡ some e))
unfolding lock_loop
lock_loop_ends name uid answers zero round n h l = ground arith
lock_loop_ends name uid answers (suc fuel) round n h l = elim (Bool-cases (again (answers round))) [
  | inr stops ↦
      let (e, code) = round_ends name uid (answers round) stops in
      (round, (omega arith, stops, λ k low high. ground arith), (e, code _, code none))
  | inl goes ↦ elim (pred_of n) [
    | inl z ↦
        let stop = subst (λ k. again (answers k) ≡ false) {y = round} (omega arith) h in
        ground (arith, stop, goes)
    | inr (n2, z) ↦
        let (m, last, (e, code, means)) =
          lock_loop_ends name uid answers fuel (suc round) n2
            (subst (λ k. again (answers k) ≡ false) {y = suc round + n2} (omega arith) h)
            (omega arith) in
        (
          m,
          (omega (arith, last.0), last.1, λ k. earlier answers round m k goes last),
          (e, round_on name uid (answers round) _ goes ∙ code, means),
        )
  ]
]

-- Whether the end of the loop gives the address back to the cache, and whether it is an error.
abbrev pub gives_back : LoopEnd → Bool
gives_back (locked ipl) = false
gives_back fetch_failed = false
gives_back collision = false
gives_back permanent_error = true
gives_back transient_error = true

abbrev pub reports : LoopEnd → Bool
reports (locked ipl) = false
reports fetch_failed = true
reports collision = true
reports permanent_error = false
reports transient_error = true

abbrev pub object_of : LoopEnd → Option IpLock
object_of (locked ipl) = some ipl
object_of _ = none

-- The lock that is there has the attachment, of this name and UID, as its owner.
abbrev pub is_own : Text → Text → IpLock → Bool
is_own name uid ipl2 =
    text_eq (get_owner ipl2 network_attachment).0 name
    && text_eq (get_owner ipl2 network_attachment).1 uid

-- What the answers of the last round make of the picked address: Create and Get tell of a lock of the
-- attachment,
abbrev pub lock_told : Text → Text → CreateAnswer × GetAnswer → Option IpLock
lock_told name uid (created ipl, got) = some ipl
lock_told name uid (already_exists, fetched ipl2) = if is_own name uid ipl2 then some ipl2 else none
lock_told name uid _ = none

-- it is an error that the lock is another's, that Get failed, or that Create did for a reason that may
-- pass,
abbrev pub is_error : Text → Text → CreateAnswer × GetAnswer → Bool
is_error name uid (created ipl, got) = false
is_error name uid (already_exists, fetched ipl2) = not (is_own name uid ipl2)
is_error name uid (already_exists, absent) = true
is_error name uid (already_exists, get_error) = true
is_error name uid (invalid, got) = false
is_error name uid (other_error, got) = true

-- and Create refused, so that there is no lock.
abbrev pub is_refused : CreateAnswer × GetAnswer → Bool
is_refused (created ipl, got) = false
is_refused (already_exists, got) = false
is_refused (invalid, got) = true
is_refused (other_error, got) = true

abbrev pub end_or : Option LoopEnd → LoopEnd
end_or none = collision
end_or (some e) = e

-- An end of the loop fits the answers.
abbrev pub Fits : Text → Text → CreateAnswer × GetAnswer → LoopEnd → Type 0
Fits name uid a e =
    (object_of e ≡ lock_told name uid a)
    × (reports e ≡ is_error name uid a)
    × (gives_back e ≡ is_refused a)

pub round_Fits :
    (name uid : Text) (a : CreateAnswer × GetAnswer)
    → again a ≡ false
    → Fits name uid a (end_or (lock_round name uid a none))
unfolding lock_round recover
round_Fits name uid (created ipl, got) h = (refl, refl, refl)
round_Fits name uid (already_exists, fetched ipl2) h = elim (Bool-cases (is_own name uid ipl2)) [
  | inl e ↦ rw e (refl, refl, refl)
  | inr e ↦ rw e (refl, refl, refl)
]
round_Fits name uid (already_exists, absent) h = ground arith
round_Fits name uid (already_exists, get_error) h = (refl, refl, refl)
round_Fits name uid (invalid, got) h = (refl, refl, refl)
round_Fits name uid (other_error, got) h = (refl, refl, refl)
