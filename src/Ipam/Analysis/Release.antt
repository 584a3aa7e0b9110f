-- ===== src/Ipam/Analysis/Release.antt =====
-- The loop at the end of analyzeAndRelease that deletes the locks to release.
use kube_examples.Common.{◌≡◌, refl, ap, Bool, true, false, List, [], ◌∷◌, ◌++◌, ◌⊎◌, inl, inr, All}
use kube_examples.Ipam.Locks.{ParsedLock}
use kube_examples.Ipam.Analysis.{
  DeleteAnswer, deleted, not_found, gone, failed, delete_ip_lock_object, release_all,
}

-- The lock is off the API server: it was deleted, or was not there.
abbrev pub IsOff : DeleteAnswer → Type 0
IsOff answer = (answer ≡ deleted) ⊎ ((answer ≡ not_found) ⊎ (answer ≡ gone))

-- The loop went through every lock without an error, or it met an error at a lock whose deletion
-- failed, which is the one behind those that it went through.
abbrev pub Went : (ParsedLock → DeleteAnswer) → List ParsedLock → List ParsedLock × Bool → Type 0
Went delete locks r =
    ((r.1 ≡ false) × (r.0 ≡ locks))
    ⊎ ((lock : ParsedLock) × (rest : List ParsedLock) × (r.1 ≡ true)
        × (locks ≡ r.0 ++ lock ∷ rest)
        × (delete lock ≡ failed))

-- One lock, given what the rest comes to.
one_lock :
    (delete : ParsedLock → DeleteAnswer) (lock : ParsedLock) (locks : List ParsedLock)
    (answer : DeleteAnswer)
    → delete lock ≡ answer
    → Went delete locks (release_all delete locks)
      × All (λ l. IsOff (delete l)) (release_all delete locks).0
    → Went delete (lock ∷ locks) (release_all delete (lock ∷ locks))
      × All (λ l. IsOff (delete l)) (release_all delete (lock ∷ locks)).0
unfolding release_all delete_ip_lock_object
one_lock delete lock locks answer e (went, off) = go answer e
  where
    onward :
        {r : List ParsedLock × Bool}
        → Went delete locks r
        → Went delete (lock ∷ locks) (lock ∷ r.0, r.1)
    onward (inl (a, b)) = inl (a, ap (λ l. lock ∷ l) b)
    onward (inr (bad, rest, a, b, f)) = inr (bad, rest, a, ap (λ l. lock ∷ l) b, f)

    go :
        (answer : DeleteAnswer)
        → delete lock ≡ answer
        → Went delete (lock ∷ locks) (release_all delete (lock ∷ locks))
          × All (λ l. IsOff (delete l)) (release_all delete (lock ∷ locks)).0
    go deleted e = rw (release_all, delete_ip_lock_object, e) (onward went, (inl e, off))
    go not_found e = rw (release_all, delete_ip_lock_object, e) (onward went, (inr (inl e), off))
    go gone e = rw (release_all, delete_ip_lock_object, e) (onward went, (inr (inr e), off))
    go failed e = rw (release_all, delete_ip_lock_object, e) (inr (lock, locks, refl, refl, e), tt)

-- The locks that the loop gets through, one after the other, are off the API server: each was
-- deleted, or Delete said that it is not found or gone. Without an error they are all of the locks;
-- an error is that Delete failed for another reason, and the loop stopped at that lock.
pub release_all-Went :
    (delete : ParsedLock → DeleteAnswer) (locks : List ParsedLock)
    → Went delete locks (release_all delete locks)
      × All (λ lock. IsOff (delete lock)) (release_all delete locks).0
unfolding release_all
release_all-Went delete [] = (inl (refl, refl), tt)
release_all-Went delete (lock ∷ locks) =
    one_lock delete lock locks (delete lock) refl (release_all-Went delete locks)
