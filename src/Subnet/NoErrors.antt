-- ===== src/Subnet/NoErrors.antt =====
-- When the lists of errors that `Validate` puts together are empty.
use kube_examples.Common.{
  ◌↔◌, ◌≡◌, ◌≢◌, refl, ap, Bool, true, false, not, arith, Bool-cases, inl, inr, List, [], ◌∷◌, ◌++◌,
  All, keep, if◌then◌else◌, Go, ok, panic, ◌>>=◌, value_or,
}
use kube_examples.Subnet.{FieldError, empty, and_errors, add_if}

pub All-keep :
    {A : Type 0} (P : A → Type 0) (p : A → Bool) (list : List A)
    → All P (keep p list) ↔ All (λ x. p x ≡ true → P x) list
All-keep P p [] = ((λ h. tt), (λ h. tt))
All-keep P p (x ∷ list) = elim (Bool-cases (p x)) [
  | inl e ↦
      rw e (
        (λ h. ((λ t. h.0), (All-keep P p list).0 h.1)),
        (λ h. (h.0 refl, (All-keep P p list).1 h.1)),
      )
  | inr e ↦ rw e ((λ h. ((λ t. cc), (All-keep P p list).0 h)), (λ h. (All-keep P p list).1 h.1))
]

append_nil : {A : Type 0} (xs ys : List A) → (xs ++ ys ≡ []) ↔ ((xs ≡ []) × (ys ≡ []))
append_nil [] ys = ((λ e. (refl, e)), (λ e. e.1))
append_nil (x ∷ xs) ys = ((λ e. cc), (λ e. let h = e.0 in cc))

pub no_errors :
    (v c n : List FieldError) (o : Go (List FieldError))
    → ((if not (empty v)
          then ok (v ++ c)
          else if empty c
          then and_errors (c ++ n) o
          else ok (c ++ n))
        ≡ ok [])
      ↔ ((v ≡ []) × (c ≡ []) × (n ≡ []) × (o ≡ ok []))
no_errors [] [] n panic = ((λ e. ground arith), (λ e. ground (arith, e.3)))
no_errors [] [] n (ok o) =
    let both = append_nil n o in
    (
      (λ e. let l = both.0 (ap (value_or []) e) in (refl, refl, l.0, ap ok l.1)),
      (λ e. ap ok (both.1 (e.2, ap (value_or []) e.3))),
    )
no_errors [] (x ∷ c) n o = ((λ e. let l = ap (value_or []) e in cc), (λ e. let h = e.1 in cc))
no_errors (x ∷ v) c n o = ((λ e. let l = ap (value_or []) e in cc), (λ e. let h = e.0 in cc))

-- One round of the loop over the other Subnets has no error.
no_errors_if :
    (b : Bool) (x : FieldError) (errs : List FieldError)
    → (ok (add_if b x errs) ≡ ok []) ↔ ((b ≡ false) × (ok errs ≡ ok []))
no_errors_if true x errs = ((λ e. let l = ap (value_or []) e in cc), (λ e. let h = e.0 in cc))
no_errors_if false x errs = ((λ e. (refl, e)), (λ e. e.1))

pub no_errors_round :
    {D P : Type 0} (b : Bool) (x : FieldError) (rest : Go (List FieldError))
    → D
    → (b ≡ false) ↔ P
    → ((rest >>= λ errs. ok (add_if b x errs)) ≡ ok []) ↔ ((D → P) × (rest ≡ ok []))
no_errors_round b x panic d same = ((λ h. ground arith), (λ h. ground (arith, h.1)))
no_errors_round b x (ok errs) d same =
    let one = no_errors_if b x errs in
    ((λ h. ((λ n. same.0 (one.0 h).0), (one.0 h).1)), (λ h. one.1 (same.1 (h.0 d), h.1)))

pub refused :
    (v c : List FieldError) (x : FieldError)
    → (if not (empty v) then ok (v ++ c) else ok (c ++ x ∷ [])) ≢ ok []
refused [] [] x e = let l = ap (value_or []) e in cc
refused [] (y ∷ c) x e = let l = ap (value_or []) e in cc
refused (y ∷ v) c x e = let l = ap (value_or []) e in cc
