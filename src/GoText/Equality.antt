-- ===== src/GoText/Equality.antt =====
-- `==` of Go strings.
use kube_examples.Common.{◌↔◌, ◌≡◌, refl, true, arith, [], ◌∷◌}
use kube_examples.GoText.{Text, text_eq}

pub text_eq_same : (s t : Text) → (text_eq s t ≡ true) ↔ (s ≡ t)
unfolding text_eq
text_eq_same [] [] = ((λ e. refl), (λ e. refl))
text_eq_same [] (d ∷ t) = ((λ e. cc), (λ e. cc))
text_eq_same (c ∷ s) [] = ((λ e. cc), (λ e. cc))
text_eq_same (c ∷ s) (d ∷ t) = (
  (λ e.
      let a : c ≡ d = ground arith in
      let b : text_eq s t ≡ true = ground arith in let i = (text_eq_same s t).0 b in cc),
  (λ e. let a : c ≡ d = cc in let b : s ≡ t = cc in let i = (text_eq_same s t).1 b in ground arith),
)
