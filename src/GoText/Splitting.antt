-- ===== src/GoText/Splitting.antt =====
-- Splitting at a character what was joined by it.
use kube_examples.Common.{ℕ, ◌≡◌, refl, ◌≢◌, [], ◌∷◌, ◌++◌, arith, All}
use kube_examples.GoText.{Text, split}

abbrev pub Avoids : ℕ → Text → Type 0
Avoids sep = All (λ c. c ≢ sep)

pub split-join : (sep : ℕ) (s t : Text) → Avoids sep s → split sep (s ++ sep ∷ t) ≡ s ∷ split sep t
unfolding split
split-join sep [] t a = ground arith
split-join sep (c ∷ s) t a = ground (arith, split-join sep s t a.1)

pub split_whole : (sep : ℕ) (s : Text) → Avoids sep s → split sep s ≡ s ∷ []
unfolding split
split_whole sep [] a = refl
split_whole sep (c ∷ s) a = ground (arith, split_whole sep s a.1)
