-- ===== src/GoText/Regexp/Finding.antt =====
-- Where the expressions that start with a literal text match.
use kube_examples.Common.{
  ℕ, ◌≡◌, refl, ap, ◌∙◌, arith, Bool, true, false, List, [], ◌∷◌, ◌++◌, ◌==◌, All, Bool-cases, inl,
  inr,
}
use mathlib.Core.List.{append-nil as append_nil}
use kube_examples.GoText.{Text}
use kube_examples.GoText.Pieces.{has_prefix}
use kube_examples.GoText.Regexp.{
  Regexp, class, then_, literal, Match, extend, runs, behind_each, matches, find_string, first_or,
}

behind_each_one :
    (f : Text → List Match) (m rest : Text) → behind_each f ((m, rest) ∷ []) ≡ extend m (f rest)
behind_each_one f m rest = append_nil (extend m (f rest))

matches-literal : (key t : Text) → matches (literal key) (key ++ t) ≡ (key, t) ∷ []
unfolding matches
matches-literal [] t = refl
matches-literal (c ∷ key) t =
    let test : (c == c) ≡ true = ground arith in rw (behind_each, test, matches-literal key t) refl

matches-literal_none : (key s : Text) → has_prefix s key ≡ false → matches (literal key) s ≡ []
unfolding matches has_prefix
matches-literal_none [] s h = ground arith
matches-literal_none (c ∷ key) [] h = refl
matches-literal_none (c ∷ key) (d ∷ s) h = elim (Bool-cases (d == c)) [
  | inl e ↦ rw (behind_each, e, matches-literal_none key s (ground arith)) refl
  | inr e ↦ rw (behind_each, e) refl
]

-- A match is the first one.
abbrev pub Starts : List Match → Text → Text → Type 0
Starts ms m rest = (more : List Match) × (ms ≡ (m, rest) ∷ more)

pub literal-Starts :
    (key : Text) (r : Regexp) (s m rest : Text)
    → Starts (matches r s) m rest
    → Starts (matches (then_ (literal key) r) (key ++ s)) (key ++ m) rest
unfolding matches
literal-Starts key r s m rest (more, e) =
    (extend key more, rw (matches-literal key s, append_nil (extend key (matches r s)), e) refl)

pub class-Starts :
    (p : ℕ → Bool) (r : Regexp) (c : ℕ) (s m rest : Text)
    → p c ≡ true
    → Starts (matches r s) m rest
    → Starts (matches (then_ (class p) r) (c ∷ s)) (c ∷ m) rest
unfolding matches
class-Starts p r c s m rest h (more, e) =
    (extend (c ∷ []) more, rw (behind_each, h, append_nil (extend (c ∷ []) (matches r s)), e) refl)

runs-more :
    (p : ℕ → Bool) (c : ℕ) (s : Text)
    → p c ≡ true
    → runs p (c ∷ s) ≡ extend (c ∷ []) (runs p s) ++ (c ∷ [], s) ∷ []
unfolding runs
runs-more p c s h = rw (runs, h) refl

pub runs-Starts :
    (p : ℕ → Bool) (c : ℕ) (m rest : Text)
    → All (λ d. p d ≡ true) (c ∷ m)
    → runs p rest ≡ []
    → Starts (runs p ((c ∷ m) ++ rest)) (c ∷ m) rest
unfolding runs
runs-Starts p c [] rest (h, hs) stop = ([], rw (extend, h, stop) refl)
runs-Starts p c (d ∷ m) rest h stop =
    let (more, e) = runs-Starts p d m rest h.1 stop in
    (
      extend (c ∷ []) more ++ (c ∷ [], (d ∷ m) ++ rest) ∷ [],
      runs-more p c ((d ∷ m) ++ rest) h.0
          ∙ ap (λ ms. extend (c ∷ []) ms ++ (c ∷ [], (d ∷ m) ++ rest) ∷ []) e,
    )

pub find_string-Starts :
    (r : Regexp) (s m rest : Text) → Starts (matches r s) m rest → find_string r s ≡ m
unfolding find_string
find_string-Starts r [] m rest (more, e) = rw (first_or, e) refl
find_string-Starts r (c ∷ s) m rest (more, e) = rw (first_or, e) refl

-- A key does not start in a text in front of another.
abbrev pub Clear : Text → Text → Text → Type 0
Clear key [] s = Unit
Clear key (c ∷ pre) s = (has_prefix (c ∷ pre ++ s) key ≡ false) × Clear key pre s

pub find_string-skip :
    (key : Text) (r : Regexp) (pre s : Text)
    → Clear key pre s
    → find_string (then_ (literal key) r) (pre ++ s) ≡ find_string (then_ (literal key) r) s
unfolding find_string matches
find_string-skip key r [] s h = refl
find_string-skip key r (c ∷ pre) s (h, hs) =
    rw (first_or, behind_each, matches-literal_none key (c ∷ pre ++ s) h)
      (find_string-skip key r pre s hs)
