-- ===== src/GoText/Regexp.antt =====
-- Regular expressions of package regexp, as far as the code uses them: sets of characters, one after
-- another, alternatives, options, and repetitions of a set. A match is the first one at the first
-- place that has one; alternatives are tried from the left, options and repetitions with more
-- characters first.
pub mod Finding
use kube_examples.Common.{ℕ, zero, suc, Bool, ◌&&◌, List, [], ◌∷◌, ◌++◌, ◌==◌, leb, if◌then◌else◌}
use kube_examples.GoText.{Text}

pub data Regexp : Type 0 where
  -- the empty text
  nothing : Regexp
  -- a character of a set
  class : (ℕ → Bool) → Regexp
  -- one character of a set or more
  plus : (ℕ → Bool) → Regexp
  -- the first expression and then the second
  then_ : Regexp → Regexp → Regexp
  -- the first expression or else the second
  either : Regexp → Regexp → Regexp

-- A literal text.
abbrev pub literal : Text → Regexp
literal [] = nothing
literal (c ∷ s) = then_ (class (λ d. d == c)) (literal s)

-- The expression or nothing.
abbrev pub option : Regexp → Regexp
option r = either r nothing

-- So many times.
abbrev pub times : ℕ → Regexp → Regexp
times zero r = nothing
times (suc n) r = then_ r (times n r)

abbrev pub between : ℕ → ℕ → ℕ → Bool
between low high c = leb low c && leb c high

-- What was matched, and the text behind it.
abbrev pub Match : Type 0
Match = Text × Text

abbrev pub extend : Text → List Match → List Match
extend s [] = []
extend s ((m, rest) ∷ ms) = (s ++ m, rest) ∷ extend s ms

-- The matches of a repetition at the start of a text, the longest first.
unfoldable pub runs : (ℕ → Bool) → Text → List Match
runs p [] = []
runs p (c ∷ s) = let more = runs p s in if p c then extend (c ∷ []) more ++ (c ∷ [], s) ∷ [] else []

-- The matches that a function gives behind each of some matches.
abbrev pub behind_each : (Text → List Match) → List Match → List Match
behind_each f [] = []
behind_each f ((m, rest) ∷ ms) = extend m (f rest) ++ behind_each f ms

abbrev pub one_match : (ℕ → Bool) → Text → List Match
one_match p [] = []
one_match p (c ∷ s) = if p c then (c ∷ [], s) ∷ [] else []

-- All of the matches at the start of a text, in the order of preference.
unfoldable pub matches : Regexp → Text → List Match
matches nothing s = ([], s) ∷ []
matches (class p) s = one_match p s
matches (plus p) s = runs p s
matches (then_ r q) s = behind_each (matches q) (matches r s)
matches (either r q) s = matches r s ++ matches q s

-- The first match at the start of a text, else what else there is.
abbrev first_or : List Match → Text → Text
first_or [] other = other
first_or ((m, rest) ∷ ms) other = m

-- `FindString`: the first match, or the empty text.
unfoldable pub find_string : Regexp → Text → Text
find_string r [] = first_or (matches r []) []
find_string r (c ∷ s) = first_or (matches r (c ∷ s)) (find_string r s)
