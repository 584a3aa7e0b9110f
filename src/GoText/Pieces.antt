-- ===== src/GoText/Pieces.antt =====
-- Pieces of texts: Contains, TrimRight, TrimLeft and Trim by a set of characters, Fields, Join and
-- Replace of one character, of package strings.
use kube_examples.Common.{
  ℕ, Bool, true, false, ◌&&◌, ◌||◌, List, [], ◌∷◌, ◌++◌, ◌==◌, if◌then◌else◌,
}
use kube_examples.GoText.{Text}

unfoldable pub has_prefix : Text → Text → Bool
has_prefix s [] = true
has_prefix [] (d ∷ t) = false
has_prefix (c ∷ s) (d ∷ t) = c == d && has_prefix s t

-- `strings.Contains`.
unfoldable pub contains : Text → Text → Bool
contains [] t = has_prefix [] t
contains (c ∷ s) t = has_prefix (c ∷ s) t || contains s t

abbrev pub one_of : Text → ℕ → Bool
one_of [] c = false
one_of (d ∷ cutset) c = d == c || one_of cutset c

-- `strings.TrimLeft`.
unfoldable pub trim_left : Text → Text → Text
trim_left cutset [] = []
trim_left cutset (c ∷ s) = let rest = trim_left cutset s in if one_of cutset c then rest else c ∷ s

-- What is left of a character and the trimmed text behind it.
abbrev keep_before : Text → ℕ → Text → Text
keep_before cutset c [] = if one_of cutset c then [] else c ∷ []
keep_before cutset c (d ∷ s) = c ∷ d ∷ s

-- `strings.TrimRight`.
unfoldable pub trim_right : Text → Text → Text
trim_right cutset [] = []
trim_right cutset (c ∷ s) = keep_before cutset c (trim_right cutset s)

-- `strings.Trim`.
unfoldable pub trim : Text → Text → Text
trim cutset s = trim_right cutset (trim_left cutset s)

abbrev is_space : ℕ → Bool
is_space = one_of (b' ' ∷ b'\t' ∷ b'\n' ∷ b'\r' ∷ 11 ∷ 12 ∷ [])

-- The field in front of the fields behind it.
abbrev with_field : Text → List Text → List Text
with_field [] fields = fields
with_field (c ∷ field) fields = (c ∷ field) ∷ fields

-- The fields of a text, behind the characters of the field at hand.
unfoldable pub fields_from : Text → Text → List Text
fields_from field [] = with_field field []
fields_from field (c ∷ s) =
    if is_space c then with_field field (fields_from [] s) else fields_from (field ++ c ∷ []) s

-- `strings.Fields`.
unfoldable pub fields : Text → List Text
fields s = fields_from [] s

-- `strings.Join`.
unfoldable pub join : List Text → Text → Text
join [] sep = []
join (s ∷ []) sep = s
join (s ∷ t ∷ ts) sep = s ++ sep ++ join (t ∷ ts) sep

-- `strings.Replace` of every occurrence of one character.
unfoldable pub replace_char : Text → ℕ → Text → Text
replace_char [] old new = []
replace_char (c ∷ s) old new =
    let rest = replace_char s old new in if c == old then new ++ rest else c ∷ rest
