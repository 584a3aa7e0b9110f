-- ===== src/Uint32Set/Choose/Spots.antt =====
-- Where a number lies among ordered runs, by index: what `Find` tells `AddOneInRange`
-- (staging/kos/pkg/uint32set/sortedset.go).
use kube_examples.Common.{
  ℕ, zero, suc, ◌+◌, ◌-◌, ◌≤◌, ◌<◌, ◌≡◌, refl, sym, ap, ◌∙◌, Bool, true, false, Option, none, some,
  List, [], ◌∷◌, ◌++◌, arith, length, get_elem?, length-append, get_elem?-append, two_32,
  Bool-cases, inl, inr, subst, dec_lt, ℕ_discrete,
}
use kube_examples.Uint32Set.Library.{Node}
use kube_examples.Uint32Set.Runs.{Run, node_of, embed, IsRuns, covers, in_run, next, le-next}
use kube_examples.Uint32Set.Sorted.Find.{Locates, inside, gap}

abbrev pub of_bool : Bool → ℕ
of_bool true = 1
of_bool false = 0

pub get_elem?-some : (rs : List Run) (i : ℕ) → i < length rs → (r : Run) × (get_elem? rs i ≡ some r)
get_elem?-some [] i h = absurd (omega arith)
get_elem?-some (r ∷ rs) zero h = (r, refl)
get_elem?-some (r ∷ rs) (suc i) h = get_elem?-some rs i (omega arith)

pub get_elem?-lt : (rs : List Run) (i : ℕ) (r : Run) → get_elem? rs i ≡ some r → i < length rs
get_elem?-lt [] i r e = cc
get_elem?-lt (q ∷ rs) zero r e = omega arith
get_elem?-lt (q ∷ rs) (suc i) r e = omega (arith, get_elem?-lt rs i r e)

pub get_elem?-embed :
    (rs : List Run) (i : ℕ) (r : Run)
    → get_elem? rs i ≡ some r
    → get_elem? (embed rs) i ≡ some (node_of r)
get_elem?-embed [] i r e = cc
get_elem?-embed (q ∷ rs) zero r e = ground arith
get_elem?-embed (q ∷ rs) (suc i) r e = get_elem?-embed rs i r e

-- Each run of an ordered list is proper.
pub at-proper :
    (lo : ℕ) (rs : List Run) (i : ℕ) (r : Run)
    → IsRuns lo rs
    → get_elem? rs i ≡ some r
    → (lo ≤ r.first) × (r.first ≤ r.last) × (r.last < two_32)
at-proper lo [] i r h e = cc
at-proper lo (q ∷ rs) zero r h e = ground arith
at-proper lo (q ∷ rs) (suc i) r h e =
    let (a, b, c) = at-proper (q.last + 2) rs i r h.3 e in (omega arith, b, c)

-- Between two runs there is a gap.
pub at-apart :
    (lo : ℕ) (rs : List Run) (i j : ℕ) (r q : Run)
    → IsRuns lo rs
    → get_elem? rs i ≡ some r
    → get_elem? rs j ≡ some q
    → i < j
    → r.last + 2 ≤ q.first
at-apart lo [] i j r q h e e' l = cc
at-apart lo (p ∷ rs) zero zero r q h e e' l = absurd (omega arith)
at-apart lo (p ∷ rs) zero (suc j) r q h e e' l =
    let t = at-proper (p.last + 2) rs j q h.3 e' in ground arith
at-apart lo (p ∷ rs) (suc i) zero r q h e e' l = absurd (omega arith)
at-apart lo (p ∷ rs) (suc i) (suc j) r q h e e' l =
    at-apart (p.last + 2) rs i j r q h.3 e e' (omega arith)

-- `k` runs end below `x`, and the others start above it, but for the run at `k` where `on` is true:
-- that one holds `x`.
pub record Spot (x : ℕ) (rs : List Run) (k : ℕ) (on : Bool) : Type 0 where
  pub below : (j : ℕ) (r : Run) → get_elem? rs j ≡ some r → j < k → r.last < x
  pub above : (j : ℕ) (r : Run) → get_elem? rs j ≡ some r → k < j → x < r.first
  pub after : on ≡ false → (r : Run) → get_elem? rs k ≡ some r → x < r.first
  pub here : on ≡ true → (r : Run) → get_elem? rs k ≡ some r → (r.first ≤ x) × (x ≤ r.last)
  pub room : k ≤ length rs
  pub exists : on ≡ true → k < length rs

pub uncovered :
    (y : ℕ) (rs : List Run)
    → ((j : ℕ) (r : Run) → get_elem? rs j ≡ some r → in_run y r ≡ false)
    → covers y rs ≡ false
uncovered y [] h = refl
uncovered y (r ∷ rs) h = rw (h 0 r refl) (uncovered y rs (λ j q e. h (suc j) q e))

-- A number between runs is no member.
pub Spot-uncovered : (x : ℕ) (rs : List Run) (k : ℕ) → Spot x rs k false → covers x rs ≡ false
Spot-uncovered x rs k s = uncovered x rs go
  where
    go : (j : ℕ) (r : Run) → get_elem? rs j ≡ some r → in_run x r ≡ false
    go j r e = elim (dec_lt j k) [
      | yes l ↦ ground (arith, s.below j r e l)
      | no l ↦ elim (ℕ_discrete j k) [
        | yes same ↦ ground (arith, s.after refl r (ap (get_elem? rs) (sym same) ∙ e))
        | no n ↦ ground (arith, s.above j r e (omega arith))
      ]
    ]

at_front :
    (pre post : List Run) (j : ℕ) → j < length pre → get_elem? (pre ++ post) j ≡ get_elem? pre j
at_front [] post j h = absurd (omega arith)
at_front (r ∷ pre) post zero h = refl
at_front (r ∷ pre) post (suc j) h = at_front pre post j (omega arith)

front_below :
    (x lo : ℕ) (pre : List Run) (j : ℕ) (r : Run)
    → IsRuns lo pre
    → next lo pre ≤ x + 1
    → get_elem? pre j ≡ some r
    → r.last < x
front_below x lo [] j r h l e = cc
front_below x lo (q ∷ pre) zero r h l e = ground (arith, le-next (q.last + 2) pre h.3)
front_below x lo (q ∷ pre) (suc j) r h l e = front_below x (q.last + 2) pre j r h.3 l e

at_back :
    (pre post : List Run) (j : ℕ)
    → length pre ≤ j
    → get_elem? (pre ++ post) j ≡ get_elem? post (j - length pre)
at_back pre post j h =
    ap (get_elem? (pre ++ post)) (omega arith) ∙ get_elem?-append pre post (j - length pre)

at_middle :
    (pre : List Run) (p : Run) (post : List Run) → get_elem? (pre ++ p ∷ post) (length pre) ≡ some p
at_middle [] p post = refl
at_middle (q ∷ pre) p post = at_middle pre p post

inside-Spot :
    (x : ℕ) (pre : List Run) (p : Run) (post : List Run)
    → IsRuns 0 (pre ++ p ∷ post)
    → p.first ≤ x
    → x ≤ p.last
    → Spot x (pre ++ p ∷ post) (length pre) true
inside-Spot x pre p post i a b =
    let here_p = at_middle pre p post in
    record {
      below = λ j r e l. omega (arith, at-apart 0 _ j (length pre) r p i e here_p l);
      above = λ j r e l. omega (arith, at-apart 0 _ (length pre) j p r i here_p e l);
      after = λ e. cc;
      here = λ _ r e. same r (some_eq p r (sym here_p ∙ e));
      room = omega (arith, length-append pre (p ∷ post));
      exists = λ _. omega (arith, length-append pre (p ∷ post));
    }
  where
    some_eq : (p r : Run) → some p ≡ some r → p ≡ r
    some_eq p r e = cc

    same : (r : Run) → p ≡ r → (r.first ≤ x) × (x ≤ r.last)
    same r e = subst (λ (q : Run). (q.first ≤ x) × (x ≤ q.last)) e (a, b)

gap-Spot :
    (x : ℕ) (pre post : List Run)
    → IsRuns 0 pre
    → next 0 pre ≤ x + 1
    → IsRuns (x + 1) post
    → Spot x (pre ++ post) (length pre) false
gap-Spot x pre post i l h = record {
  below = λ j r e k. front_below x 0 pre j r i l (sym (at_front pre post j k) ∙ e);
  above = λ j r e k. back j r e (omega arith);
  after = λ _ r e. back (length pre) r e (omega arith);
  here = λ e. cc;
  room = omega (arith, length-append pre post);
  exists = λ e. cc;
}
  where
    back : (j : ℕ) (r : Run) → get_elem? (pre ++ post) j ≡ some r → length pre ≤ j → x < r.first
    back j r e k =
        omega
          (arith, (at-proper (x + 1) post (j - length pre) r h (sym (at_back pre post j k) ∙ e)).0)

-- What `Find` returned, by index.
pub data Located (x : ℕ) (rs : List Run) (node : Option Node) (rank : ℕ) : Type 0 where
  between : (k : ℕ) → rank ≡ suc k → node ≡ none → Spot x rs k false → Located x rs node rank
  on_run :
      (k : ℕ) (p : Run)
      → rank ≡ suc k
      → node ≡ some (node_of p)
      → get_elem? rs k ≡ some p
      → Spot x rs k true
      → Located x rs node rank

pub locate :
    (x : ℕ) (rs : List Run) (found : Option Node) (rank : ℕ)
    → IsRuns 0 rs
    → Locates x rs found rank
    → Located x rs found rank
locate x rs found rank i (inside pre p post e a b n r) =
    on_run (length pre) p r n (ap (λ qs. get_elem? qs (length pre)) e ∙ at_middle pre p post) (
      subst (λ qs. Spot x qs (length pre) true) (sym e)
        (inside-Spot x pre p post (subst (IsRuns 0) e i) a b))
locate x rs found rank i (gap pre post e h l k n r) =
    between (length pre) r n
      (subst (λ qs. Spot x qs (length pre) false) (sym e) (gap-Spot x pre post h l k))

module _ (x : ℕ) (rs : List Run) (i : IsRuns 0 rs) (k : ℕ) (on : Bool) (s : Spot x rs k on) (j : ℕ)
    (r : Run) (e : get_elem? rs j ≡ some r) where
  at_k : j ≡ k → get_elem? rs k ≡ some r
  at_k same = ap (get_elem? rs) (sym same) ∙ e

  -- A run from `k` on ends at or above the number.
  pub Spot-last : k ≤ j → x ≤ r.last
  Spot-last l = elim (ℕ_discrete j k) [
    | no n ↦ omega (arith, s.above j r e (omega arith), at-proper 0 rs j r i e)
    | yes same ↦ elim (Bool-cases on) [
      | inl up ↦ (s.here up r (at_k same)).1
      | inr off ↦ omega (arith, s.after off r (at_k same), at-proper 0 rs j r i e)
    ]
  ]

  -- A run behind the number's own starts above it.
  pub Spot-first : k + of_bool on ≤ j → x < r.first
  Spot-first l = elim (Bool-cases on) [
    | inl up ↦ s.above j r e (ground arith)
    | inr off ↦ elim (ℕ_discrete j k) [
      | yes same ↦ s.after off r (at_k same)
      | no n ↦ s.above j r e (ground arith)
    ]
  ]

  -- A run up to the number's own starts at or below it.
  pub Spot-first_le : j < k + of_bool on → r.first ≤ x
  Spot-first_le l = elim (dec_lt j k) [
    | yes below ↦ omega (arith, s.below j r e below, at-proper 0 rs j r i e)
    | no n ↦ elim (Bool-cases on) [
      | inl up ↦ (s.here up r (at_k (ground arith))).0
      | inr off ↦ absurd (ground arith)
    ]
  ]

pub at_mono :
    (rs : List Run) (i j : ℕ) (r q : Run)
    → IsRuns 0 rs
    → get_elem? rs i ≡ some r
    → get_elem? rs j ≡ some q
    → i ≤ j
    → (r.first ≤ q.first) × (r.last ≤ q.last)
at_mono rs i j r q h e e' l = elim (ℕ_discrete i j) [
  | no n ↦
      let gap = at-apart 0 rs i j r q h e e' (omega arith) in
      let a = at-proper 0 rs i r h e in
      let b = at-proper 0 rs j q h e' in (omega arith, omega arith)
  | yes same ↦ let whole : some r ≡ some q = sym e ∙ ap (get_elem? rs) same ∙ e' in ground arith
]
