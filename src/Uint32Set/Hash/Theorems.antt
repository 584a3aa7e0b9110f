-- ===== src/Uint32Set/Hash/Theorems.antt =====
-- staging/kos/pkg/uint32set/hashset.go: HashUInt32Set represents a set of 32-bit numbers, and every
-- method does what the interface promises.
use mathlib.Core.List.{append_assoc, append-nil}
use kube_examples.Common.{
  ℕ, zero, suc, ◌+◌, ◌-◌, ◌≤◌, ◌<◌, ◌≡◌, refl, sym, ap, ◌∙◌, Bool, true, false, not, ◌&&◌, ◌||◌,
  some, List, [], ◌∷◌, ◌++◌, arith, leb, ◌==◌, if◌then◌else◌, Bool-cases, inl, inr, ==_iff,
  ℕ_discrete, two_32, subst,
}
use kube_examples.Uint32Set.Ascending.{
  contains, IsAscending, IsAscending-mono, Lists, contains-append,
}
use kube_examples.Uint32Set.Sorted.{add_u32}
use kube_examples.Uint32Set.Hash.{
  HashUint32Set, new_hash_uint32_set, no_members, has, add, delete, remove, export_from, export,
}

-- The members are those of `f`, 32-bit numbers between the water marks.
pub record Represents (h : HashUint32Set) (f : ℕ → Bool) : Type 0 where
  pub members : (y : ℕ) → contains y h.members ≡ f y
  pub above_low : (y : ℕ) → f y ≡ true → h.low ≤ y
  pub below_high : (y : ℕ) → f y ≡ true → y ≤ h.high
  pub low_small : h.low < two_32
  pub high_small : h.high < two_32

pub new-Represents : Represents new_hash_uint32_set (λ y. false)
unfolding new_hash_uint32_set
new-Represents = record {
  members = λ y. refl;
  above_low = λ y e. cc;
  below_high = λ y e. cc;
  low_small = omega arith;
  high_small = omega arith;
}

contains-delete :
    (x y : ℕ) (xs : List ℕ) → contains y (delete x xs) ≡ (contains y xs && not (y == x))
contains-delete x y [] = refl
contains-delete x y (z ∷ zs) = ground (arith, contains-delete x y zs)

module _ (h : HashUint32Set) (f : ℕ → Bool) (m : Represents h f) (x : ℕ) where
  pub has_lem : has h x ≡ f x
  unfolding has
  has_lem = m.members x

  same_member : (y : ℕ) → (y == x) ≡ true → f y ≡ f x
  same_member y e = ap f ((==_iff y x).0 e)

  -- `Add` of a 32-bit number to a valid set says whether the number is new, and leaves a valid set
  -- whose members are the old ones and that number.
  pub add-Represents :
      x < two_32 → ((add h x).0 ≡ not (f x)) × Represents (add h x).1 (λ y. f y || y == x)
  unfolding add
  add-Represents small = elim (Bool-cases (contains x h.members)) [
    | inl old ↦
        let in_f : f x ≡ true = sym (m.members x) ∙ old in
        rw old (
          rw in_f,
          record {
            members = λ y. m.members y ∙ ground (arith, same_member y);
            above_low = λ y e. m.above_low y (ground (arith, same_member y));
            below_high = λ y e. m.below_high y (ground (arith, same_member y));
            low_small = m.low_small;
            high_small = m.high_small;
          },
        )
    | inr new ↦
        let out_f : f x ≡ false = sym (m.members x) ∙ new in
        rw new (
          rw out_f,
          record {
            members = λ y. ground (arith, m.members y);
            above_low = λ y e. ground (arith, m.above_low y);
            below_high = λ y e. ground (arith, m.below_high y);
            low_small = ground (arith, m.low_small);
            high_small = ground (arith, m.high_small);
          },
        )
  ]

  no_members-false : (xs : List ℕ) → no_members xs ≡ true → (y : ℕ) → contains y xs ≡ false
  no_members-false [] e y = refl
  no_members-false (z ∷ zs) e y = cc

  -- `Remove` from a valid set says whether the number was in the set, and leaves a valid set whose
  -- members are the others.
  pub remove-Represents :
      ((remove h x).0 ≡ f x) × Represents (remove h x).1 (λ y. f y && not (y == x))
  unfolding remove
  remove-Represents = elim (Bool-cases (contains x h.members)) [
    | inr new ↦
        let out_f : f x ≡ false = sym (m.members x) ∙ new in
        rw new (
          sym out_f,
          record {
            members = λ y. m.members y ∙ ground (arith, same_member y);
            above_low = λ y e. m.above_low y (ground arith);
            below_high = λ y e. m.below_high y (ground arith);
            low_small = m.low_small;
            high_small = m.high_small;
          },
        )
    | inl old ↦
        let in_f : f x ≡ true = sym (m.members x) ∙ old in
        let left : (y : ℕ) → contains y (delete x h.members) ≡ (f y && not (y == x)) =
          λ y. contains-delete x y h.members ∙ ground (arith, m.members y) in
        elim (Bool-cases (no_members (delete x h.members))) [
          | inl bare ↦
              let gone : (y : ℕ) → (f y && not (y == x)) ≡ true → ⊥ =
                λ y e. cc (left y, e, no_members-false _ bare y) in
              rw (old, bare)
                (
                  sym in_f,
                  record {
                    members = left;
                    above_low = λ y e. absurd (gone y e);
                    below_high = λ y e. absurd (gone y e);
                    low_small = omega arith;
                    high_small = omega arith;
                  },
                )
          | inr some_left ↦
              rw (old, some_left)
                (
                  sym in_f,
                  record {
                    members = left;
                    above_low = λ y e. m.above_low y (ground arith);
                    below_high = λ y e. m.below_high y (ground arith);
                    low_small = m.low_small;
                    high_small = m.high_small;
                  },
                )
        ]
  ]

abbrev one : List ℕ → ℕ → List ℕ
one ms x = if contains x ms then x ∷ [] else []

-- The members among `x`, ..., `x + n`.
abbrev scan : List ℕ → ℕ → ℕ → List ℕ
scan ms x zero = one ms x
scan ms x (suc n) = one ms x ++ scan ms (suc x) n

one-append :
    (ms ans : List ℕ) (x : ℕ) → (if contains x ms then ans ++ x ∷ [] else ans) ≡ ans ++ one ms x
one-append ms ans x = elim (Bool-cases (contains x ms)) [
  | inl e ↦ rw e
  | inr e ↦ rw e (sym (append-nil ans))
]

module _ (h : HashUint32Set) where
  export_from-end :
      (fuel x : ℕ) (ans : List ℕ)
      → h.high ≤ x
      → export_from (suc fuel) h x ans ≡ some (ans ++ one h.members x)
  unfolding export_from
  export_from-end fuel x ans l =
      let t : leb h.high x ≡ true = ground arith in
      rw (t, export_from) (ap some (one-append h.members ans x))

  export_from-more :
      (fuel x : ℕ) (ans : List ℕ)
      → x < h.high
      → h.high < two_32
      → export_from (suc fuel) h x ans ≡ export_from fuel h (suc x) (ans ++ one h.members x)
  unfolding export_from
  export_from-more fuel x ans l small =
      let t : leb h.high x ≡ false = ground arith in
      let plain : add_u32 x 1 ≡ suc x = omega arith in
      rw (t, export_from)
        (ap (λ (z : ℕ). export_from fuel h z (if contains x h.members then ans ++ x ∷ [] else ans))
            plain
          ∙ ap (export_from fuel h (suc x)) (one-append h.members ans x))

  export_from-scan :
      (n x : ℕ) (ans : List ℕ)
      → h.high - x ≡ n
      → h.high < two_32
      → export_from (suc n) h x ans ≡ some (ans ++ scan h.members x n)
  export_from-scan zero x ans e small = export_from-end 0 x ans (omega arith)
  export_from-scan (suc n) x ans e small =
      export_from-more (suc n) x ans (omega arith) small
      ∙ export_from-scan n (suc x) (ans ++ one h.members x) (omega arith) small
      ∙ ap some (append_assoc ans (one h.members x) (scan h.members (suc x) n))

one-IsAscending :
    (ms ys : List ℕ) (x : ℕ) → x < two_32 → IsAscending (suc x) ys → IsAscending x (one ms x ++ ys)
one-IsAscending ms ys x l a = elim (Bool-cases (contains x ms)) [
  | inl e ↦ rw e (omega arith, l, a)
  | inr e ↦ rw e (IsAscending-mono (suc x) x ys (omega arith) a)
]

scan-IsAscending : (ms : List ℕ) (n x : ℕ) → x + n < two_32 → IsAscending x (scan ms x n)
scan-IsAscending ms zero x l =
    subst (IsAscending x) (append-nil (one ms x)) (one-IsAscending ms [] x (omega arith) tt)
scan-IsAscending ms (suc n) x l =
    one-IsAscending ms (scan ms (suc x) n) x (omega arith)
      (scan-IsAscending ms n (suc x) (omega arith))

contains-one : (y x : ℕ) (ms : List ℕ) → contains y (one ms x) ≡ (contains y ms && y == x)
contains-one y x ms = elim (ℕ_discrete y x) [
  | yes e ↦ rw e (elim (Bool-cases (contains x ms)) [ inl t ↦ rw t (ground arith) | inr t ↦ rw t ])
  | no n ↦ elim (Bool-cases (contains x ms)) [
    | inl t ↦ rw t (ground arith)
    | inr t ↦ rw t (ground arith)
  ]
]

contains-scan :
    (y n x : ℕ) (ms : List ℕ)
    → contains y (scan ms x n) ≡ (contains y ms && (leb x y && leb y (x + n)))
contains-scan y zero x ms = contains-one y x ms ∙ ground arith
contains-scan y (suc n) x ms =
    contains-append y (one ms x) (scan ms (suc x) n)
    ∙ ground (arith, contains-one y x ms, contains-scan y n (suc x) ms)

-- `Export` ends, and returns the members in ascending order.
pub export-Lists :
    (h : HashUint32Set) (f : ℕ → Bool)
    → Represents h f
    → (xs : List ℕ) × (export h ≡ some xs) × Lists f xs
unfolding export
export-Lists h f m =
    let n = h.high - h.low in
    (
      scan h.members h.low n,
      export_from-scan h n h.low [] refl m.high_small,
      (
        IsAscending-mono h.low 0 (scan h.members h.low n) (omega arith)
            (scan-IsAscending h.members n h.low (omega (arith, m.high_small, m.low_small))),
        λ y.
            contains-scan y n h.low h.members
            ∙ ground (arith, m.members y, m.above_low y, m.below_high y),
      ),
    )
