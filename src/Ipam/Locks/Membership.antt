-- ===== src/Ipam/Locks/Membership.antt =====
-- Lists of locks as sets: `Has`, `AddFunc`, `AddListFunc` and `RemFunc`.
use kube_examples.Common.{
  Bool, true, false, ◌||◌, ◌&&◌, none, some, List, [], ◌≡◌, inl, inr, ◌∷◌, ◌++◌, not, if◌then◌else◌,
  arith, refl, Bool-cases, sym, ◌∙◌, ap,
}
use mathlib.Core.List.{append_assoc, Memᴰ}
use kube_examples.GoText.{Text, text_eq}
use kube_examples.Ipam.Locks.{
  ParsedLock, equal, has, add_func, add_list_from, add_list_func, rem_from, rem_long, rem_func,
}

text_eq-sym : (s t : Text) → text_eq s t ≡ text_eq t s
unfolding text_eq
text_eq-sym [] [] = refl
text_eq-sym [] (d ∷ t) = refl
text_eq-sym (c ∷ s) [] = refl
text_eq-sym (c ∷ s) (d ∷ t) = ground (arith, text_eq-sym s t)

text_eq_trans : (s t u : Text) → text_eq s t ≡ true → text_eq s u ≡ text_eq t u
unfolding text_eq
text_eq_trans [] [] u h = refl
text_eq_trans [] (d ∷ t) u h = ground arith
text_eq_trans (c ∷ s) [] u h = ground arith
text_eq_trans (c ∷ s) (d ∷ t) [] h = refl
text_eq_trans (c ∷ s) (d ∷ t) (e ∷ u) h = ground (arith, text_eq_trans s t u)

pub equal-sym : (x y : ParsedLock) → equal x y ≡ equal y x
unfolding equal
equal-sym x y = ground (arith, text_eq-sym x.uid y.uid)

-- Equal locks are equal to the same locks.
pub equal_trans : (x y z : ParsedLock) → equal x y ≡ true → equal x z ≡ equal y z
unfolding equal
equal_trans x y z h = ground (arith, text_eq_trans x.uid y.uid z.uid)

pub has-append :
    (list : List ParsedLock) (elt y : ParsedLock)
    → has (list ++ elt ∷ []) y ≡ (has list y || equal elt y)
unfolding has
has-append [] elt y = ground arith
has-append (x ∷ list) elt y = ground (arith, has-append list elt y)

has-equal :
    (list : List ParsedLock) (elt y : ParsedLock) → equal elt y ≡ true → has list elt ≡ has list y
unfolding has
has-equal [] elt y h = refl
has-equal (x ∷ list) elt y h =
    ground (arith, has-equal list elt y h, equal_trans elt y x h, equal-sym x elt, equal-sym x y)

-- A list without two equal locks.
abbrev pub IsDistinct : List ParsedLock → Type 0
IsDistinct [] = Unit
IsDistinct (x ∷ list) = (has list x ≡ false) × IsDistinct list

merge_equal :
    (list : List ParsedLock) (elt y : ParsedLock)
    → has list elt ≡ true
    → has list y ≡ (has list y || equal elt y)
merge_equal list elt y e = elim (Bool-cases (equal elt y)) [
  | inl q ↦ ground (arith, has-equal list elt y q)
  | inr q ↦ ground arith
]

add_func-has :
    (list : List ParsedLock) (elt y : ParsedLock)
    → ((add_func list elt).1 ≡ not (has list elt))
      × (has (add_func list elt).0 y ≡ (has list y || equal elt y))
unfolding add_func
add_func-has list elt y = elim (Bool-cases (has list elt)) [
  | inl e ↦ rw (add_func, e) (refl, merge_equal list elt y e)
  | inr e ↦ rw (add_func, e) (refl, has-append list elt y)
]

-- The list without its first lock that is equal to the given one.
abbrev drop_first : List ParsedLock → ParsedLock → List ParsedLock
drop_first [] elt = []
drop_first (x ∷ list) elt = if equal x elt then list else x ∷ drop_first list elt

has-drop_first :
    (list : List ParsedLock) (elt y : ParsedLock)
    → IsDistinct list
    → has (drop_first list elt) y ≡ (has list y && not (equal elt y))
unfolding has
has-drop_first [] elt y d = refl
has-drop_first (x ∷ list) elt y d = elim (Bool-cases (equal x elt)) [
  | inl e ↦
      rw (drop_first, e)
        (elim (Bool-cases (equal x y)) [
          | inl q ↦ ground (arith, has-equal list x y q, equal_trans x elt y e)
          | inr q ↦ ground (arith, equal_trans x elt y e)
        ])
  | inr e ↦
      rw (drop_first, e)
        (elim (Bool-cases (equal x y)) [
          | inl q ↦ ground (arith, equal_trans x y elt q, equal-sym y elt)
          | inr q ↦ ground (arith, has-drop_first list elt y d.1)
        ])
]

drop_first-IsDistinct :
    (list : List ParsedLock) (elt : ParsedLock) → IsDistinct list → IsDistinct (drop_first list elt)
drop_first-IsDistinct [] elt d = tt
drop_first-IsDistinct (x ∷ list) elt d = elim (Bool-cases (equal x elt)) [
  | inl e ↦ rw (drop_first, e) d.1
  | inr e ↦
      rw (drop_first, e)
        (has-drop_first list elt x d.1 ∙ ground arith, drop_first-IsDistinct list elt d.1)
]

drop_absent :
    (list : List ParsedLock) (elt : ParsedLock) → has list elt ≡ false → drop_first list elt ≡ list
unfolding has
drop_absent [] elt h = refl
drop_absent (x ∷ list) elt h = elim (Bool-cases (equal x elt)) [
  | inl e ↦ ground arith
  | inr e ↦ rw (drop_first, e) (ap (λ l. x ∷ l) (drop_absent list elt (ground arith)))
]

rem_from-drop_first :
    (passed list : List ParsedLock) (elt : ParsedLock)
    → rem_from passed list elt
      ≡ (if has list elt then some (passed ++ drop_first list elt) else none)
unfolding rem_from has
rem_from-drop_first passed [] elt = refl
rem_from-drop_first passed (x ∷ list) elt = elim (Bool-cases (equal x elt)) [
  | inl e ↦ rw (rem_from, has, drop_first, e) refl
  | inr e ↦
      rw
        (
          rem_from,
          has,
          drop_first,
          e,
          rem_from-drop_first (passed ++ x ∷ []) list elt,
          append_assoc passed (x ∷ []) (drop_first list elt),
        )
        refl
]

rem_long-drop_first :
    (list : List ParsedLock) (elt : ParsedLock)
    → rem_long list elt ≡ (drop_first list elt, has list elt)
unfolding rem_long
rem_long-drop_first list elt = elim (Bool-cases (has list elt)) [
  | inl e ↦ rw (rem_long, rem_from-drop_first [] list elt, e) refl
  | inr e ↦ rw (rem_long, rem_from-drop_first [] list elt, e, drop_absent list elt e) refl
]

rem_func-drop_first :
    (list : List ParsedLock) (elt : ParsedLock)
    → rem_func list elt ≡ (drop_first list elt, has list elt)
unfolding rem_func has
rem_func-drop_first [] elt = refl
rem_func-drop_first (x ∷ []) elt = elim (Bool-cases (equal x elt)) [
  | inl e ↦ rw (drop_first, has, equal-sym elt x, e) refl
  | inr e ↦ rw (drop_first, has, equal-sym elt x, e) refl
]
rem_func-drop_first (x ∷ y ∷ list) elt = rem_long-drop_first (x ∷ y ∷ list) elt

-- `RemFunc` of a list without two equal locks says whether the lock was in it, and the list then
-- has the other locks and again no two equal ones.
pub rem_func-has :
    (list : List ParsedLock) (elt y : ParsedLock)
    → IsDistinct list
    → ((rem_func list elt).1 ≡ has list elt)
      × IsDistinct (rem_func list elt).0
      × (has (rem_func list elt).0 y ≡ (has list y && not (equal elt y)))
rem_func-has list elt y d =
    rw (rem_func-drop_first list elt)
      (refl, drop_first-IsDistinct list elt d, has-drop_first list elt y d)

pub append-IsDistinct :
    (list : List ParsedLock) (elt : ParsedLock)
    → IsDistinct list
    → has list elt ≡ false
    → IsDistinct (list ++ elt ∷ [])
unfolding has
append-IsDistinct [] elt d h = (refl, tt)
append-IsDistinct (x ∷ list) elt d h = (
  has-append list elt x ∙ ground (arith, equal-sym x elt),
  append-IsDistinct list elt d.1 (ground arith),
)

add_func-IsDistinct :
    (list : List ParsedLock) (elt : ParsedLock) → IsDistinct list → IsDistinct (add_func list elt).0
unfolding add_func
add_func-IsDistinct list elt d = elim (Bool-cases (has list elt)) [
  | inl e ↦ rw (add_func, e) d
  | inr e ↦ rw (add_func, e) (append-IsDistinct list elt d e)
]

add_list_from-has :
    (list : List ParsedLock) (diff : Bool) (list2 : List ParsedLock) (y : ParsedLock)
    → has (add_list_from list diff list2).0 y ≡ (has list y || has list2 y)
unfolding add_list_from has
add_list_from-has list diff [] y = ground arith
add_list_from-has list diff (elt ∷ list2) y =
    add_list_from-has (add_func list elt).0 (diff || (add_func list elt).1) list2 y
    ∙ (rw ((add_func-has list elt y).1) (ground arith))

add_list_from-IsDistinct :
    (list : List ParsedLock) (diff : Bool) (list2 : List ParsedLock)
    → IsDistinct list
    → IsDistinct (add_list_from list diff list2).0
unfolding add_list_from
add_list_from-IsDistinct list diff [] d = d
add_list_from-IsDistinct list diff (elt ∷ list2) d =
    add_list_from-IsDistinct (add_func list elt).0 (diff || (add_func list elt).1) list2
      (add_func-IsDistinct list elt d)

-- Whether a list has a lock that another has not.
abbrev pub brings : List ParsedLock → List ParsedLock → Bool
brings list [] = false
brings list (elt ∷ list2) = not (has list elt) || brings list list2

add_list_from-brings :
    (list : List ParsedLock) (diff : Bool) (list2 : List ParsedLock)
    → (add_list_from list diff list2).1 ≡ (diff || brings list list2)
unfolding add_list_from add_func
add_list_from-brings list diff [] = ground arith
add_list_from-brings list diff (elt ∷ list2) =
    add_list_from-brings (add_func list elt).0 (diff || (add_func list elt).1) list2
    ∙ elim (Bool-cases (has list elt)) [
      | inl e ↦ rw (add_func, e) (ground arith)
      | inr e ↦ rw (add_func, e) (ground arith)
    ]

-- `AddListFunc` on a list without two equal locks: the list then has the locks of both lists and
-- again no two equal ones, and the flag says whether the second list has a lock that the first has not.
pub add_list_func-has :
    (list list2 : List ParsedLock) (y : ParsedLock)
    → IsDistinct list
    → (has (add_list_func list list2).0 y ≡ (has list y || has list2 y))
      × IsDistinct (add_list_func list list2).0
      × ((add_list_func list list2).1 ≡ brings list list2)
unfolding add_list_func
add_list_func-has list list2 y d = (
  add_list_from-has list false list2 y,
  add_list_from-IsDistinct list false list2 d,
  add_list_from-brings list false list2,
)

text_eq_refl : (s : Text) → text_eq s s ≡ true
unfolding text_eq
text_eq_refl [] = refl
text_eq_refl (c ∷ s) = ground (arith, text_eq_refl s)

pub equal_refl : (x : ParsedLock) → equal x x ≡ true
unfolding equal
equal_refl x = ground (arith, text_eq_refl x.uid)

-- A list has its elements.
pub has-member : (x : ParsedLock) (list : List ParsedLock) → Memᴰ x list → has list x ≡ true
unfolding has
has-member x [] m = elim m [ ]
has-member x (y ∷ list) (Memᴰ.head e) = ground (arith, equal_refl x, sym e)
has-member x (y ∷ list) (Memᴰ.tail m) = ground (arith, has-member x list m)
