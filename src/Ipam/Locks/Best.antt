-- ===== src/Ipam/Locks/Best.antt =====
-- Which of several locks `Best` picks.
use kube_examples.Common.{
  true, false, List, [], ◌≡◌, inl, inr, ◌≢◌, ◌∷◌, if◌then◌else◌, arith, refl, Bool-cases,
}
use mathlib.Core.List.{Memᴰ}
use kube_examples.GoText.{Text}
use kube_examples.Ipam.Locks.{ParsedLock, text_behind, is_better_than, best_of, best}

text_behind_trans :
    (s t u : Text) → text_behind s t ≡ true → text_behind t u ≡ true → text_behind s u ≡ true
unfolding text_behind
text_behind_trans [] t u a b = ground arith
text_behind_trans (c ∷ s) [] u a b = ground arith
text_behind_trans (c ∷ s) (d ∷ t) [] a b = ground arith
text_behind_trans (c ∷ s) (d ∷ t) (e ∷ u) a b = ground (arith, text_behind_trans s t u)

-- Texts are ordered: with neither behind the other they are one.
text_behind_total : (s t : Text) → text_behind s t ≡ false → text_behind t s ≡ false → s ≡ t
unfolding text_behind
text_behind_total [] [] a b = refl
text_behind_total [] (d ∷ t) a b = ground arith
text_behind_total (c ∷ s) [] a b = ground arith
text_behind_total (c ∷ s) (d ∷ t) a b = grind (arith, text_behind_total s t)

is_better_than_trans :
    (x y z : ParsedLock)
    → is_better_than x y ≡ true
    → is_better_than y z ≡ true
    → is_better_than x z ≡ true
unfolding is_better_than
is_better_than_trans x y z a b = ground (arith, text_behind_trans x.uid y.uid z.uid)

-- Neither of two locks is better only if they were created together and have one UID.
is_better_than_total :
    (x y : ParsedLock)
    → is_better_than x y ≡ false
    → is_better_than y x ≡ false
    → (x.creation_time ≡ y.creation_time) × (x.uid ≡ y.uid)
unfolding is_better_than
is_better_than_total x y a b =
    let times : x.creation_time ≡ y.creation_time = ground arith in
    let behind : text_behind x.uid y.uid ≡ false = ground arith in
    let back : text_behind y.uid x.uid ≡ false = ground arith in
    (times, text_behind_total x.uid y.uid behind back)

-- What does not beat the lock at hand does not beat the one found.
best_of_beats :
    (y ans : ParsedLock) (list : List ParsedLock)
    → is_better_than y ans ≡ false
    → is_better_than y (best_of ans list) ≡ false
unfolding best_of
best_of_beats y ans [] h = h
best_of_beats y ans (elt ∷ list) h = elim (Bool-cases (is_better_than elt ans)) [
  | inl e ↦
      rw (best_of, e)
        (best_of_beats y elt list (elim (Bool-cases (is_better_than y elt)) [
          | inl b ↦ ground (arith, is_better_than_trans y elt ans b e)
          | inr b ↦ b
        ]))
  | inr e ↦ rw (best_of, e) (best_of_beats y ans list h)
]

text_behind_irrefl : (s : Text) → text_behind s s ≡ false
unfolding text_behind
text_behind_irrefl [] = refl
text_behind_irrefl (c ∷ s) = ground (arith, text_behind_irrefl s)

is_better_than_irrefl : (x y : ParsedLock) → x ≡ y → is_better_than x y ≡ false
unfolding is_better_than
is_better_than_irrefl x y e = rw e (ground (arith, text_behind_irrefl y.uid))

not_better :
    (elt ans : ParsedLock)
    → is_better_than elt (if is_better_than elt ans then elt else ans) ≡ false
not_better elt ans = elim (Bool-cases (is_better_than elt ans)) [
  | inl e ↦ rw e (is_better_than_irrefl elt elt refl)
  | inr e ↦ rw (e, e) refl
]

best_of-unbeaten :
    (y : ParsedLock) (list : List ParsedLock)
    → Memᴰ y list
    → (ans : ParsedLock) → is_better_than y (best_of ans list) ≡ false
unfolding best_of
best_of-unbeaten y [] m ans = elim m [ ]
best_of-unbeaten y (elt ∷ list) (Memᴰ.head e) ans =
    best_of_beats y (if is_better_than elt ans then elt else ans) list (rw e (not_better elt ans))
best_of-unbeaten y (elt ∷ list) (Memᴰ.tail m) ans =
    best_of-unbeaten y list m (if is_better_than elt ans then elt else ans)

skip_second :
    {x y z : ParsedLock} {list : List ParsedLock} → Memᴰ x (y ∷ list) → Memᴰ x (y ∷ z ∷ list)
skip_second (Memᴰ.head e) = Memᴰ.head e
skip_second (Memᴰ.tail m) = Memᴰ.tail (Memᴰ.tail m)

best_of-member : (ans : ParsedLock) (list : List ParsedLock) → Memᴰ (best_of ans list) (ans ∷ list)
unfolding best_of
best_of-member ans [] = Memᴰ.head refl
best_of-member ans (elt ∷ list) = elim (Bool-cases (is_better_than elt ans)) [
  | inl e ↦ rw (best_of, e) (Memᴰ.tail (best_of-member elt list))
  | inr e ↦ rw (best_of, e) (skip_second (best_of-member ans list))
]

-- `Best` of a list that is not empty is one of the locks in it, and none of them is better.
pub best-unbeaten :
    (list : List ParsedLock)
    → list ≢ []
    → Memᴰ (best list) list
      × ((y : ParsedLock) → Memᴰ y list → is_better_than y (best list) ≡ false)
unfolding best
best-unbeaten [] h = elim (h refl) [ ]
best-unbeaten (ans ∷ list) h = (best_of-member ans list, all)
  where
    all : (y : ParsedLock) → Memᴰ y (ans ∷ list) → is_better_than y (best_of ans list) ≡ false
    all y (Memᴰ.head e) = best_of_beats y ans list (is_better_than_irrefl y ans e)
    all y (Memᴰ.tail m) = best_of-unbeaten y list m ans

-- `Best` of two lists with the same locks, in any order and with any repetitions, has the same
-- creation time and the same UID.
pub best_same :
    (list list2 : List ParsedLock)
    → list ≢ []
    → list2 ≢ []
    → ((y : ParsedLock) → Memᴰ y list → Memᴰ y list2)
    → ((y : ParsedLock) → Memᴰ y list2 → Memᴰ y list)
    → ((best list).creation_time ≡ (best list2).creation_time)
      × ((best list).uid ≡ (best list2).uid)
best_same list list2 h k into back =
    let one = best-unbeaten list h in
    let two = best-unbeaten list2 k in
    is_better_than_total (best list) (best list2) (two.1 (best list) (into (best list) one.0))
      (one.1 (best list2) (back (best list2) two.0))
