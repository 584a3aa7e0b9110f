-- ===== src/Logger/Replay.antt =====
-- What the fabric that keeps its interfaces lists.
use kube_examples.Common.{
  ◌≡◌, ◌↔◌, refl, sym, ap, ◌∙◌, arith, Bool, true, false, Option, none, some, List, [], ◌∷◌, map,
  if◌then◌else◌, Bool-cases, inl, inr,
}
use mathlib.Core.List.{Memᴰ}
use kube_examples.GoText.{Text, text_eq}
use kube_examples.GoText.Equality.{text_eq_same}
use kube_examples.Ovs.Parsing.{LocalNetIfc}
use kube_examples.Logger.{
  value_of, delete_key, set_key, Logger, new_logger, LoggerOp, log_create_local, log_delete_local,
  log_create_remote, log_delete_remote, log_op, log_ops, logged_local_ifcs,
}

text_eq_refl : (s : Text) → text_eq s s ≡ true
text_eq_refl s = (text_eq_same s s).1 refl

-- Different texts to different ones.
text_eq_apart :
    (j key k : Text) → text_eq j key ≡ false → text_eq j k ≡ true → text_eq key k ≡ false
text_eq_apart j key k apart same = elim (Bool-cases (text_eq key k)) [
  | inl w ↦
      let q = (text_eq_same j key).1 ((text_eq_same j k).0 same ∙ sym ((text_eq_same key k).0 w)) in
      ground (arith, q, apart)
  | inr w ↦ w
]

module _ {ℓ} {A : Type ℓ} where
  if_none : (b : Bool) (o : Option A) → o ≡ none → (if b then none else o) ≡ none
  if_none true o h = refl
  if_none false o h = h

  value_of-delete_key :
      (entries : List (Text × A)) (key k : Text)
      → value_of (delete_key entries key) k ≡ (if text_eq key k then none else value_of entries k)
  unfolding value_of delete_key
  value_of-delete_key [] key k = sym (if_none (text_eq key k) none refl)
  value_of-delete_key ((j, v) ∷ entries) key k = elim (Bool-cases (text_eq j key)) [
    | inl e ↦
        let p = (text_eq_same j key).0 e in
        rw (delete_key, e)
          (value_of-delete_key entries key k ∙ elim (Bool-cases (text_eq key k)) [
            | inl q ↦ rw q refl
            | inr q ↦ let q2 = ap (λ z. text_eq z k) p ∙ q in rw (q, q2) refl
          ])
    | inr e ↦ elim (Bool-cases (text_eq j k)) [
      | inl q ↦ rw (delete_key, e, q, text_eq_apart j key k e q) refl
      | inr q ↦ rw (delete_key, e, q) (value_of-delete_key entries key k)
    ]
  ]

  value_of-first :
      (k : Text) (x : A) (entries : List (Text × A)) (key : Text)
      → text_eq k key ≡ true
      → value_of ((k, x) ∷ entries) key ≡ some x
  unfolding value_of
  value_of-first k x entries key w = rw (value_of, w) refl

  value_of-next :
      (k : Text) (x : A) (entries : List (Text × A)) (key : Text)
      → text_eq k key ≡ false
      → value_of ((k, x) ∷ entries) key ≡ value_of entries key
  unfolding value_of
  value_of-next k x entries key w = rw (value_of, w) refl

  abbrev value_or : A → Option A → A
  value_or x none = x
  value_or x (some y) = y

  module _ (name : A → Text) where
    -- The keys are the names of the values, and no two are the same.
    abbrev Keyed : List (Text × A) → Type ℓ
    Keyed [] = Unit
    Keyed ((k, v) ∷ entries) = (k ≡ name v) × (value_of entries k ≡ none) × Keyed entries

    Keyed-delete_key :
        (entries : List (Text × A)) (key : Text) → Keyed entries → Keyed (delete_key entries key)
    unfolding delete_key
    Keyed-delete_key [] key h = h
    Keyed-delete_key ((j, v) ∷ entries) key (e, fresh, h) = elim (Bool-cases (text_eq j key)) [
      | inl same ↦ rw (delete_key, same) (Keyed-delete_key entries key h)
      | inr other ↦
          rw (delete_key, other)
            (
              e,
              value_of-delete_key entries key j
                  ∙ if_none (text_eq key j) (value_of entries j) fresh,
              Keyed-delete_key entries key h,
            )
    ]

    Keyed-set_key :
        (entries : List (Text × A)) (v : A) → Keyed entries → Keyed (set_key entries (name v) v)
    unfolding set_key
    Keyed-set_key entries v h = (
      refl,
      value_of-delete_key entries (name v) (name v) ∙ rw (text_eq_refl (name v)) refl,
      Keyed-delete_key entries (name v) h,
    )

    Keyed-member :
        (entries : List (Text × A)) (v : A)
        → Keyed entries
        → Memᴰ v (map (λ entry. entry.1) entries) ↔ (value_of entries (name v) ≡ some v)
    unfolding value_of
    Keyed-member [] v h = ((λ m. elim m [ ]), λ q. ground (arith, q))
    Keyed-member ((k, x) ∷ entries) v (e, fresh, h) =
        let (to_rest, from_rest) = Keyed-member entries v h in
        elim (Bool-cases (text_eq k (name v))) [
          | inl w ↦
              let nowhere : value_of entries (name v) ≡ none =
                ap (value_of entries) (sym ((text_eq_same k (name v)).0 w)) ∙ fresh in
              (
                (λ m. value_of-first k x entries (name v) w ∙ ap some (here m nowhere to_rest)),
                λ q.
                    Memᴰ.head
                      (sym (ap (value_or x) (sym (value_of-first k x entries (name v) w) ∙ q))),
              )
          | inr w ↦ (
            (λ m. value_of-next k x entries (name v) w ∙ to_rest (there m w)),
            λ q. Memᴰ.tail (from_rest (sym (value_of-next k x entries (name v) w) ∙ q)),
          )
        ]
      where
        here :
            Memᴰ v (x ∷ map (λ entry. entry.1) entries)
            → value_of entries (name v) ≡ none
            → (Memᴰ v (map (λ entry. entry.1) entries) → value_of entries (name v) ≡ some v)
            → x ≡ v
        here (Memᴰ.head q) nowhere to_rest = sym q
        here (Memᴰ.tail m) nowhere to_rest = let q = to_rest m in ground (arith, q, nowhere)

        there :
            Memᴰ v (x ∷ map (λ entry. entry.1) entries)
            → text_eq k (name v) ≡ false
            → Memᴰ v (map (λ entry. entry.1) entries)
        there (Memᴰ.head q) w =
            let same = (text_eq_same k (name v)).1 (e ∙ ap name (sym q)) in ground (arith, same, w)
        there (Memᴰ.tail m) w = m

-- The last interface of a name that was created and not deleted.
unfoldable pub last_local : Text → Option LocalNetIfc → List LoggerOp → Option LocalNetIfc
last_local name o [] = o
last_local name o (log_create_local ifc ∷ ops) =
    last_local name (if text_eq ifc.name name then some ifc else o) ops
last_local name o (log_delete_local ifc ∷ ops) =
    last_local name (if text_eq ifc.name name then none else o) ops
last_local name o (log_create_remote ifc ∷ ops) = last_local name o ops
last_local name o (log_delete_remote ifc ∷ ops) = last_local name o ops

abbrev local_name : LocalNetIfc → Text
local_name ifc = ifc.name

value_of-set_key :
    (entries : List (Text × LocalNetIfc)) (ifc : LocalNetIfc) (name : Text)
    → value_of (set_key entries ifc.name ifc) name
      ≡ (if text_eq ifc.name name then some ifc else value_of entries name)
unfolding set_key
value_of-set_key entries ifc name = elim (Bool-cases (text_eq ifc.name name)) [
  | inl w ↦ rw w (value_of-first ifc.name ifc (delete_key entries ifc.name) name w)
  | inr w ↦
      value_of-next ifc.name ifc (delete_key entries ifc.name) name w
      ∙ value_of-delete_key entries ifc.name name
      ∙ rw w refl
]

Keyed-log_ops :
    (l : Logger) (ops : List LoggerOp)
    → Keyed local_name l.local_ifcs
    → Keyed local_name (log_ops l ops).local_ifcs
unfolding log_ops log_op
Keyed-log_ops l [] h = h
Keyed-log_ops l (log_create_local ifc ∷ ops) h =
    Keyed-log_ops (log_op l (log_create_local ifc)) ops
      (Keyed-set_key local_name l.local_ifcs ifc h)
Keyed-log_ops l (log_delete_local ifc ∷ ops) h =
    Keyed-log_ops (log_op l (log_delete_local ifc)) ops
      (Keyed-delete_key local_name l.local_ifcs ifc.name h)
Keyed-log_ops l (log_create_remote ifc ∷ ops) h =
    Keyed-log_ops (log_op l (log_create_remote ifc)) ops h
Keyed-log_ops l (log_delete_remote ifc ∷ ops) h =
    Keyed-log_ops (log_op l (log_delete_remote ifc)) ops h

value_of-log_ops :
    (l : Logger) (ops : List LoggerOp) (name : Text)
    → value_of (log_ops l ops).local_ifcs name ≡ last_local name (value_of l.local_ifcs name) ops
unfolding log_ops log_op last_local
value_of-log_ops l [] name = refl
value_of-log_ops l (log_create_local ifc ∷ ops) name =
    value_of-log_ops (log_op l (log_create_local ifc)) ops name
    ∙ ap (λ o. last_local name o ops) (value_of-set_key l.local_ifcs ifc name)
value_of-log_ops l (log_delete_local ifc ∷ ops) name =
    value_of-log_ops (log_op l (log_delete_local ifc)) ops name
    ∙ ap (λ o. last_local name o ops) (value_of-delete_key l.local_ifcs ifc.name name)
value_of-log_ops l (log_create_remote ifc ∷ ops) name =
    value_of-log_ops (log_op l (log_create_remote ifc)) ops name
value_of-log_ops l (log_delete_remote ifc ∷ ops) name =
    value_of-log_ops (log_op l (log_delete_remote ifc)) ops name

-- After any operations on a new fabric, ListLocalIfcs has exactly the interfaces that are the last
-- ones of their names to be created, with no deletion of the name since.
pub logged_local_ifcs-last_local :
    (ops : List LoggerOp) (ifc : LocalNetIfc)
    → Memᴰ ifc (logged_local_ifcs (log_ops new_logger ops))
      ↔ (last_local ifc.name none ops ≡ some ifc)
unfolding logged_local_ifcs new_logger value_of
logged_local_ifcs-last_local ops ifc =
    let (to, from) =
      Keyed-member local_name (log_ops new_logger ops).local_ifcs ifc
        (Keyed-log_ops new_logger ops tt) in
    let same = value_of-log_ops new_logger ops ifc.name in
    ((λ m. sym same ∙ to m), λ q. from (same ∙ q))
