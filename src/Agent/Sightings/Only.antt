-- ===== src/Agent/Sightings/Only.antt =====
-- What getAttSeenInVNI says after any additions and removals.
use kube_examples.Common.{
  ℕ, ◌≡◌, ◌↔◌, refl, sym, ap, ◌∙◌, arith, Bool, true, false, not, ◌&&◌, ◌||◌, none, List, [], ◌∷◌,
  ◌==◌, if◌then◌else◌, Bool-cases, Option-cases, inl, inr,
}
use kube_examples.GoText.{Text, text_eq}
use kube_examples.GoText.Equality.{text_eq_same}
use kube_examples.Agent.Sightings.{
  NsnToVnis, has_vni, insert_vni, delete_vni, put_vnis, vnis_or_nil, unless_empty, add_vni,
  remove_seen_in_vni, only_vni, get_att_seen_in_vni, Sighting, on_sighting, on_sightings,
}

has_vni-insert_vni :
    (vnis : List ℕ) (vni v : ℕ) → has_vni (insert_vni vnis vni) v ≡ (has_vni vnis v || vni == v)
unfolding insert_vni has_vni
has_vni-insert_vni vnis vni v = elim (Bool-cases (has_vni vnis vni)) [
  | inl e ↦ elim (Bool-cases (vni == v)) [
    | inl w ↦
        let same : vni ≡ v = ground (arith, w) in
        let q = ap (has_vni vnis) (sym same) ∙ e in rw (insert_vni, e, w, q) refl
    | inr w ↦ rw (insert_vni, e, w) (ground arith)
  ]
  | inr e ↦ elim (Bool-cases (vni == v)) [
    | inl w ↦ rw (insert_vni, e, has_vni, w) (ground arith)
    | inr w ↦ rw (insert_vni, e, has_vni, w) (ground arith)
  ]
]

has_vni-delete_vni :
    (vnis : List ℕ) (vni v : ℕ)
    → has_vni (delete_vni vnis vni) v ≡ (has_vni vnis v && not (vni == v))
unfolding delete_vni has_vni
has_vni-delete_vni [] vni v = refl
has_vni-delete_vni (u ∷ vnis) vni v = ground (arith, has_vni-delete_vni vnis vni v)

-- No VNI twice.
abbrev NoneTwice : List ℕ → Type 0
NoneTwice [] = Unit
NoneTwice (v ∷ vnis) = (has_vni vnis v ≡ false) × NoneTwice vnis

insert_vni-NoneTwice : (vnis : List ℕ) (vni : ℕ) → NoneTwice vnis → NoneTwice (insert_vni vnis vni)
unfolding insert_vni
insert_vni-NoneTwice vnis vni h = elim (Bool-cases (has_vni vnis vni)) [
  | inl e ↦ rw (insert_vni, e) h
  | inr e ↦ rw (insert_vni, e) (e, h)
]

delete_vni-NoneTwice : (vnis : List ℕ) (vni : ℕ) → NoneTwice vnis → NoneTwice (delete_vni vnis vni)
unfolding delete_vni
delete_vni-NoneTwice [] vni h = h
delete_vni-NoneTwice (v ∷ vnis) vni (fresh, h) = elim (Bool-cases (v == vni)) [
  | inl e ↦ rw (delete_vni, e) (delete_vni-NoneTwice vnis vni h)
  | inr e ↦
      rw (delete_vni, e)
        (
          has_vni-delete_vni vnis vni v ∙ ap (λ b. b && not (vni == v)) fresh,
          delete_vni-NoneTwice vnis vni h,
        )
]

vnis_or_nil-unless_empty : (vnis : List ℕ) → vnis_or_nil (unless_empty vnis) ≡ vnis
vnis_or_nil-unless_empty [] = refl
vnis_or_nil-unless_empty (v ∷ vnis) = refl

-- The names are those of the attachment.
abbrev same_nsn : Text → Text → Text → Text → Bool
same_nsn ns name ns2 name2 = text_eq ns2 ns && text_eq name2 name

same_nsn_entry :
    (seen : NsnToVnis) (ns name ns2 name2 : Text)
    → same_nsn ns name ns2 name2 ≡ true
    → seen ns name ≡ seen ns2 name2
same_nsn_entry seen ns name ns2 name2 h =
    let one = (text_eq_same ns2 ns).0 (ground (arith, h)) in
    let two = (text_eq_same name2 name).0 (ground (arith, h)) in
    ap (λ y. seen y name) (sym one) ∙ ap (seen ns2) (sym two)

add_vni-entry :
    (seen : NsnToVnis) (ns name : Text) (vni : ℕ) (ns2 name2 : Text)
    → let vnis = vnis_or_nil (seen ns2 name2) in
      vnis_or_nil (add_vni seen ns name vni ns2 name2)
      ≡ (if same_nsn ns name ns2 name2 then insert_vni vnis vni else vnis)
unfolding add_vni put_vnis
add_vni-entry seen ns name vni ns2 name2 = elim (Bool-cases (same_nsn ns name ns2 name2)) [
  | inl own ↦
      rw own (ap (λ o. insert_vni (vnis_or_nil o) vni) (same_nsn_entry seen ns name ns2 name2 own))
  | inr other ↦ rw other refl
]

remove_seen_in_vni-entry :
    (seen : NsnToVnis) (ns name : Text) (vni : ℕ) (ns2 name2 : Text)
    → let vnis = vnis_or_nil (seen ns2 name2) in
      vnis_or_nil (remove_seen_in_vni seen ns name vni ns2 name2)
      ≡ (if same_nsn ns name ns2 name2 then delete_vni vnis vni else vnis)
unfolding remove_seen_in_vni put_vnis delete_vni
remove_seen_in_vni-entry seen ns name vni ns2 name2 = elim (Option-cases (seen ns name)) [
  | inl e ↦ elim (Bool-cases (same_nsn ns name ns2 name2)) [
    | inl own ↦
        let q = sym (same_nsn_entry seen ns name ns2 name2 own) ∙ e in
        rw (remove_seen_in_vni, e, own, q) refl
    | inr other ↦ rw (remove_seen_in_vni, e, other) refl
  ]
  | inr (vnis, e) ↦ elim (Bool-cases (same_nsn ns name ns2 name2)) [
    | inl own ↦
        let q = sym (same_nsn_entry seen ns name ns2 name2 own) ∙ e in
        rw (remove_seen_in_vni, e, own, q) (vnis_or_nil-unless_empty (delete_vni vnis vni))
    | inr other ↦ rw (remove_seen_in_vni, e, other) refl
  ]
]

-- In which virtual networks the attachments are, by the last sighting of each.
abbrev pub Whereabouts : Type 0
Whereabouts = Text → Text → ℕ → Bool

abbrev pub after_sighting : Whereabouts → Sighting → Whereabouts
after_sighting f x =
    λ ns name v. if same_nsn x.ns x.name ns name && x.vni == v then x.added else f ns name v

unfoldable pub after_sightings : Whereabouts → List Sighting → Whereabouts
after_sightings f [] = f
after_sightings f (x ∷ xs) = after_sightings (after_sighting f x) xs

-- The map has the sets of the whereabouts.
abbrev Knows : NsnToVnis → Whereabouts → Type 0
Knows seen f =
    (ns name : Text)
    → NoneTwice (vnis_or_nil (seen ns name))
      × ((v : ℕ) → has_vni (vnis_or_nil (seen ns name)) v ≡ f ns name v)

add_vni-Knows :
    (seen : NsnToVnis) (f : Whereabouts) (ns name : Text) (vni : ℕ)
    → Knows seen f
    → Knows
        (add_vni seen ns name vni)
        (after_sighting f (record { added = true; ns = ns; name = name; vni = vni }))
add_vni-Knows seen f ns name vni k ns2 name2 =
    let (once, has) = k ns2 name2 in
    elim (Bool-cases (same_nsn ns name ns2 name2)) [
      | inl own ↦
          rw (add_vni-entry seen ns name vni ns2 name2, own)
            (
              insert_vni-NoneTwice _ vni once,
              λ v. has_vni-insert_vni (vnis_or_nil (seen ns2 name2)) vni v ∙ ground (arith, has v),
            )
      | inr other ↦ rw (add_vni-entry seen ns name vni ns2 name2, other) (once, has)
    ]

remove_seen_in_vni-Knows :
    (seen : NsnToVnis) (f : Whereabouts) (ns name : Text) (vni : ℕ)
    → Knows seen f
    → Knows
        (remove_seen_in_vni seen ns name vni)
        (after_sighting f (record { added = false; ns = ns; name = name; vni = vni }))
remove_seen_in_vni-Knows seen f ns name vni k ns2 name2 =
    let (once, has) = k ns2 name2 in
    elim (Bool-cases (same_nsn ns name ns2 name2)) [
      | inl own ↦
          rw (remove_seen_in_vni-entry seen ns name vni ns2 name2, own)
            (
              delete_vni-NoneTwice _ vni once,
              λ v. has_vni-delete_vni (vnis_or_nil (seen ns2 name2)) vni v ∙ ground (arith, has v),
            )
      | inr other ↦ rw (remove_seen_in_vni-entry seen ns name vni ns2 name2, other) (once, has)
    ]

on_sighting-Knows :
    (seen : NsnToVnis) (f : Whereabouts) (added : Bool) (ns name : Text) (vni : ℕ)
    → Knows seen f
    → let x : Sighting = record { added = added; ns = ns; name = name; vni = vni } in
      Knows (on_sighting seen x) (after_sighting f x)
unfolding on_sighting
on_sighting-Knows seen f true ns name vni k = add_vni-Knows seen f ns name vni k
on_sighting-Knows seen f false ns name vni k = remove_seen_in_vni-Knows seen f ns name vni k

on_sightings-Knows :
    (seen : NsnToVnis) (f : Whereabouts) (xs : List Sighting)
    → Knows seen f
    → Knows (on_sightings seen xs) (after_sightings f xs)
unfolding on_sightings after_sightings
on_sightings-Knows seen f [] k = k
on_sightings-Knows seen f (x ∷ xs) k =
    on_sightings-Knows (on_sighting seen x) (after_sighting f x) xs
      (on_sighting-Knows seen f x.added x.ns x.name x.vni k)

-- One number, exactly if the set has that one alone.
only_vni-alone :
    (vnis : List ℕ) (v : ℕ)
    → NoneTwice vnis
    → (only_vni vnis ≡ (v, 1)) ↔ ((u : ℕ) → has_vni vnis u ≡ (v == u))
unfolding only_vni has_vni
only_vni-alone [] v once = ((λ e. ground (arith, ap (λ r. r.1) e)), λ h. ground (arith, h v))
only_vni-alone (w ∷ []) v once = (
  (λ e u. let q : w ≡ v = ap (λ r. r.0) e in rw q (ground arith)),
  λ h. let q : w ≡ v = ground (arith, h w) in ap (λ z. (z, 1)) q,
)
only_vni-alone (w ∷ z ∷ vnis) v (fresh, once) = (
  (λ e. ground (arith, ap (λ r. r.1) e)),
  λ h.
      let one : w ≡ v = ground (arith, h w) in
      let two : z ≡ v = ground (arith, h z) in ground (arith, fresh, one, two),
)

abbrev pub no_sightings : NsnToVnis
no_sightings ns name = none

abbrev pub nowhere : Whereabouts
nowhere ns name v = false

-- After any additions and removals of attachments, getAttSeenInVNI returns a VNI and the number 1
-- exactly if the last sighting of the attachment in that virtual network is an addition, and in every
-- other one a removal, if there is any.
pub get_att_seen_in_vni_only :
    (xs : List Sighting) (ns name : Text) (v : ℕ)
    → (get_att_seen_in_vni (on_sightings no_sightings xs) ns name ≡ (v, 1))
      ↔ ((u : ℕ) → after_sightings nowhere xs ns name u ≡ (v == u))
unfolding get_att_seen_in_vni has_vni
get_att_seen_in_vni_only xs ns name v =
    let (once, has) =
      on_sightings-Knows no_sightings nowhere xs (λ ns2 name2. (tt, λ u. refl)) ns name in
    let (to, from) = only_vni-alone (vnis_or_nil (on_sightings no_sightings xs ns name)) v once in
    ((λ e u. sym (has u) ∙ to e u), λ h. from (λ u. has u ∙ h u))
