-- ===== src/Agent/Sightings.antt =====
-- In which virtual networks the connection agent has seen an attachment: the map nsnToVNIs of
-- staging/kos/pkg/controllers/connectionagent/connectionagent.go, with addVNI, removeSeenInVNI and
-- getAttSeenInVNI, each one step under its mutex. A Go set of VNIs is a list without repetitions.
pub mod Only
use kube_examples.Common.{
  ℕ, zero, suc, ◌+◌, Bool, true, false, ◌&&◌, Option, none, some, List, [], ◌∷◌, length, ◌==◌,
  if◌then◌else◌,
}
use kube_examples.GoText.{Text, text_eq}

-- The map, by namespace and name.
abbrev pub NsnToVnis : Type 0
NsnToVnis = Text → Text → Option (List ℕ)

unfoldable pub has_vni : List ℕ → ℕ → Bool
has_vni [] vni = false
has_vni (v ∷ vnis) vni = let rest = has_vni vnis vni in if v == vni then true else rest

unfoldable pub insert_vni : List ℕ → ℕ → List ℕ
insert_vni vnis vni = if has_vni vnis vni then vnis else vni ∷ vnis

unfoldable pub delete_vni : List ℕ → ℕ → List ℕ
delete_vni [] vni = []
delete_vni (v ∷ vnis) vni = let rest = delete_vni vnis vni in if v == vni then rest else v ∷ rest

unfoldable pub put_vnis : NsnToVnis → Text → Text → Option (List ℕ) → NsnToVnis
put_vnis seen ns name vnis =
    λ ns2 name2. if text_eq ns2 ns && text_eq name2 name then vnis else seen ns2 name2

-- A nil map has no elements.
abbrev pub vnis_or_nil : Option (List ℕ) → List ℕ
vnis_or_nil none = []
vnis_or_nil (some vnis) = vnis

-- `addVNI`.
unfoldable pub add_vni : NsnToVnis → Text → Text → ℕ → NsnToVnis
add_vni seen ns name vni =
    put_vnis seen ns name (some (insert_vni (vnis_or_nil (seen ns name)) vni))

-- An empty set is deleted from the map.
abbrev pub unless_empty : List ℕ → Option (List ℕ)
unless_empty [] = none
unless_empty (v ∷ vnis) = some (v ∷ vnis)

-- `removeSeenInVNI`.
unfoldable pub remove_seen_in_vni : NsnToVnis → Text → Text → ℕ → NsnToVnis
remove_seen_in_vni seen ns name vni = elim (seen ns name) [
  | none ↦ seen
  | some att_vnis ↦ put_vnis seen ns name (unless_empty (delete_vni att_vnis vni))
]

-- The results of `getAttSeenInVNI` for a set: the only VNI, 0 where there is not one, and how many.
unfoldable pub only_vni : List ℕ → ℕ × ℕ
only_vni [] = (0, 0)
only_vni (v ∷ []) = (v, 1)
only_vni (v ∷ u ∷ vnis) = (0, length (v ∷ u ∷ vnis))

-- `getAttSeenInVNI`.
unfoldable pub get_att_seen_in_vni : NsnToVnis → Text → Text → ℕ × ℕ
get_att_seen_in_vni seen ns name = only_vni (vnis_or_nil (seen ns name))

-- An attachment was added to the cache of a virtual network, or removed from it.
pub record Sighting : Type 0 where
  pub added : Bool
  pub ns : Text
  pub name : Text
  pub vni : ℕ

-- What `onRemoteAttAdded` and `onRemoteAttRemoved` do to the map.
unfoldable pub on_sighting : NsnToVnis → Sighting → NsnToVnis
on_sighting seen x =
    if x.added then add_vni seen x.ns x.name x.vni else remove_seen_in_vni seen x.ns x.name x.vni

unfoldable pub on_sightings : NsnToVnis → List Sighting → NsnToVnis
on_sightings seen [] = seen
on_sightings seen (x ∷ xs) = on_sightings (on_sighting seen x) xs
