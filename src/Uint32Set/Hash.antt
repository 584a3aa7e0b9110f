-- ===== src/Uint32Set/Hash.antt =====
-- staging/kos/pkg/uint32set/hashset.go: HashUInt32Set, the simple implementation against which the
-- sorted one is tested. The Go map is an association list that holds only keys.
pub mod Theorems
use kube_examples.Common.{
  ℕ, zero, suc, ◌+◌, ◌-◌, ◌%◌, Bool, true, false, not, ◌&&◌, ◌||◌, Option, none, some, List, [],
  ◌∷◌, ◌++◌, ltb, leb, ◌==◌, if◌then◌else◌, two_32,
}
use kube_examples.Uint32Set.Ascending.{contains}
use kube_examples.Uint32Set.Sorted.{add_u32, sub_u32}

pub record HashUint32Set : Type 0 where
  pub low : ℕ
  pub high : ℕ
  pub members : List ℕ

-- `Last`, the greatest 32-bit number.
abbrev pub last_u32 : ℕ
last_u32 = 4294967295

pub new_hash_uint32_set : HashUint32Set
new_hash_uint32_set = record { low = last_u32; high = 0; members = [] }

-- `len(members) == 0`
abbrev pub no_members : List ℕ → Bool
no_members [] = true
no_members (x ∷ xs) = false

pub is_empty : HashUint32Set → Bool
is_empty huis = no_members huis.members

pub has : HashUint32Set → ℕ → Bool
has huis x = contains x huis.members

pub add : HashUint32Set → ℕ → Bool × HashUint32Set
add huis x = if contains x huis.members then (false, huis) else (
  true,
  record {
    low = if ltb x huis.low then x else huis.low;
    high = if ltb huis.high x then x else huis.high;
    members = x ∷ huis.members;
  },
)

-- `delete(members, x)`
abbrev pub delete : ℕ → List ℕ → List ℕ
delete x [] = []
delete x (y ∷ ys) = if x == y then delete x ys else y ∷ delete x ys

pub remove : HashUint32Set → ℕ → Bool × HashUint32Set
remove huis x =
    if not (contains x huis.members)
    then (false, huis)
    else let left = delete x huis.members in
      (
        true,
        if no_members left
            then record { low = last_u32; high = 0; members = left }
            else record huis { members = left },
      )

-- `CouldAddInRange`: whether `AddOneInRange(min, max)` may return `(x, could)`.
unfoldable pub could_add_in_range : HashUint32Set → ℕ → ℕ → ℕ → Bool → Bool × HashUint32Set
could_add_in_range huis min max x could =
    let c = if ltb x min || ltb max x then false else not (has huis x) in
    let huis' = if c then (add huis x).1 else huis in ((if c then could else not could), huis')

-- The loop of `Export` from `x` on; it gets a round for each number up to `high`.
pub export_from : ℕ → HashUint32Set → ℕ → List ℕ → Option (List ℕ)
export_from zero huis x ans = none
export_from (suc fuel) huis x ans =
    let ans = if contains x huis.members then ans ++ x ∷ [] else ans in
    elim (leb huis.high x) [ true ↦ some ans | false ↦ export_from fuel huis (add_u32 x 1) ans ]

pub export : HashUint32Set → Option (List ℕ)
export huis = export_from (suc (huis.high - huis.low)) huis huis.low []
