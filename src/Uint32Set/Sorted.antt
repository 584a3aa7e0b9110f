-- ===== src/Uint32Set/Sorted.antt =====
-- staging/kos/pkg/uint32set/sortedset.go: SortedUInt32Set, a set of 32-bit numbers as an ordered
-- list of runs. `uint32` sums keep their wrap-around; a method returns the set that it leaves
-- behind, also where it only looks (`Find` inserts a node and takes it out again).
pub mod Check
pub mod Models
pub mod Merge
pub mod Add
pub mod Remove
pub mod Find
use kube_examples.Common.{
  ℕ, zero, suc, ◌+◌, ◌-◌, ◌%◌, Bool, true, false, not, Option, none, some, ltb, leb, ◌==◌,
  if◌then◌else◌, Go, ok, panic, ◌>>=◌, ◌>>◌, deref, two_32,
}
use kube_examples.Uint32Set.Keys.{hex8}
use kube_examples.Uint32Set.Library.{Node, SortedSetLibrary}

-- `if bad { panic(...) }`
abbrev pub panic_if : Bool → Go (Unit {0})
panic_if true = panic
panic_if false = ok tt

abbrev pub is_nil {ℓ} : {A : Type ℓ} → Option A → Bool
is_nil none = true
is_nil (some a) = false

-- `uint32` addition and subtraction.
abbrev pub add_u32 : ℕ → ℕ → ℕ
add_u32 a b = (a + b) % two_32

abbrev pub sub_u32 : ℕ → ℕ → ℕ
sub_u32 a b = (a + two_32 - b) % two_32

module _ (library : SortedSetLibrary) where
  open library use {
    SortedSet, new, get_count, get_by_key, get_by_rank, find_rank, add_or_update,
    remove as remove_key,
  }

  pub record SortedUint32Set : Type 0 where
    pub sorted_set : SortedSet
    pub check_level : ℕ

  pub new_sorted_uint32_set : ℕ → SortedUint32Set
  new_sorted_uint32_set check_level = record { sorted_set = new; check_level = check_level }

  pub is_empty : SortedUint32Set → Bool
  is_empty uis = get_count uis.sorted_set == 0

  -- The loop of the exhaustive check, from a rank on; `rounds` is `count + 1 - rank`.
  check_from : SortedSet → ℕ → ℕ → Node → Go Node
  check_from s rank zero last_node = ok last_node
  check_from s rank (suc rounds) last_node = do
    node ← deref (get_by_rank s rank)
    panic_if (leb (node.score % two_32) (add_u32 last_node.value 1))
    panic_if (ltb node.value (node.score % two_32))
    check_from s (rank + 1) rounds node

  check_nodes : SortedSet → Bool → Go (Unit {0})
  check_nodes s hard = do
    first_node ← deref (get_by_rank s 1)
    panic_if (ltb first_node.value (first_node.score % two_32))
    last_node ←
        if hard
        then check_from s 2 (get_count s - 1) first_node
        else deref (get_by_rank s (get_count s))
    panic_if (ltb last_node.value (last_node.score % two_32))

  pub check : SortedUint32Set → Bool → Go (Unit {0})
  check uis hard = do
    if get_count uis.sorted_set == 0
        then panic_if (not (is_nil (get_by_rank uis.sorted_set 1)))
        else check_nodes uis.sorted_set hard
    panic_if (not (is_nil (get_by_rank uis.sorted_set (get_count uis.sorted_set + 1))))

  -- `if uis.CheckLevel > 0 { uis.Check(uis.CheckLevel > 1) }`
  pub check_at_level : SortedUint32Set → Go (Unit {0})
  check_at_level uis = if ltb 0 uis.check_level then check uis (ltb 1 uis.check_level) else ok tt

  -- `Find`: the run that holds `x`, if any, and the rank of the run that does or would.
  pub find : SortedUint32Set → ℕ → Go ((Option Node × ℕ) × SortedUint32Set)
  find uis x =
      let ss = uis.sorted_set in
      let rank = find_rank ss (hex8 x) in
      let probed = add_or_update ss (hex8 x) x x in
      let rank_next = find_rank probed (hex8 x) in
      let restored = remove_key probed (hex8 x) in
      let left = record uis { sorted_set = restored } in
      if ltb 0 rank
      then ok ((get_by_rank ss rank, rank), uis)
      else if ltb 1 rank_next
      then (do
        anode ← deref (get_by_rank restored (rank_next - 1))
        ok (
            if leb x anode.value
            then ((some anode, rank_next - 1), left)
            else ((none, rank_next), left)))
      else ok ((none, rank_next), left)

  pub has : SortedUint32Set → ℕ → Go (Bool × SortedUint32Set)
  has uis x = do ((node, _), left) ← find uis x; ok (not (is_nil node), left)

  -- The end of `Add`, once the neighbours of the new run `x--x` at rank `rank_x` are known.
  pub merge_new_run : SortedUint32Set → ℕ → ℕ → Option Node → Bool → Go SortedUint32Set
  merge_new_run uis x rank_x prev_node merge_with_prev =
      let ss = uis.sorted_set in
      let next_node = get_by_rank ss (rank_x + 1) in
      let merge_with_next : Bool = elim next_node [
        | none ↦ false
        | some n ↦ add_u32 x 1 == n.score
      ] in
      let sans_x = remove_key ss (hex8 x) in
      if merge_with_prev
      then if merge_with_next
        then (do
          prev ← deref prev_node
          next ← deref next_node
          ok (record uis {
            sorted_set = add_or_update (remove_key sans_x next.key) prev.key prev.score next.value;
          }))
        else (do
          prev ← deref prev_node
          ok (record uis { sorted_set = add_or_update sans_x prev.key prev.score x }))
      else if merge_with_next
      then (do
        next ← deref next_node
        ok (record uis {
          sorted_set = add_or_update (remove_key ss next.key) (hex8 x) x next.value;
        }))
      else ok uis

  pub merge_and_check : SortedUint32Set → ℕ → ℕ → Option Node → Bool → Go (Bool × SortedUint32Set)
  merge_and_check uis x rank_x prev_node merge_with_prev = do
    merged ← merge_new_run uis x rank_x prev_node merge_with_prev
    check_at_level merged
    ok (true, merged)

  -- `Add`: `true` if the number was not in the set.
  pub add : SortedUint32Set → ℕ → Go (Bool × SortedUint32Set)
  add uis x =
      if not (is_nil (get_by_key uis.sorted_set (hex8 x)))
      then ok (false, uis)
      else let ss = add_or_update uis.sorted_set (hex8 x) x x in
        let rank_x = find_rank ss (hex8 x) in
        let with_x = record uis { sorted_set = ss } in
        if ltb 1 rank_x
        then (do
          prev_node ← deref (get_by_rank ss (rank_x - 1))
          let prev_last = prev_node.value
          if leb x prev_last
              then ok (false, record uis { sorted_set = remove_key ss (hex8 x) })
              else merge_and_check with_x x rank_x (some prev_node) (add_u32 prev_last 1 == x))
        else merge_and_check with_x x rank_x none false

  pub inner_remove : SortedUint32Set → ℕ → Go (Bool × SortedUint32Set)
  inner_remove uis x =
      let y = add_u32 x 1 in
      let probed = add_or_update uis.sorted_set (hex8 x) x x in
      let rank_x = find_rank probed (hex8 x) in
      let restored = remove_key probed (hex8 x) in
      elim (get_by_key uis.sorted_set (hex8 x)) [
        | some x_n ↦
            let sans = remove_key uis.sorted_set (hex8 x) in
            ok (
              true,
              record uis {
                sorted_set =
                    if not (x == x_n.value) then add_or_update sans (hex8 y) y x_n.value else sans;
              },
            )
        | none ↦
            if ltb 1 rank_x
            then (do
              prev_node ← deref (get_by_rank restored (rank_x - 1))
              let prev_last = prev_node.value
              let cut = add_or_update restored prev_node.key prev_node.score (sub_u32 x 1)
              if ltb prev_last x
                  then ok (false, record uis { sorted_set = restored })
                  else ok (
                    true,
                    record uis {
                      sorted_set =
                          if ltb x prev_last then add_or_update cut (hex8 y) y prev_last else cut;
                    },
                  ))
            else ok (false, record uis { sorted_set = restored })
      ]

  -- `Remove`: `true` if the number was in the set.
  pub remove : SortedUint32Set → ℕ → Go (Bool × SortedUint32Set)
  remove uis x = do (ans, left) ← inner_remove uis x; check_at_level left; ok (ans, left)
