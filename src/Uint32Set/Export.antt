-- ===== src/Uint32Set/Export.antt =====
-- staging/kos/pkg/uint32set/sortedset.go: `Export` and `RExport` of SortedUInt32Set. `none` means
-- that the fuel ran out: the loop over the ranks gets one round more than there are runs, the loop
-- over a run one for each member.
pub mod Theorems
use mathlib.Core.List.{List, [], ◌∷◌, ◌++◌}
use kube_examples.Common.{
  ℕ, zero, suc, ◌+◌, ◌-◌, ◌%◌, Bool, true, false, Option, none, some, leb, two_32,
}
use kube_examples.Uint32Set.Library.{Node, SortedSetLibrary}
use kube_examples.Uint32Set.Sorted.{SortedUint32Set, add_u32}

-- `for x := i; true; { ans = append(ans, x); if x >= l { break }; x++ }`
pub append_run : ℕ → ℕ → ℕ → List ℕ → List ℕ
append_run zero x l ans = ans
append_run (suc fuel) x l ans = elim (leb l x) [
  | true ↦ ans ++ x ∷ []
  | false ↦ append_run fuel (add_u32 x 1) l (ans ++ x ∷ [])
]

module _ (library : SortedSetLibrary) where
  open library use {SortedSet, get_count, get_by_rank}

  pub export_from : SortedSet → ℕ → ℕ → List ℕ → Option (List ℕ)
  export_from ss zero rank ans = none
  export_from ss (suc fuel) rank ans = elim (get_by_rank ss rank) [
    | none ↦ some ans
    | some node ↦
        let i = node.score % two_32 in
        let l = node.value in export_from ss fuel (rank + 1) (append_run (suc (l - i)) i l ans)
  ]

  pub export : SortedUint32Set library → Option (List ℕ)
  export uis = export_from uis.sorted_set (suc (get_count uis.sorted_set)) 1 []

  pub r_export_from : SortedSet → ℕ → ℕ → List ℕ → Option (List ℕ)
  r_export_from ss zero rank ans = none
  r_export_from ss (suc fuel) rank ans = elim (get_by_rank ss rank) [
    | none ↦ some ans
    | some node ↦ r_export_from ss fuel (rank + 1) (ans ++ (node.score % two_32) ∷ node.value ∷ [])
  ]

  pub r_export : SortedUint32Set library → Option (List ℕ)
  r_export uis = r_export_from uis.sorted_set (suc (get_count uis.sorted_set)) 1 []
