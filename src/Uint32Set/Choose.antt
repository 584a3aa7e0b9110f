-- ===== src/Uint32Set/Choose.antt =====
-- staging/kos/pkg/uint32set/sortedset.go: `AddOneInRange` of SortedUInt32Set.
-- `int` differences of ranks stay on ℕ: a negative count of gaps and 0 meet the same panic.
pub mod Spots
pub mod Gaps
pub mod Theorems
pub mod Range
use kube_examples.Common.{
  ℕ, zero, suc, ◌+◌, ◌-◌, ◌%◌, Bool, true, false, not, ◌&&◌, Option, none, some, ltb, leb, ◌==◌,
  if◌then◌else◌, Go, ok, panic, ◌>>=◌, ◌>>◌, deref, two_32,
}
use kube_examples.Uint32Set.Keys.{key_eq}
use kube_examples.Uint32Set.Library.{Node, SortedSetLibrary}
use kube_examples.Uint32Set.Sorted.{SortedUint32Set, panic_if, is_nil, add_u32, sub_u32, find, add}

-- `rand.Intn(n)` and `rand.Int63n(n)`, with the source of randomness as an argument: every number
-- below `n` is the result for some seed, and `n = 0` panics.
abbrev pub intn : ℕ → ℕ → Go ℕ
intn seed n = if n == 0 then panic else ok (seed % n)

-- Pointer equality of nodes of one set, whose keys are distinct.
abbrev pub same_node : Option Node → Option Node → Bool
same_node none none = true
same_node none (some n) = false
same_node (some m) none = false
same_node (some m) (some n) = key_eq m.key n.key

abbrev pub count_found : Option Node → ℕ
count_found none = 0
count_found (some n) = 1

module _ (library : SortedSetLibrary) where
  -- The first number of a gap.
  pub gap_first : library.SortedSet → ℕ → ℕ → ℕ → Go ℕ
  gap_first ss min min_r gap_num =
      if ltb 0 gap_num
      then (do
        prev_node ← deref (library.get_by_rank ss (min_r + gap_num - 1))
        ok (add_u32 prev_node.value 1))
      else ok min

  -- The last number of a gap.
  pub gap_last : library.SortedSet → ℕ → ℕ → ℕ → ℕ → Go ℕ
  gap_last ss max min_r gap_num n_gaps =
      if ltb gap_num (n_gaps - 1)
      then (do
        next_node ← deref (library.get_by_rank ss (min_r + gap_num))
        ok (sub_u32 (next_node.score % two_32) 1))
      else ok max

  -- A random member of a gap, added to the set.
  pub add_in_gap :
      SortedUint32Set library → ℕ → ℕ → ℕ → ℕ → ℕ → ℕ → Go ((ℕ × Bool) × SortedUint32Set library)
  add_in_gap uis member_seed min max min_r gap_num n_gaps = do
    first ← gap_first uis.sorted_set min min_r gap_num
    last ← gap_last uis.sorted_set max min_r gap_num n_gaps
    offset ← intn member_seed (1 + sub_u32 last first)
    let x = add_u32 first offset
    (added, left) ← add library uis x
    panic_if (not added)
    ok ((x, added), left)

  -- A random gap, once the ends of the range are located.
  pub choose_gap :
      SortedUint32Set library
      → ℕ
      → ℕ
      → ℕ
      → ℕ
      → Option Node
      → ℕ
      → Option Node
      → ℕ
      → Go ((ℕ × Bool) × SortedUint32Set library)
  choose_gap uis gap_seed member_seed min max on_min min_r on_max max_r = do
    let bias = count_found on_min
    let saib = count_found on_max
    let n_gaps = 1 + max_r - min_r + saib
    panic_if (leb n_gaps (bias + saib))
    chosen ← intn gap_seed (n_gaps - (bias + saib))
    add_in_gap uis member_seed min max min_r (bias + chosen) n_gaps

  pub add_one_in_range :
      SortedUint32Set library → ℕ → ℕ → ℕ → ℕ → Go ((ℕ × Bool) × SortedUint32Set library)
  add_one_in_range uis gap_seed member_seed min max =
      if ltb max min then ok ((0, false), uis) else (do
        ((on_min, min_r), uis) ← find library uis min
        ((on_max, max_r), uis) ← find library uis max
        if same_node on_min on_max && not (is_nil on_min)
            then ok ((0, false), uis)
            else choose_gap uis gap_seed member_seed min max on_min min_r on_max max_r)
