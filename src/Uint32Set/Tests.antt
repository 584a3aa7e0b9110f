-- ===== src/Uint32Set/Tests.antt =====
-- The set types of staging/kos/pkg/uint32set on concrete inputs.
use kube_examples.Common.{
  ℕ, ◌<◌, ◌≡◌, refl, Bool, true, not, ◌&&◌, ◌||◌, some, List, [], ◌∷◌, arith, ◌==◌, Returns, two_32,
}
use kube_examples.Uint32Set.Library.{ordered_lists}
use kube_examples.Uint32Set.Runs.{Run, run, embed, covers}
use kube_examples.Uint32Set.Ascending.{Lists}
use kube_examples.Uint32Set.Sorted
use kube_examples.Uint32Set.Sorted.{SortedUint32Set}
use kube_examples.Uint32Set.Sorted.Models.{Stores, Models}
use kube_examples.Uint32Set.Sorted.Add.{add-Models}
use kube_examples.Uint32Set.Sorted.Remove.{remove-Models}
use kube_examples.Uint32Set.Sorted.Find.{Locates, find-Locates}
use kube_examples.Uint32Set.Choose.{add_one_in_range}
use kube_examples.Uint32Set.Choose.Range.{
  Outcome, Reaches, add_one_in_range-Outcome, add_one_in_range-Reaches,
}
use kube_examples.Uint32Set.Export
use kube_examples.Uint32Set.Export.Theorems as SortedExport
use kube_examples.Uint32Set.Hash
use kube_examples.Uint32Set.Hash.{HashUint32Set}
use kube_examples.Uint32Set.Hash.Theorems as HashLaws
use kube_examples.Uint32Set.Contract

-- {5, 6, 7, 10}
abbrev sample_runs : List Run
sample_runs = run 5 7 ∷ run 10 10 ∷ []

abbrev sample : SortedUint32Set ordered_lists
sample = record { sorted_set = embed sample_runs; check_level = 2 }

abbrev sample_set : ℕ → Bool
sample_set y = covers y sample_runs

abbrev sample_stores : Stores ordered_lists sample sample_set sample_runs
sample_stores = record { held = refl; proper = omega arith; members = λ y. refl }

abbrev sample_models : Models ordered_lists sample sample_set
sample_models = (sample_runs, sample_stores)

abbrev sample_hash : HashUint32Set
sample_hash = record { low = 5; high = 10; members = 10 ∷ 5 ∷ 7 ∷ 6 ∷ [] }

sample_hash_models : HashLaws.Represents sample_hash sample_set
sample_hash_models = record {
  members = λ y. ground arith;
  above_low = λ y e. ground arith;
  below_high = λ y e. ground arith;
  low_small = omega arith;
  high_small = omega arith;
}

sample_fits : 20 < two_32
sample_fits = omega arith

add-Models_example :
    Returns
      (Sorted.add ordered_lists sample 9)
      λ r. (r.0 ≡ true) × Models ordered_lists r.1 (λ y. sample_set y || y == 9)
add-Models_example = add-Models ordered_lists sample sample_set 9 (omega arith) sample_models

remove-Models_example :
    Returns
      (Sorted.remove ordered_lists sample 6)
      λ r. (r.0 ≡ true) × Models ordered_lists r.1 (λ y. sample_set y && not (y == 6))
remove-Models_example = remove-Models ordered_lists sample sample_set 6 (omega arith) sample_models

find-Locates_example :
    Returns
      (Sorted.find ordered_lists sample 8)
      λ r. Stores ordered_lists r.1 sample_set sample_runs × Locates 8 sample_runs (r.0).0 (r.0).1
find-Locates_example =
    find-Locates ordered_lists sample sample_set 8 (omega arith) sample_runs sample_stores

add_one_in_range-Outcome_example :
    Returns
      (add_one_in_range ordered_lists sample 4 7 6 20)
      (Outcome ordered_lists sample sample_set 6 20 sample_fits)
add_one_in_range-Outcome_example =
    add_one_in_range-Outcome ordered_lists sample sample_set 6 20 sample_fits 4 7 sample_models

add_one_in_range-Reaches_example : Reaches ordered_lists sample sample_set 6 20 sample_fits 9
add_one_in_range-Reaches_example =
    add_one_in_range-Reaches ordered_lists sample sample_set 6 20 sample_fits 9 sample_models
      (omega arith) (omega arith) refl

sorted_export-Lists_example :
    (xs : List ℕ) × (Export.export ordered_lists sample ≡ some xs) × Lists sample_set xs
sorted_export-Lists_example =
    SortedExport.export-Lists ordered_lists sample sample_set sample_models

r_export-all_ends_example : Export.r_export ordered_lists sample ≡ some (5 ∷ 7 ∷ 10 ∷ 10 ∷ [])
r_export-all_ends_example =
    SortedExport.r_export-all_ends ordered_lists sample sample_set sample_runs sample_stores

hash_add-Represents_example :
    ((Hash.add sample_hash 9).0 ≡ true)
    × HashLaws.Represents (Hash.add sample_hash 9).1 (λ y. sample_set y || y == 9)
hash_add-Represents_example =
    HashLaws.add-Represents sample_hash sample_set sample_hash_models 9 (omega arith)

hash_remove-Represents_example :
    ((Hash.remove sample_hash 6).0 ≡ true)
    × HashLaws.Represents (Hash.remove sample_hash 6).1 (λ y. sample_set y && not (y == 6))
hash_remove-Represents_example =
    HashLaws.remove-Represents sample_hash sample_set sample_hash_models 6

export-export_example : Export.export ordered_lists sample ≡ Hash.export sample_hash
export-export_example =
    Contract.export-export ordered_lists sample sample_hash sample_set sample_models
      sample_hash_models

add_one_in_range-could_add_in_range_example :
    Returns (add_one_in_range ordered_lists sample 4 7 6 20) λ r.
      ((Hash.could_add_in_range sample_hash 6 20 (r.0).0 (r.0).1).0 ≡ true)
      × Contract.Agree ordered_lists sample sample_hash sample_set sample_models sample_hash_models
          (r.1, (Hash.could_add_in_range sample_hash 6 20 (r.0).0 (r.0).1).1)
add_one_in_range-could_add_in_range_example =
    Contract.add_one_in_range-could_add_in_range ordered_lists sample sample_hash sample_set
      sample_models sample_hash_models 6 20 sample_fits 4 7
