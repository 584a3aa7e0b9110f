-- ===== src/Uint32Set/Contents.antt =====
-- Sorted sets that hold a list of runs: the operations of the library, as
-- staging/kos/pkg/uint32set/sortedset.go calls them, one lemma for each place where a key can be.
use kube_examples.Common.{
  ℕ, suc, ◌<◌, ◌≡◌, refl, ap, ◌∙◌, none, some, List, ◌∷◌, ◌++◌, length, two_32,
}
use kube_examples.Uint32Set.Keys.{hex8}
use kube_examples.Uint32Set.Library.{SortedSetLibrary}
use kube_examples.Uint32Set.Runs.{Run, run, node_of, embed, Before, After}
use kube_examples.Uint32Set.Nodes.{
  embed-append, at_key-here, at_key-above, at_key-skip, rank-above, rank-skip_absent, rank-skip,
  erase-above, erase-skip, erase-here, insert-above, insert-skip, at_index, at_end, length-embed,
}

module _ (library : SortedSetLibrary) where
  open library use {
    SortedSet, get_count, get_by_key, get_by_rank, find_rank, add_or_update, remove, nodes,
    get_count-nodes, get_by_key-nodes, get_by_rank-nodes, find_rank-nodes, nodes-add_or_update,
    nodes-remove,
  }

  abbrev pub Holds : SortedSet → List Run → Type 0
  Holds s rs = nodes s ≡ embed rs

  pub count_of : (s : SortedSet) (rs : List Run) → Holds s rs → get_count s ≡ length rs
  count_of s rs h = get_count-nodes s ∙ ap length h ∙ length-embed rs

  pub node_at :
      (s : SortedSet) (pre : List Run) (r : Run) (post : List Run)
      → Holds s (pre ++ r ∷ post)
      → get_by_rank s (suc (length pre)) ≡ some (node_of r)
  node_at s pre r post h = rw (get_by_rank-nodes, h) (at_index pre r post)

  pub node_past :
      (s : SortedSet) (rs : List Run) → Holds s rs → get_by_rank s (suc (length rs)) ≡ none
  node_past s rs h = rw (get_by_rank-nodes, h) (at_end rs)

  module _ (x : ℕ) (small : x < two_32) (s : SortedSet) where
    pub key_found :
        (pre : List Run) (v : ℕ) (post : List Run)
        → Holds s (pre ++ run x v ∷ post)
        → Before x pre
        → get_by_key s (hex8 x) ≡ some (node_of (run x v))
    key_found pre v post h b =
        rw (get_by_key-nodes, h, embed-append, at_key-skip x small pre _ b)
          (at_key-here x small (run x v) (embed post) refl)

    pub key_missing :
        (pre post : List Run)
        → Holds s (pre ++ post)
        → Before x pre
        → After x post
        → get_by_key s (hex8 x) ≡ none
    key_missing pre post h b a =
        rw (get_by_key-nodes, h, embed-append, at_key-skip x small pre _ b)
          (at_key-above x small post a)

    pub rank_found :
        (pre : List Run) (v : ℕ) (post : List Run)
        → Holds s (pre ++ run x v ∷ post)
        → Before x pre
        → find_rank s (hex8 x) ≡ suc (length pre)
    rank_found pre v post h b =
        rw (find_rank-nodes, h, embed-append) (rank-skip x small pre (run x v) (embed post) b refl)

    pub rank_missing :
        (pre post : List Run)
        → Holds s (pre ++ post)
        → Before x pre
        → After x post
        → find_rank s (hex8 x) ≡ 0
    rank_missing pre post h b a =
        rw (find_rank-nodes, h, embed-append)
          (rank-skip_absent x small pre (embed post) b (rank-above x small post a))

    pub taken_out :
        (pre : List Run) (v : ℕ) (post : List Run)
        → Holds s (pre ++ run x v ∷ post)
        → Before x pre
        → Holds (remove s (hex8 x)) (pre ++ post)
    taken_out pre v post h b =
        rw
          (
            nodes-remove,
            h,
            embed-append pre (run x v ∷ post),
            erase-skip x small pre _ b,
            embed-append pre post,
          )
          (ap (◌++◌ (embed pre)) (erase-here x small (run x v) (embed post) refl))

    pub put_new :
        (v : ℕ) (pre post : List Run)
        → Holds s (pre ++ post)
        → Before x pre
        → After x post
        → Holds (add_or_update s (hex8 x) x v) (pre ++ run x v ∷ post)
    put_new v pre post h b a =
        rw
          (
            nodes-add_or_update,
            h,
            embed-append pre post,
            erase-skip x small pre _ b,
            erase-above x small post a,
            insert-skip x small v pre _ b,
            embed-append pre (run x v ∷ post),
          )
          (ap (◌++◌ (embed pre)) (insert-above x small v post a))

    pub put_old :
        (v w : ℕ) (pre post : List Run)
        → Holds s (pre ++ run x w ∷ post)
        → Before x pre
        → After x post
        → Holds (add_or_update s (hex8 x) x v) (pre ++ run x v ∷ post)
    put_old v w pre post h b a =
        rw
          (
            nodes-add_or_update,
            h,
            embed-append pre (run x w ∷ post),
            erase-skip x small pre _ b,
            erase-here x small (run x w) (embed post) refl,
            insert-skip x small v pre _ b,
            embed-append pre (run x v ∷ post),
          )
          (ap (◌++◌ (embed pre)) (insert-above x small v post a))
