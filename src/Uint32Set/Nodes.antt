-- ===== src/Uint32Set/Nodes.antt =====
-- What the operations of the sorted-set library do to a list of runs
-- (staging/kos/pkg/uint32set/sortedset.go keeps one node for each run).
use kube_examples.Common.{
  ℕ, suc, ◌<◌, ◌≡◌, ◌≢◌, refl, ap, ◌∙◌, true, false, none, some, List, [], ◌∷◌, ◌++◌, arith, length,
  get_elem?, two_32,
}
use kube_examples.Uint32Set.Keys.{hex8, key_eq, key_eq-hex8}
use kube_examples.Uint32Set.Library.{Node, node_at_key, rank_of_key, erase_key, insert_node}
use kube_examples.Uint32Set.Runs.{Run, run, node_of, embed, Before, After}

pub embed-append : (pre post : List Run) → embed (pre ++ post) ≡ embed pre ++ embed post
embed-append [] post = refl
embed-append (r ∷ pre) post = ap (◌∷◌ (node_of r)) (embed-append pre post)

pub key_same : (x : ℕ) → x < two_32 → key_eq (hex8 x) (hex8 x) ≡ true
key_same x h = key_eq-hex8 x x h h ∙ ground arith

pub key_differs : (x y : ℕ) → x < two_32 → y < two_32 → x ≢ y → key_eq (hex8 x) (hex8 y) ≡ false
key_differs x y h k n = key_eq-hex8 x y h k ∙ ground arith

module _ (x : ℕ) (small : x < two_32) where
  pub at_key-here :
      (r : Run) (ns : List Node)
      → r.first ≡ x
      → node_at_key (hex8 x) (node_of r ∷ ns) ≡ some (node_of r)
  at_key-here r ns e = rw (e, key_same x small)

  pub at_key-above : (rs : List Run) → After x rs → node_at_key (hex8 x) (embed rs) ≡ none
  at_key-above [] a = refl
  at_key-above (r ∷ rs) a =
      rw (key_differs x r.first small a.0.1 (omega arith)) (at_key-above rs a.1)

  pub at_key-skip :
      (pre : List Run) (ns : List Node)
      → Before x pre
      → node_at_key (hex8 x) (embed pre ++ ns) ≡ node_at_key (hex8 x) ns
  at_key-skip [] ns b = refl
  at_key-skip (r ∷ pre) ns b =
      rw (key_differs x r.first small (omega arith) (omega arith)) (at_key-skip pre ns b.1)

  pub rank-above : (rs : List Run) → After x rs → rank_of_key (hex8 x) (embed rs) ≡ 0
  rank-above [] a = refl
  rank-above (r ∷ rs) a = rw (key_differs x r.first small a.0.1 (omega arith), rank-above rs a.1)

  pub rank-skip_absent :
      (pre : List Run) (ns : List Node)
      → Before x pre
      → rank_of_key (hex8 x) ns ≡ 0
      → rank_of_key (hex8 x) (embed pre ++ ns) ≡ 0
  rank-skip_absent [] ns b e = e
  rank-skip_absent (r ∷ pre) ns b e =
      rw (key_differs x r.first small (omega arith) (omega arith), rank-skip_absent pre ns b.1 e)

  pub rank-skip :
      (pre : List Run) (r : Run) (ns : List Node)
      → Before x pre
      → r.first ≡ x
      → rank_of_key (hex8 x) (embed pre ++ node_of r ∷ ns) ≡ suc (length pre)
  rank-skip [] r ns b e = rw (e, key_same x small)
  rank-skip (q ∷ pre) r ns b e =
      rw (key_differs x q.first small (omega arith) (omega arith), rank-skip pre r ns b.1 e)

  pub erase-above : (rs : List Run) → After x rs → erase_key (hex8 x) (embed rs) ≡ embed rs
  erase-above [] a = refl
  erase-above (r ∷ rs) a = rw (key_differs x r.first small a.0.1 (omega arith), erase-above rs a.1)

  pub erase-skip :
      (pre : List Run) (ns : List Node)
      → Before x pre
      → erase_key (hex8 x) (embed pre ++ ns) ≡ embed pre ++ erase_key (hex8 x) ns
  erase-skip [] ns b = refl
  erase-skip (r ∷ pre) ns b =
      rw (key_differs x r.first small (omega arith) (omega arith), erase-skip pre ns b.1)

  pub erase-here :
      (r : Run) (ns : List Node) → r.first ≡ x → erase_key (hex8 x) (node_of r ∷ ns) ≡ ns
  erase-here r ns e = rw (e, key_same x small)

  pub insert-above :
      (v : ℕ) (rs : List Run)
      → After x rs
      → insert_node (node_of (run x v)) (embed rs) ≡ node_of (run x v) ∷ embed rs
  insert-above v [] a = refl
  insert-above v (r ∷ rs) a = ground arith

  pub insert-skip :
      (v : ℕ) (pre : List Run) (ns : List Node)
      → Before x pre
      → insert_node (node_of (run x v)) (embed pre ++ ns)
        ≡ embed pre ++ insert_node (node_of (run x v)) ns
  insert-skip v [] ns b = refl
  insert-skip v (r ∷ pre) ns b = ground (arith, insert-skip v pre ns b.1)

pub at_index :
    (pre : List Run) (r : Run) (post : List Run)
    → get_elem? (embed (pre ++ r ∷ post)) (length pre) ≡ some (node_of r)
at_index [] r post = refl
at_index (q ∷ pre) r post = at_index pre r post

pub at_end : (pre : List Run) → get_elem? (embed pre) (length pre) ≡ none
at_end [] = refl
at_end (q ∷ pre) = at_end pre

pub length-embed : (rs : List Run) → length (embed rs) ≡ length rs
length-embed [] = refl
length-embed (r ∷ rs) = ap suc (length-embed rs)
