-- ===== src/Uint32Set/Library.antt =====
-- github.com/wangjia184/sortedset, which staging/kos/pkg/uint32set/sortedset.go is built on, as a
-- parameter: its operations, and what its documentation says of them. A set is an ordered list of
-- nodes, each with a key, a score and a value; nodes stand by score, and by key where scores are
-- equal; ranks count from 1.
use kube_examples.Common.{
  ℕ, zero, suc, ◌≡◌, refl, Bool, ◌&&◌, ◌||◌, Option, none, some, List, [], ◌∷◌, ltb, ◌==◌,
  if◌then◌else◌, length, get_elem?,
}
use kube_examples.Uint32Set.Keys.{Key, key_eq, key_less}

pub record Node : Type 0 where
  pub key : Key
  pub score : ℕ
  pub value : ℕ

abbrev pub precedes : Node → Node → Bool
precedes m n = ltb m.score n.score || (m.score == n.score && key_less m.key n.key)

abbrev pub node_at_key : Key → List Node → Option Node
node_at_key k [] = none
node_at_key k (n ∷ ns) = if key_eq k n.key then some n else node_at_key k ns

-- The rank of a key, or 0.
abbrev pub rank_of_key : Key → List Node → ℕ
rank_of_key k [] = 0
rank_of_key k (n ∷ ns) =
    let later = rank_of_key k ns in
    if key_eq k n.key then 1 else (elim later [ zero ↦ 0 | suc r ↦ suc (suc r) ])

abbrev pub erase_key : Key → List Node → List Node
erase_key k [] = []
erase_key k (n ∷ ns) = if key_eq k n.key then ns else n ∷ erase_key k ns

abbrev pub insert_node : Node → List Node → List Node
insert_node m [] = m ∷ []
insert_node m (n ∷ ns) = if precedes m n then m ∷ n ∷ ns else n ∷ insert_node m ns

pub record SortedSetLibrary : Type 1 where
  pub SortedSet : Type 0
  pub new : SortedSet
  pub get_count : SortedSet → ℕ
  pub get_by_key : SortedSet → Key → Option Node
  -- `GetByRank(rank, false)`
  pub get_by_rank : SortedSet → ℕ → Option Node
  pub find_rank : SortedSet → Key → ℕ
  pub add_or_update : SortedSet → Key → ℕ → ℕ → SortedSet
  pub remove : SortedSet → Key → SortedSet
  pub nodes : SortedSet → List Node
  pub nodes-new : nodes new ≡ []
  pub get_count-nodes : (s : SortedSet) → get_count s ≡ length (nodes s)
  pub get_by_key-nodes : (s : SortedSet) (k : Key) → get_by_key s k ≡ node_at_key k (nodes s)
  pub get_by_rank-nodes : (s : SortedSet) (r : ℕ) → get_by_rank s (suc r) ≡ get_elem? (nodes s) r
  pub find_rank-nodes : (s : SortedSet) (k : Key) → find_rank s k ≡ rank_of_key k (nodes s)
  pub nodes-add_or_update :
      (s : SortedSet) (k : Key) (score value : ℕ)
      → nodes (add_or_update s k score value)
        ≡ insert_node (record { key = k; score = score; value = value }) (erase_key k (nodes s))
  pub nodes-remove : (s : SortedSet) (k : Key) → nodes (remove s k) ≡ erase_key k (nodes s)

-- The documented behaviour can be met: the ordered lists themselves.
abbrev pub ordered_lists : SortedSetLibrary
ordered_lists = record {
  SortedSet = List Node;
  new = [];
  get_count = length;
  get_by_key = λ s k. node_at_key k s;
  get_by_rank = λ s r. elim r [ zero ↦ none | suc i ↦ get_elem? s i ];
  find_rank = λ s k. rank_of_key k s;
  add_or_update = λ s k score value.
      insert_node (record { key = k; score = score; value = value }) (erase_key k s);
  remove = λ s k. erase_key k s;
  nodes = λ s. s;
  nodes-new = refl;
  get_count-nodes = λ s. refl;
  get_by_key-nodes = λ s k. refl;
  get_by_rank-nodes = λ s r. refl;
  find_rank-nodes = λ s k. refl;
  nodes-add_or_update = λ s k score value. refl;
  nodes-remove = λ s k. refl;
}
