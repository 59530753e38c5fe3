-- ===== src/Routing/Trie.antt =====
-- internal/routing/trie.go
pub mod Prefix
pub mod Match
use gobalancer.Common.{
  ℕ, ◌/◌, not, Option, none, some, List, [], ◌∷◌, reverse, ◌==◌, if◌then◌else◌, select, Str, str_eq,
  is_empty,
}
use gobalancer.Http.{Request}

-- A node with its children by segment, and its pool, empty for none.
mutual
  pub data TrieNode : Type 0 where
    node : Children → Str → TrieNode

  pub data Children : Type 0 where
    no_child : Children
    with_child : Str → TrieNode → Children → Children

pub record PathTrie : Type 0 where
  pub root : TrieNode

abbrev pub empty_node : TrieNode
empty_node = node no_child []

unfoldable pub new_path_trie : PathTrie
new_path_trie = record { root = empty_node }

abbrev slash : ℕ
slash = b'/'

-- `strings.Trim(s, "/")`
trim_left : Str → Str
trim_left [] = []
trim_left (c ∷ s) = if c == slash then trim_left s else c ∷ s

trim : Str → Str
unfolding trim_left
trim s = reverse (trim_left (reverse (trim_left s)))

abbrev with_head : ℕ → List Str → List Str
with_head c [] = (c ∷ []) ∷ []
with_head c (w ∷ ws) = (c ∷ w) ∷ ws

-- `strings.Split(s, "/")`
split : Str → List Str
split [] = [] ∷ []
split (c ∷ s) = if c == slash then [] ∷ split s else with_head c (split s)

-- The segments that the loops do not pass over.
unfoldable pub segments : Str → List Str
unfolding trim split
segments path = select (λ s. not (is_empty s)) (split (trim path))

-- `children[seg]`, `none` for nil.
unfoldable pub find_child : Str → Children → Option TrieNode
find_child seg no_child = none
find_child seg (with_child s n cs) = if str_eq s seg then some n else find_child seg cs

-- `children[seg] = n`
unfoldable pub set_child : Str → TrieNode → Children → Children
set_child seg n no_child = with_child seg n no_child
set_child seg n (with_child s m cs) =
    if str_eq s seg then with_child seg n cs else with_child s m (set_child seg n cs)

abbrev pub or_empty_node : Option TrieNode → TrieNode
or_empty_node none = empty_node
or_empty_node (some n) = n

-- The loop of `Add` from a node on.
unfoldable pub add_segments : List Str → Str → TrieNode → TrieNode
unfolding find_child set_child
add_segments [] pool (node cs p) = node cs pool
add_segments (seg ∷ segs) pool (node cs p) =
    node (set_child seg (add_segments segs pool (or_empty_node (find_child seg cs))) cs) p

unfoldable pub add : Str → Str → PathTrie → PathTrie
unfolding add_segments segments
add prefix pool t = record { root = add_segments (segments prefix) pool t.root }

abbrev pub pool_of : TrieNode → Str
pool_of (node cs p) = p

abbrev pub unless_empty : Str → Str → Str
unless_empty pool last = if is_empty pool then last else pool

-- The loop of `Match` from a node on; `last` is the pool that was met last.
unfoldable pub walk : List Str → TrieNode → Str → Str
unfolding find_child
walk [] n last = last
walk (seg ∷ segs) (node cs p) last = elim (find_child seg cs) [
  | none ↦ last
  | some child ↦ walk segs child (unless_empty (pool_of child) last)
]

unfoldable pub find : Request → PathTrie → Option Str
unfolding walk segments
find r t =
    let last = walk (segments r.url_path) t.root [] in
    if not (is_empty last)
    then some last
    else if not (is_empty (pool_of t.root))
    then some (pool_of t.root)
    else none
