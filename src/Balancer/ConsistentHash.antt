-- ===== src/Balancer/ConsistentHash.antt =====
-- internal/balancer/consistenthash.go, with `sort.Slice` on numbers and `sort.Search`.
pub mod Search
pub mod Nodes
pub mod Remap
use gobalancer.Common.{
  ℕ, zero, suc, ◌+◌, ◌/◌, Bool, true, Option, none, some, List, [], ◌∷◌, ◌++◌, ltb, leb, ◌==◌,
  if◌then◌else◌, length, get_elem?, ℤ, pos, leb_ℤ, rounds, Str, decimal,
}
use gobalancer.Backend.{Heap, Ref}
use gobalancer.Http.{Request}
use gobalancer.Balancer.{Choice, chosen, nothing, no_backends, panic, is_nil}
use gobalancer.Balancer.IpHash.{fnv32a, client_ip}

abbrev pub default_virtual_nodes : ℕ
default_virtual_nodes = 150

-- `nodeMap` is a function; `none` is a nil backend.
pub record ConsistentHash : Type 0 where
  pub ring : List ℕ  -- uint32
  pub node_map : ℕ → Option Ref
  pub virtual_nodes : ℤ  -- int

unfoldable pub new_consistent_hash : ℤ → ConsistentHash
new_consistent_hash n = record {
  ring = [];
  node_map = λ _. none;
  virtual_nodes = if leb_ℤ n (pos 0) then pos default_virtual_nodes else n;
}

-- `fnv32a(fmt.Sprintf("%s#%d", id, i))`
unfoldable pub node_key : Str → ℕ → ℕ
unfolding fnv32a decimal
node_key id i = fnv32a (id ++ b'#' ∷ decimal i)

-- The slice and the map that `Build` fills.
pub record Table : Type 0 where
  pub keys : List ℕ
  pub owner : ℕ → Option Ref

unfoldable pub put : Table → ℕ → Ref → Table
put t key b = record {
  keys = t.keys ++ key ∷ [];
  owner = λ k. if k == key then some b else t.owner k;
}

-- The inner loop, from `i` on with `m` rounds left.
unfoldable pub add_nodes : Str → Ref → ℕ → ℕ → Table → Table
unfolding put node_key
add_nodes id b zero i t = t
add_nodes id b (suc m) i t = add_nodes id b m (suc i) (put t (node_key id i) b)

unfoldable pub add_backends : Heap → ℕ → List Ref → Table → Table
unfolding add_nodes
add_backends h n [] t = t
add_backends h n (b ∷ bs) t = add_backends h n bs (add_nodes (h.cell b).id b n 0 t)

abbrev pub empty_table : Table
empty_table = record { keys = []; owner = λ _. none }

-- Ascending order; equal numbers cannot be told apart, so any sort gives this list.
unfoldable pub insert_sorted : ℕ → List ℕ → List ℕ
insert_sorted x [] = x ∷ []
insert_sorted x (y ∷ ys) = if leb x y then x ∷ y ∷ ys else y ∷ insert_sorted x ys

unfoldable pub sort : List ℕ → List ℕ
unfolding insert_sorted
sort [] = []
sort (x ∷ xs) = insert_sorted x (sort xs)

unfoldable pub build : Heap → List Ref → ConsistentHash → ConsistentHash
unfolding add_backends sort
build h backends ch =
    let t = add_backends h (rounds ch.virtual_nodes) backends empty_table in
    record ch { ring = sort t.keys; node_map = t.owner }

-- `ring[i] >= hash`; `i` is always in range.
abbrev pub at_least : List ℕ → ℕ → ℕ → Bool
at_least ring hash i = elim (get_elem? ring i) [ none ↦ true | some k ↦ leb hash k ]

-- The loop of `sort.Search`, over its bounds `i` and `j`. The fuel bounds their distance.
unfoldable pub search_between : ℕ → (ℕ → Bool) → ℕ → ℕ → ℕ
search_between zero f i j = i
search_between (suc fuel) f i j =
    let m = (i + j) / 2 in
    let left = search_between fuel f i m in
    let right = search_between fuel f (suc m) j in
    if ltb i j then (if f m then left else right) else i

unfoldable pub sort_search : ℕ → (ℕ → Bool) → ℕ
unfolding search_between
sort_search n f = search_between n f 0 n

-- The ring position that serves a hash.
unfoldable pub locate : List ℕ → ℕ → Option ℕ
unfolding sort_search
locate ring hash =
    let idx = sort_search (length ring) (at_least ring hash) in
    get_elem? ring (if idx == length ring then 0 else idx)

abbrev pub of_owner : Option Ref → Choice
of_owner none = nothing
of_owner (some b) = chosen b

abbrev pub route : (ℕ → Option Ref) → Option ℕ → Choice
route node_map none = panic
route node_map (some key) = of_owner (node_map key)

unfoldable pub next : Heap → Request → ConsistentHash → List Ref → Choice × ConsistentHash
unfolding build locate fnv32a client_ip
next h r ch backends =
    let ch' = if is_nil ch.ring then build h backends ch else ch in
    if is_nil ch'.ring
    then (no_backends, ch')
    else (route ch'.node_map (locate ch'.ring (fnv32a (client_ip r))), ch')
