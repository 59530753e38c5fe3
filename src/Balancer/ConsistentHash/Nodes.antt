-- ===== src/Balancer/ConsistentHash/Nodes.antt =====
-- What `Build` puts on the ring: the sort, the keys of a backend's virtual nodes and their owners.
use gobalancer.Common.{
  ℕ, zero, suc, ◌≤◌, ◌≡◌, refl, sym, ap, ◌∙◌, inl, inr, true, ◌||◌, some, List, [], ◌∷◌, ◌++◌,
  append-nil, append_assoc, arith, leb, ◌==◌, if◌then◌else◌, leb→le, Bool-cases, All-append, All,
  Str, contains, contains-append, decimal,
}
use gobalancer.Backend.{Heap, Ref}
use gobalancer.Balancer.IpHash.{fnv32a-lt}
use gobalancer.Balancer.ConsistentHash.{
  Table, put, node_key, add_nodes, add_backends, insert_sorted, sort,
}
use gobalancer.Balancer.ConsistentHash.Search.{Sorted, InRange}

contains-insert_sorted :
    (k x : ℕ) (ys : List ℕ) → contains k (insert_sorted x ys) ≡ (x == k || contains k ys)
unfolding insert_sorted contains
contains-insert_sorted k x [] = refl
contains-insert_sorted k x (y ∷ ys) = ground (arith, contains-insert_sorted k x ys)

-- The sort keeps the keys.
pub contains-sort : (k : ℕ) (xs : List ℕ) → contains k (sort xs) ≡ contains k xs
unfolding sort contains
contains-sort k [] = refl
contains-sort k (x ∷ xs) = rw (contains-insert_sorted k x (sort xs), contains-sort k xs)

All-insert_sorted {ℓ} :
    (P : ℕ → Type ℓ) (x : ℕ) (ys : List ℕ) → P x → All P ys → All P (insert_sorted x ys)
unfolding insert_sorted
All-insert_sorted P x [] p a = (p, tt)
All-insert_sorted P x (y ∷ ys) p a = elim (Bool-cases (leb x y)) [
  | inl e ↦ rw e (p, a)
  | inr e ↦ rw e (a.0, All-insert_sorted P x ys p a.1)
]

pub All-sort {ℓ} : (P : ℕ → Type ℓ) (xs : List ℕ) → All P xs → All P (sort xs)
unfolding sort
All-sort P [] a = tt
All-sort P (x ∷ xs) a = All-insert_sorted P x (sort xs) a.0 (All-sort P xs a.1)

All-le_trans : (x y : ℕ) (ys : List ℕ) → x ≤ y → All (λ q. y ≤ q) ys → All (λ q. x ≤ q) ys
All-le_trans x y [] h a = tt
All-le_trans x y (q ∷ ys) h a = (omega arith, All-le_trans x y ys h a.1)

insert_sorted-Sorted : (x : ℕ) (ys : List ℕ) → Sorted ys → Sorted (insert_sorted x ys)
unfolding insert_sorted
insert_sorted-Sorted x [] s = (tt, tt)
insert_sorted-Sorted x (y ∷ ys) s = elim (Bool-cases (leb x y)) [
  | inl e ↦ rw e ((leb→le x y e, All-le_trans x y ys (leb→le x y e) s.0), s)
  | inr e ↦ rw e (All-insert_sorted _ x ys (ground arith) s.0, insert_sorted-Sorted x ys s.1)
]

pub sort-Sorted : (xs : List ℕ) → Sorted (sort xs)
unfolding sort
sort-Sorted [] = tt
sort-Sorted (x ∷ xs) = insert_sorted-Sorted x (sort xs) (sort-Sorted xs)

-- The keys of the `m` virtual nodes from `i` on.
abbrev pub nodes : Str → ℕ → ℕ → List ℕ
nodes id zero i = []
nodes id (suc m) i = node_key id i ∷ nodes id m (suc i)

pub add_nodes-keys :
    (id : Str) (b : Ref) (m i : ℕ) (t : Table)
    → (add_nodes id b m i t).keys ≡ t.keys ++ nodes id m i
unfolding add_nodes put
add_nodes-keys id b zero i t = sym (append-nil t.keys)
add_nodes-keys id b (suc m) i t =
    add_nodes-keys id b m (suc i) (put t (node_key id i) b)
    ∙ append_assoc t.keys (node_key id i ∷ []) (nodes id m (suc i))

-- The nodes of a backend belong to it, also where another backend had the same key before.
pub add_nodes-owner :
    (id : Str) (b : Ref) (m i : ℕ) (t : Table) (k : ℕ)
    → (add_nodes id b m i t).owner k ≡ (if contains k (nodes id m i) then some b else t.owner k)
unfolding add_nodes put contains
add_nodes-owner id b zero i t k = refl
add_nodes-owner id b (suc m) i t k =
    ground (arith, add_nodes-owner id b m (suc i) (put t (node_key id i) b) k)

pub add_backends-append :
    (h : Heap) (n : ℕ) (bs : List Ref) (b : Ref) (t : Table)
    → add_backends h n (bs ++ b ∷ []) t ≡ add_nodes (h.cell b).id b n 0 (add_backends h n bs t)
unfolding add_backends
add_backends-append h n [] b t = refl
add_backends-append h n (c ∷ bs) b t =
    add_backends-append h n bs b (add_nodes (h.cell c).id c n 0 t)

nodes-InRange : (id : Str) (m i : ℕ) → InRange (nodes id m i)
unfolding node_key
nodes-InRange id zero i = tt
nodes-InRange id (suc m) i = (fnv32a-lt (id ++ b'#' ∷ decimal i), nodes-InRange id m (suc i))

pub add_backends-InRange :
    (h : Heap) (n : ℕ) (bs : List Ref) (t : Table)
    → InRange t.keys
    → InRange (add_backends h n bs t).keys
unfolding add_backends
add_backends-InRange h n [] t r = r
add_backends-InRange h n (b ∷ bs) t r =
    add_backends-InRange h n bs (add_nodes (h.cell b).id b n 0 t) (
      rw (add_nodes-keys (h.cell b).id b n 0 t)
        (All-append _ t.keys (nodes (h.cell b).id n 0) r (nodes-InRange (h.cell b).id n 0)))

-- Every key has an owner, and the owner has the property.
abbrev pub Owned : (Ref → Type 0) → Table → Type 0
Owned P t = (k : ℕ) → contains k t.keys ≡ true → (b : Ref) × P b × (t.owner k ≡ some b)

add_nodes-Owned :
    (P : Ref → Type 0) (id : Str) (b : Ref) (m i : ℕ) (t : Table)
    → P b
    → Owned P t
    → Owned P (add_nodes id b m i t)
add_nodes-Owned P id b m i t p o k h = elim (Bool-cases (contains k (nodes id m i))) [
  | inl y ↦ (b, p, add_nodes-owner id b m i t k ∙ rw y)
  | inr n ↦
      let (c, q, e) = o k (
        ground (
          arith,
          n,
          h,
          ap (contains k) (add_nodes-keys id b m i t),
          contains-append k t.keys (nodes id m i),
        )) in
      (c, q, add_nodes-owner id b m i t k ∙ rw n e)
]

pub add_backends-Owned :
    (P : Ref → Type 0) (h : Heap) (n : ℕ) (bs : List Ref) (t : Table)
    → All P bs
    → Owned P t
    → Owned P (add_backends h n bs t)
unfolding add_backends
add_backends-Owned P h n [] t a o = o
add_backends-Owned P h n (b ∷ bs) t (p, a) o =
    add_backends-Owned P h n bs (add_nodes (h.cell b).id b n 0 t) a
      (add_nodes-Owned P (h.cell b).id b n 0 t p o)
