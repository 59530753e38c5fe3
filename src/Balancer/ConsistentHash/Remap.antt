-- ===== src/Balancer/ConsistentHash/Remap.antt =====
-- Where consistenthash.go sends a request, and what changes when a backend is added.
use gobalancer.Common.{
  ℕ, suc, ◌<◌, ◌≡◌, refl, sym, ap, subst, ◌∙◌, ◌⊎◌, inl, inr, true, false, ◌||◌, some, List, [],
  ◌∷◌, ◌++◌, Memᴰ, arith, if◌then◌else◌, Bool-cases, All-intro, pos, contains, contains-append,
}
use gobalancer.Backend.{Heap, Ref}
use gobalancer.Http.{Request}
use gobalancer.Balancer.{Choice, chosen, is_nil}
use gobalancer.Balancer.IpHash.{two_32, fnv32a, fnv32a-lt, client_ip}
use gobalancer.Balancer.ConsistentHash.{
  ConsistentHash, Table, node_key, add_backends, empty_table, sort, build, locate, route, of_owner,
  next,
}
use gobalancer.Balancer.ConsistentHash.Search.{InRange, Nearest, locate_of_member, Nearest-unique}
use gobalancer.Balancer.ConsistentHash.Nodes.{
  contains-sort, All-sort, sort-Sorted, nodes, add_nodes-keys, add_nodes-owner, add_backends-append,
  add_backends-InRange, add_backends-Owned,
}

-- The table of a list of backends with `n` virtual nodes each, and the choice for a hash.
abbrev table : Heap → ℕ → List Ref → Table
table h n bs = add_backends h n bs empty_table

abbrev serve : Table → ℕ → Choice
serve t x = route t.owner (locate (sort t.keys) x)

table-InRange : (h : Heap) (n : ℕ) (bs : List Ref) → InRange (sort (table h n bs).keys)
table-InRange h n bs = All-sort _ _ (add_backends-InRange h n bs empty_table tt)

keys-snoc :
    (h : Heap) (n : ℕ) (bs : List Ref) (b : Ref) (k : ℕ)
    → contains k (table h n (bs ++ b ∷ [])).keys
      ≡ (contains k (table h n bs).keys || contains k (nodes (h.cell b).id n 0))
keys-snoc h n bs b k =
    ap (λ t. contains k t.keys) (add_backends-append h n bs b empty_table)
    ∙ ap (contains k) (add_nodes-keys (h.cell b).id b n 0 (table h n bs))
    ∙ contains-append k (table h n bs).keys (nodes (h.cell b).id n 0)

owner-snoc :
    (h : Heap) (n : ℕ) (bs : List Ref) (b : Ref) (k : ℕ)
    → (table h n (bs ++ b ∷ [])).owner k
      ≡ (if contains k (nodes (h.cell b).id n 0) then some b else (table h n bs).owner k)
owner-snoc h n bs b k =
    ap (λ t. t.owner k) (add_backends-append h n bs b empty_table)
    ∙ add_nodes-owner (h.cell b).id b n 0 (table h n bs) k

-- The table of a list that is not empty has a key.
some_key :
    (h : Heap) (m : ℕ) (bs : List Ref) (b : Ref)
    → contains (node_key (h.cell b).id 0) (table h (suc m) (bs ++ b ∷ [])).keys ≡ true
unfolding contains
some_key h m bs b = ground (arith, keys-snoc h (suc m) bs b (node_key (h.cell b).id 0))

serve_lem :
    (t : Table) (m x : ℕ)
    → contains m t.keys ≡ true
    → InRange (sort t.keys)
    → x < two_32
    → (k : ℕ) × (serve t x ≡ of_owner (t.owner k))
      × (contains k t.keys ≡ true)
      × Nearest (sort t.keys) x k
serve_lem t m x c r h =
    let (k, e, near) =
      locate_of_member (sort t.keys) m x (contains-sort m t.keys ∙ c) (sort-Sorted t.keys) r h in
    (k, ap (route t.owner) e, sym (contains-sort k t.keys) ∙ near.member, near)

serve-snoc :
    (h : Heap) (m : ℕ) (bs : List Ref) (b : Ref) (x : ℕ)
    → x < two_32
    → (serve (table h (suc m) (bs ++ b ∷ [])) x ≡ chosen b)
      ⊎ ((serve (table h (suc m) (bs ++ b ∷ [])) x ≡ serve (table h (suc m) bs) x)
          × ((j : ℕ) × (contains j (table h (suc m) bs).keys ≡ true)))
serve-snoc h m bs b x below =
    let old : Table = table h (suc m) bs in
    let new : Table = table h (suc m) (bs ++ b ∷ []) in
    let (k, e, within, near) =
      serve_lem new (node_key (h.cell b).id 0) x (some_key h m bs b)
        (table-InRange h (suc m) (bs ++ b ∷ [])) below in
    elim (Bool-cases (contains k (nodes (h.cell b).id (suc m) 0))) [
      | inl y ↦
          let mine : new.owner k ≡ some b = owner-snoc h (suc m) bs b k ∙ rw y in
          inl (e ∙ ap of_owner mine)
      | inr n ↦
          let before : contains k old.keys ≡ true =
            ground (arith, n, within, keys-snoc h (suc m) bs b k) in
          let (q, e', within', near') =
            serve_lem old k x before (table-InRange h (suc m) bs) below in
          let still : contains q new.keys ≡ true =
            ground (arith, within', keys-snoc h (suc m) bs b q) in
          let same : k ≡ q =
            Nearest-unique (sort new.keys) (sort old.keys) x k q
              (table-InRange h (suc m) (bs ++ b ∷ [])) below near near'
              (contains-sort q new.keys ∙ still) (contains-sort k old.keys ∙ before) in
          let kept : new.owner k ≡ old.owner k = owner-snoc h (suc m) bs b k ∙ rw n in
          inr (e ∙ ap of_owner (kept ∙ ap old.owner same) ∙ sym e', (k, before))
    ]

is_nil-contains : (ring : List ℕ) (m : ℕ) → contains m ring ≡ true → is_nil ring ≡ false
unfolding contains
is_nil-contains [] m c = cc
is_nil-contains (k ∷ ring) m c = refl

-- Once there is a ring, a call reads it and nothing else.
next_built :
    (h : Heap) (r : Request) (ch : ConsistentHash) (ps : List Ref) (m : ℕ)
    → contains m ch.ring ≡ true
    → next h r ch ps ≡ (route ch.node_map (locate ch.ring (fnv32a (client_ip r))), ch)
unfolding next
next_built h r ch ps m c = rw (is_nil-contains ch.ring m c) (rw (is_nil-contains ch.ring m c))

-- A ring with keys is never built again: the backends that are passed and the state of the heap,
-- the health of the backends included, play no part in the choice.
pub next_ignores_health :
    (h h' : Heap) (r : Request) (ch : ConsistentHash) (ps qs : List Ref) (m : ℕ)
    → contains m ch.ring ≡ true
    → next h r ch ps ≡ next h' r ch qs
next_ignores_health h h' r ch ps qs m c = next_built h r ch ps m c ∙ sym (next_built h' r ch qs m c)

next-build :
    (h : Heap) (r : Request) (ch : ConsistentHash) (bs ps : List Ref) (m j : ℕ)
    → ch.virtual_nodes ≡ pos m
    → contains j (table h m bs).keys ≡ true
    → (next h r (build h bs ch) ps).0 ≡ serve (table h m bs) (fnv32a (client_ip r))
unfolding build
next-build h r ch bs ps m j v c =
    let full : contains j (build h bs ch).ring ≡ true =
      rw v (contains-sort j (table h m bs).keys ∙ c) in
    ap (λ t. t.0) (next_built h r (build h bs ch) ps j full) ∙ rw v

-- With a positive number of virtual nodes, adding a backend moves a client to that backend or not
-- at all: with the ring built for the longer list, each request goes to the new backend or where
-- it went before.
pub remap_minimal :
    (h : Heap) (m : ℕ) (ch : ConsistentHash) (bs : List Ref) (b : Ref) (r : Request)
    (ps qs : List Ref)
    → ch.virtual_nodes ≡ pos (suc m)
    → ((next h r (build h (bs ++ b ∷ []) ch) ps).0 ≡ chosen b)
      ⊎ ((next h r (build h (bs ++ b ∷ []) ch) ps).0 ≡ (next h r (build h bs ch) qs).0)
remap_minimal h m ch bs b r ps qs v =
    let x : ℕ = fnv32a (client_ip r) in
    let new = next-build h r ch (bs ++ b ∷ []) ps (suc m) _ v (some_key h m bs b) in
    elim (serve-snoc h m bs b x (fnv32a-lt (client_ip r))) [
      | inl e ↦ inl (new ∙ e)
      | inr (e, (j, c)) ↦ inr (new ∙ e ∙ sym (next-build h r ch bs qs (suc m) j v c))
    ]

nothing_in : (q : ℕ) → contains q [] ≡ true → ⊥
unfolding contains
nothing_in q e = cc

built_ring :
    (h : Heap) (m : ℕ) (bs : List Ref) (ch : ConsistentHash)
    → ch.virtual_nodes ≡ pos m
    → (build h bs ch).ring ≡ sort (table h m bs).keys
unfolding build
built_ring h m bs ch v = rw v

built_owner :
    (h : Heap) (m : ℕ) (bs : List Ref) (ch : ConsistentHash)
    → ch.virtual_nodes ≡ pos m
    → (build h bs ch).node_map ≡ (table h m bs).owner
unfolding build
built_owner h m bs ch v = rw v

-- With a positive number of virtual nodes, a ring built for a list that is not empty sends every
-- request to a member of the list: the owner of the key that is nearest clockwise from the hash of
-- the client's address.
pub next-Nearest :
    (h : Heap) (m : ℕ) (ch : ConsistentHash) (bs : List Ref) (b : Ref) (r : Request) (ps : List Ref)
    → ch.virtual_nodes ≡ pos (suc m)
    → let built = build h (bs ++ b ∷ []) ch in
      (c : Ref) × (k : ℕ) × Memᴰ c (bs ++ b ∷ [])
      × Nearest built.ring (fnv32a (client_ip r)) k
      × (built.node_map k ≡ some c)
      × ((next h r built ps).0 ≡ chosen c)
next-Nearest h m ch bs b r ps v =
    let all = bs ++ b ∷ [] in
    let t : Table = table h (suc m) all in
    let x : ℕ = fnv32a (client_ip r) in
    let first : ℕ = node_key (h.cell b).id 0 in
    let (k, e, within, near) =
      serve_lem t first x (some_key h m bs b) (table-InRange h (suc m) all)
        (fnv32a-lt (client_ip r)) in
    let (c, member, mine) =
      add_backends-Owned (λ q. Memᴰ q all) h (suc m) all empty_table (All-intro _ all (λ q i. i))
        (λ q i. absurd (nothing_in q i)) k within in
    (
      c,
      k,
      member,
      subst (λ ring. Nearest ring x k) (sym (built_ring h (suc m) all ch v)) near,
      ap (λ f. f k) (built_owner h (suc m) all ch v) ∙ mine,
      next-build h r ch all ps (suc m) first v (some_key h m bs b) ∙ e ∙ ap of_owner mine,
    )
