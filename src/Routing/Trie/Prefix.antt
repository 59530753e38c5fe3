-- ===== src/Routing/Trie/Prefix.antt =====
-- internal/routing/trie.go: the trie as a table from prefixes to pools, and `Add` on it.
use gobalancer.Common.{
  ◌≡◌, refl, sym, ap, ◌∙◌, inl, inr, Bool, true, false, ◌&&◌, Option, none, some, List, [], ◌∷◌,
  arith, if◌then◌else◌, Bool-cases, Str, str_eq, str_eq_iff,
}
use gobalancer.Routing.Trie.{
  TrieNode, node, Children, no_child, with_child, empty_node, find_child, set_child, or_empty_node,
  add_segments, pool_of,
}

-- The pool under a list of segments, empty for none.
unfoldable pub pool_at : List Str → TrieNode → Str
unfolding find_child
pool_at [] n = pool_of n
pool_at (seg ∷ segs) (node cs p) = elim (find_child seg cs) [
  | none ↦ []
  | some child ↦ pool_at segs child
]

unfoldable pub same_segments : List Str → List Str → Bool
unfolding str_eq
same_segments [] [] = true
same_segments [] (t ∷ ts) = false
same_segments (s ∷ ss) [] = false
same_segments (s ∷ ss) (t ∷ ts) = str_eq s t && same_segments ss ts

find_child-set_child :
    (seg s : Str) (n : TrieNode) (cs : Children)
    → find_child s (set_child seg n cs) ≡ (if str_eq seg s then some n else find_child s cs)
unfolding find_child set_child
find_child-set_child seg s n no_child = refl
find_child-set_child seg s n (with_child k m cs) =
    ground
      (arith, str_eq_iff seg s, str_eq_iff k seg, str_eq_iff k s, find_child-set_child seg s n cs)

pool_at-empty : (ss : List Str) → pool_at ss empty_node ≡ []
unfolding pool_at
pool_at-empty [] = refl
pool_at-empty (s ∷ ss) = refl

-- The pool under a list of segments from a child on.
abbrev pub under : List Str → Option TrieNode → Str
under ts none = []
under ts (some n) = pool_at ts n

pub pool_at-under :
    (s : Str) (ts : List Str) (cs : Children) (p : Str) {o : Option TrieNode}
    → find_child s cs ≡ o
    → pool_at (s ∷ ts) (node cs p) ≡ under ts o
unfolding pool_at
pool_at-under s ts cs p e = ap (under ts) e

under-or_empty : (ts : List Str) (o : Option TrieNode) → pool_at ts (or_empty_node o) ≡ under ts o
under-or_empty ts none = pool_at-empty ts
under-or_empty ts (some n) = refl

-- The node that `Add` registers a prefix from holds the pool under that prefix, and under every
-- other list of segments what it held before.
pub pool_at-add_segments :
    (ss ts : List Str) (pool : Str) (n : TrieNode)
    → pool_at ts (add_segments ss pool n) ≡ (if same_segments ss ts then pool else pool_at ts n)
unfolding add_segments same_segments
pool_at-add_segments [] [] pool (node cs p) = unfold pool_at in refl
pool_at-add_segments [] (t ∷ ts) pool (node cs p) = unfold pool_at in refl
pool_at-add_segments (s ∷ ss) [] pool (node cs p) = unfold pool_at in refl
pool_at-add_segments (s ∷ ss) (t ∷ ts) pool (node cs p) =
    let here : pool_at (t ∷ ts) (node cs p) ≡ under ts (find_child t cs) =
      pool_at-under t ts cs p refl in
    let child : TrieNode = or_empty_node (find_child s cs) in
    let found = find_child-set_child s t (add_segments ss pool child) cs in
    elim (Bool-cases (str_eq s t)) [
      | inl y ↦
          let hit : find_child t (set_child s (add_segments ss pool child) cs)
              ≡ some (add_segments ss pool child) =
            found ∙ rw y refl in
          let below : pool_at ts (add_segments ss pool child)
              ≡ (if same_segments ss ts then pool else pool_at ts child) =
            pool_at-add_segments ss ts pool child in
          let same : find_child t cs ≡ find_child s cs =
            ap (λ k. find_child k cs) (sym ((str_eq_iff s t).0 y)) in
          let kept : pool_at ts child ≡ pool_at (t ∷ ts) (node cs p) =
            under-or_empty ts (find_child s cs) ∙ sym (here ∙ ap (under ts) same) in
          pool_at-under t ts (set_child s (add_segments ss pool child) cs) p hit
          ∙ below
          ∙ rw (y, kept) refl
      | inr n ↦
          let missed : find_child t (set_child s (add_segments ss pool child) cs)
              ≡ find_child t cs =
            found ∙ rw n refl in
          let kept : pool_at (t ∷ ts) (add_segments (s ∷ ss) pool (node cs p))
              ≡ pool_at (t ∷ ts) (node cs p) =
            pool_at-under t ts (set_child s (add_segments ss pool child) cs) p missed ∙ sym here in
          rw n kept
    ]
