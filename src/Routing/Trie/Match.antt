-- ===== src/Routing/Trie/Match.antt =====
-- internal/routing/trie.go: `Match` as a search for the longest prefix.
use gobalancer.Common.{
  ℕ, zero, suc, ◌≤◌, ◌<◌, ◌≡◌, refl, sym, ap, subst, ◌∙◌, ◌≢◌, ◌⊎◌, inl, inr, true, false, not,
  Option, none, some, List, [], ◌∷◌, arith, if◌then◌else◌, Bool-cases, Option-cases, length, take,
  Str, is_empty,
}
use gobalancer.Http.{Request}
use gobalancer.Routing.Trie.{
  TrieNode, node, Children, PathTrie, segments, find_child, pool_of, unless_empty, walk, find,
}
use gobalancer.Routing.Trie.Prefix.{pool_at, pool_at-under}

-- The rest of the walk from a child on.
abbrev walk_on : List Str → Str → Option TrieNode → Str
walk_on segs last none = last
walk_on segs last (some n) = walk segs n (unless_empty (pool_of n) last)

walk-walk_on :
    (s : Str) (ts : List Str) (cs : Children) (p last : Str) {o : Option TrieNode}
    → find_child s cs ≡ o
    → walk (s ∷ ts) (node cs p) last ≡ walk_on ts last o
unfolding walk
walk-walk_on s ts cs p last e = ap (walk_on ts last) e

-- Where the loop of `Match` ends, with the pool that it met last.
abbrev Walked : List Str → TrieNode → Str → Str → Type 0
Walked segs n last r =
    ((r ≡ last) × ((j : ℕ) → 0 < j → j ≤ length segs → pool_at (take j segs) n ≡ []))
    ⊎ ((k : ℕ) × (0 < k)
        × (k ≤ length segs)
        × (pool_at (take k segs) n ≡ r)
        × (r ≢ [])
        × ((j : ℕ) → k < j → j ≤ length segs → pool_at (take j segs) n ≡ []))

is_empty-true : (s : Str) → is_empty s ≡ true → s ≡ []
is_empty-true [] e = refl
is_empty-true (c ∷ s) e = absurd (cc (e))

is_empty-false : (s : Str) → is_empty s ≡ false → s ≢ []
is_empty-false [] e = absurd (cc (e))
is_empty-false (c ∷ s) e = λ n. cc (n)

pool_at-nil : (n : TrieNode) → pool_at [] n ≡ pool_of n
unfolding pool_at
pool_at-nil n = refl

module _ (seg : Str) (segs : List Str) (cs : Children) (p : Str) (n : TrieNode)
    (found : find_child seg cs ≡ some n) where
  -- Nothing deeper than `k` below the child is nothing deeper than `k + 1` here.
  none_deeper :
      (k : ℕ)
      → ((j : ℕ) → k < j → j ≤ length segs → pool_at (take j segs) n ≡ [])
      → (j : ℕ) → suc k < j
      → j ≤ suc (length segs)
      → pool_at (take j (seg ∷ segs)) (node cs p) ≡ []
  none_deeper k f zero h l = absurd (omega arith)
  none_deeper k f (suc j) h l =
      pool_at-under seg (take j segs) cs p found ∙ f j (omega arith) (omega arith)

  none_here :
      pool_of n ≡ []
      → ((j : ℕ) → 0 < j → j ≤ length segs → pool_at (take j segs) n ≡ [])
      → (j : ℕ) → 0 < j
      → j ≤ suc (length segs)
      → pool_at (take j (seg ∷ segs)) (node cs p) ≡ []
  none_here e f zero h l = absurd (omega arith)
  none_here e f (suc zero) h l = pool_at-under seg [] cs p found ∙ pool_at-nil n ∙ e
  none_here e f (suc (suc j)) h l = none_deeper 0 f (suc (suc j)) (omega arith) l

  child-Walked :
      (last r : Str)
      → Walked segs n (unless_empty (pool_of n) last) r
      → Walked (seg ∷ segs) (node cs p) last r
  child-Walked last r (inr (k, h, l, e, ne, f)) = inr (
    suc k,
    omega arith,
    omega arith,
    pool_at-under seg (take k segs) cs p found ∙ e,
    ne,
    none_deeper k f,
  )
  child-Walked last r (inl (e, f)) = elim (Bool-cases (is_empty (pool_of n))) [
    | inl y ↦ inl (e ∙ rw y refl, none_here (is_empty-true (pool_of n) y) f)
    | inr full ↦
        let here : r ≡ pool_of n = e ∙ rw full refl in
        inr (
          1,
          omega arith,
          omega arith,
          pool_at-under seg [] cs p found ∙ pool_at-nil n ∙ sym here,
          (λ z. is_empty-false (pool_of n) full (sym here ∙ z)),
          none_deeper 0 f,
        )
  ]

no_child_empty :
    (seg : Str) (segs : List Str) (cs : Children) (p : Str)
    → find_child seg cs ≡ none
    → (j : ℕ) → 0 < j
    → pool_at (take j (seg ∷ segs)) (node cs p) ≡ []
no_child_empty seg segs cs p e zero h = absurd (omega arith)
no_child_empty seg segs cs p e (suc j) h = pool_at-under seg (take j segs) cs p e

walk-Walked : (segs : List Str) (n : TrieNode) (last : Str) → Walked segs n last (walk segs n last)
walk-Walked [] n last = unfold walk in inl (refl, λ j h l. absurd (omega arith))
walk-Walked (seg ∷ segs) (node cs p) last = elim (Option-cases (find_child seg cs)) [
  | inl e ↦ inl (walk-walk_on seg segs cs p last e, λ j h l. no_child_empty seg segs cs p e j h)
  | inr (n, e) ↦
      subst (Walked (seg ∷ segs) (node cs p) last) (sym (walk-walk_on seg segs cs p last e))
        (child-Walked seg segs cs p n e last _ (walk-Walked segs n (unless_empty (pool_of n) last)))
]

-- The longest prefix of a list of segments that has a pool, with its length.
pub record Longest (segs : List Str) (n : TrieNode) (pool : Str) : Type 0 where
  pub size : ℕ
  pub prefix : size ≤ length segs
  pub named : pool_at (take size segs) n ≡ pool
  pub not_empty : pool ≢ []
  pub no_longer : (j : ℕ) → size < j → j ≤ length segs → pool_at (take j segs) n ≡ []

any_size :
    (segs : List Str) (n : TrieNode)
    → pool_of n ≡ []
    → ((j : ℕ) → 0 < j → j ≤ length segs → pool_at (take j segs) n ≡ [])
    → (j : ℕ) → j ≤ length segs
    → pool_at (take j segs) n ≡ []
any_size segs n e f zero l = pool_at-nil n ∙ e
any_size segs n e f (suc j) l = f (suc j) (omega arith) l

-- What `Match` answers, of the pool that the loop met last.
abbrev answer : Str → TrieNode → Option Str
answer last root =
    if not (is_empty last)
    then some last
    else if not (is_empty (pool_of root))
    then some (pool_of root)
    else none

abbrev Answered : List Str → TrieNode → Option Str → Type 0
Answered segs root o =
    ((pool : Str) × (o ≡ some pool) × Longest segs root pool)
    ⊎ ((o ≡ none) × ((j : ℕ) → j ≤ length segs → pool_at (take j segs) root ≡ []))

root_answer :
    (segs : List Str) (root : TrieNode)
    → ((j : ℕ) → 0 < j → j ≤ length segs → pool_at (take j segs) root ≡ [])
    → Answered segs root (answer [] root)
root_answer segs root f = elim (Bool-cases (is_empty (pool_of root))) [
  | inl y ↦ inr (rw y refl, any_size segs root (is_empty-true (pool_of root) y) f)
  | inr n ↦ inl (
    pool_of root,
    rw n refl,
    record {
      size = 0;
      prefix = omega arith;
      named = pool_at-nil root;
      not_empty = is_empty-false (pool_of root) n;
      no_longer = f;
    },
  )
]

walk_answer :
    (segs : List Str) (root : TrieNode) (w : Str)
    → Walked segs root [] w
    → Answered segs root (answer w root)
walk_answer segs root [] v = elim v [
  | inl (e, f) ↦ root_answer segs root f
  | inr (k, h, l, e, ne, f) ↦ absurd (ne refl)
]
walk_answer segs root (c ∷ w) v = elim v [
  | inl (e, f) ↦ absurd (cc (e))
  | inr (k, h, l, e, ne, f) ↦
      inl (c ∷ w, refl, record { size = k; prefix = l; named = e; not_empty = ne; no_longer = f })
]

-- `Match` finds the pool of the longest prefix of the request's path that has one, and nothing
-- exactly where no prefix has a pool.
pub find-Longest :
    (r : Request) (t : PathTrie)
    → ((pool : Str) × (find r t ≡ some pool) × Longest (segments r.url_path) t.root pool)
      ⊎ ((find r t ≡ none)
          × ((j : ℕ)
              → j ≤ length (segments r.url_path)
              → pool_at (take j (segments r.url_path)) t.root ≡ []))
unfolding find
find-Longest r t =
    let segs : List Str = segments r.url_path in
    walk_answer segs t.root (walk segs t.root []) (walk-Walked segs t.root [])
