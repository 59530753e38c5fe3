-- ===== src/Balancer/ConsistentHash/Search.antt =====
-- `sort.Search` on a sorted ring finds the first position at or past the hash, and the position
-- that serves the hash is the nearest one clockwise.
use gobalancer.Common.{
  ℕ, zero, suc, ◌+◌, ◌-◌, ◌/◌, ◌%◌, ◌≤◌, ◌<◌, ◌≡◌, refl, inl, inr, Bool, true, some, List, [], ◌∷◌,
  arith, ltb, leb, ◌==◌, if◌then◌else◌, ==_iff, Bool-cases, length, get_elem?, All, contains,
  All-contains,
}
use gobalancer.Balancer.IpHash.{two_32}
use gobalancer.Balancer.ConsistentHash.{at_least, search_between, sort_search, locate}

abbrev pub Sorted : List ℕ → Type 0
Sorted [] = Unit {0}
Sorted (k ∷ ks) = All (λ q. k ≤ q) ks × Sorted ks

-- How many entries at the front lie below the hash.
abbrev lower_bound : List ℕ → ℕ → ℕ
lower_bound [] x = 0
lower_bound (k ∷ ks) x = if ltb k x then suc (lower_bound ks x) else 0

lower_bound-le : (ring : List ℕ) (x : ℕ) → lower_bound ring x ≤ length ring
lower_bound-le [] x = omega arith
lower_bound-le (k ∷ ks) x = ground (arith, lower_bound-le ks x)

All-at_least : (ks : List ℕ) (k x i : ℕ) → All (λ q. k ≤ q) ks → x ≤ k → at_least ks x i ≡ true
All-at_least [] k x i a h = refl
All-at_least (q ∷ ks) k x zero a h = ground arith
All-at_least (q ∷ ks) k x (suc i) a h = All-at_least ks k x i a.1 h

at_least-lower_bound :
    (ring : List ℕ) (x i : ℕ) → Sorted ring → at_least ring x i ≡ leb (lower_bound ring x) i
at_least-lower_bound [] x i s = ground arith
at_least-lower_bound (k ∷ ks) x zero s = ground arith
at_least-lower_bound (k ∷ ks) x (suc i) s =
    ground (arith, at_least-lower_bound ks x i s.1, λ (h : x ≤ k). All-at_least ks k x i s.0 h)

-- With enough fuel the loop finds the border of a test that is false below it and true from it on.
search_between-border :
    (fuel : ℕ) (f : ℕ → Bool) (i j b : ℕ)
    → ((m : ℕ) → f m ≡ leb b m)
    → i ≤ b
    → b ≤ j
    → j ≤ i + fuel
    → search_between fuel f i j ≡ b
unfolding search_between
search_between-border zero f i j b border h k l = omega arith
search_between-border (suc fuel) f i j b border h k l = ground (
  arith,
  border ((i + j) / 2),
  search_between-border fuel f i ((i + j) / 2) b border,
  search_between-border fuel f (suc ((i + j) / 2)) j b border,
)

sort_search-lower_bound :
    (ring : List ℕ) (x : ℕ)
    → Sorted ring
    → sort_search (length ring) (at_least ring x) ≡ lower_bound ring x
unfolding sort_search
sort_search-lower_bound ring x s =
    search_between-border (length ring) (at_least ring x) 0 (length ring) (lower_bound ring x)
      (λ m. at_least-lower_bound ring x m s) (omega arith) (lower_bound-le ring x) (omega arith)

-- The way from a hash to a key, clockwise on the ring of 2^32 positions.
abbrev pub clockwise : ℕ → ℕ → ℕ
clockwise x k = (k + two_32 - x) % two_32

abbrev pub InRange : List ℕ → Type 0
InRange = All (λ k. k < two_32)

-- A key of the ring that no other precedes on the way clockwise from the hash.
pub record Nearest (ring : List ℕ) (x k : ℕ) : Type 0 where
  pub member : contains k ring ≡ true
  pub nearest : All (λ q. clockwise x k ≤ clockwise x q) ring

contains_head : (k : ℕ) (ks : List ℕ) → contains k (k ∷ ks) ≡ true
unfolding contains
contains_head k ks = ground arith

contains_tail : (k q : ℕ) (ks : List ℕ) → contains k ks ≡ true → contains k (q ∷ ks) ≡ true
unfolding contains
contains_tail k q ks h = ground arith

further : (x k q : ℕ) → x ≤ k → k ≤ q → q < two_32 → clockwise x k ≤ clockwise x q
further x k q h l r = omega arith

round_further :
    (x k q : ℕ) → x ≤ k → k < two_32 → q < x → x < two_32 → clockwise x k ≤ clockwise x q
round_further x k q h l r s = omega arith

All-further :
    (x k : ℕ) (ks : List ℕ)
    → x ≤ k
    → InRange ks
    → All (λ q. k ≤ q) ks
    → All (λ q. clockwise x k ≤ clockwise x q) ks
All-further x k [] h r a = tt
All-further x k (q ∷ ks) h r a = (further x k q h a.0 r.0, All-further x k ks h r.1 a.1)

All-behind :
    (x k : ℕ) (ks : List ℕ)
    → x < two_32
    → k < x
    → All (λ q. k ≤ q) ks
    → All (λ q. q < x) ks
    → All (λ q. clockwise x k ≤ clockwise x q) ks
All-behind x k [] h l a b = tt
All-behind x k (q ∷ ks) h l a b = (omega arith, All-behind x k ks h l a.1 b.1)

-- A hash that lies at or below some key is served at the lower bound.
served_ahead :
    (ring : List ℕ) (x : ℕ)
    → Sorted ring
    → InRange ring
    → x < two_32
    → lower_bound ring x < length ring
    → (k : ℕ) × (get_elem? ring (lower_bound ring x) ≡ some k) × Nearest ring x k × (x ≤ k)
served_ahead [] x s r h l = absurd (omega arith)
served_ahead (k ∷ ks) x s r h l = elim (Bool-cases (ltb k x)) [
  | inl y ↦
      let (q, e, n, p) = served_ahead ks x s.1 r.1 h (ground arith) in
      (
        q,
        rw y e,
        record {
          member = contains_tail q k ks n.member;
          nearest = (
            round_further x q k p (All-contains _ ks q r.1 n.member) (ground arith) h,
            n.nearest,
          );
        },
        p,
      )
  | inr n ↦ (
    k,
    rw n,
    record {
      member = contains_head k ks;
      nearest = (omega arith, All-further x k ks (ground arith) r.1 s.0);
    },
    ground arith,
  )
]

All-below : (ring : List ℕ) (x : ℕ) → lower_bound ring x ≡ length ring → All (λ q. q < x) ring
All-below [] x e = tt
All-below (k ∷ ks) x e = elim (Bool-cases (ltb k x)) [
  | inl y ↦ (ground arith, All-below ks x (ground (arith, y)))
  | inr n ↦ absurd (ground (arith, n))
]

-- Every hash of 32 bits is served, by the key that is nearest to it clockwise.
pub locate-Nearest :
    (k : ℕ) (ks : List ℕ) (x : ℕ)
    → Sorted (k ∷ ks)
    → InRange (k ∷ ks)
    → x < two_32
    → (q : ℕ) × (locate (k ∷ ks) x ≡ some q) × Nearest (k ∷ ks) x q
unfolding locate
locate-Nearest k ks x s r h = elim (Bool-cases (lower_bound (k ∷ ks) x == length (k ∷ ks))) [
  | inl y ↦
      let past : All (λ q. q < x) (k ∷ ks) = All-below (k ∷ ks) x ((==_iff _ _).0 y) in
      (
        k,
        rw (sort_search-lower_bound (k ∷ ks) x s) (rw y),
        record {
          member = contains_head k ks;
          nearest = (omega arith, All-behind x k ks h past.0 s.0 past.1);
        },
      )
  | inr n ↦
      let (q, e, near, _) =
        served_ahead (k ∷ ks) x s r h (ground (arith, n, lower_bound-le (k ∷ ks) x)) in
      (q, rw (sort_search-lower_bound (k ∷ ks) x s) (rw n e), near)
]

pub locate_of_member :
    (ring : List ℕ) (m x : ℕ)
    → contains m ring ≡ true
    → Sorted ring
    → InRange ring
    → x < two_32
    → (q : ℕ) × (locate ring x ≡ some q) × Nearest ring x q
unfolding contains
locate_of_member [] m x c s r h = absurd (cc)
locate_of_member (k ∷ ks) m x c s r h = locate-Nearest k ks x s r h

clockwise_injective :
    (x k q : ℕ) → x < two_32 → k < two_32 → q < two_32 → clockwise x k ≡ clockwise x q → k ≡ q
clockwise_injective x k q h l m e = omega arith

-- No two keys are nearest, also in two rings of which each holds the other's.
pub Nearest-unique :
    (ring ring' : List ℕ) (x k q : ℕ)
    → InRange ring
    → x < two_32
    → Nearest ring x k
    → Nearest ring' x q
    → contains q ring ≡ true
    → contains k ring' ≡ true
    → k ≡ q
Nearest-unique ring ring' x k q r h n m here there =
    clockwise_injective x k q h (All-contains _ ring k r n.member) (All-contains _ ring q r here) (
      omega (
        arith,
        All-contains (λ p. clockwise x k ≤ clockwise x p) ring q n.nearest here,
        All-contains (λ p. clockwise x q ≤ clockwise x p) ring' k m.nearest there,
      ))
