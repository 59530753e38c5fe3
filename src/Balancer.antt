-- ===== src/Balancer.antt =====
-- internal/balancer: the result of a selector, and what two of them share.
use gobalancer.Common.{
  ℕ, ◌+◌, ◌-◌, ◌≡◌, refl, Bool, true, false, Option, none, some, List, [], ◌∷◌, map, arith, ◌==◌,
  if◌then◌else◌, count,
}
use gobalancer.Backend.{Ref}
pub mod Cycle
pub mod RoundRobin
pub mod WeightedRoundRobin
pub mod LeastConnections
pub mod P2c
pub mod IpHash
pub mod ConsistentHash
pub mod Factory

-- What `Next` does: `(b, nil)`, `(nil, nil)`, `(nil, ErrNoBackends)`, or a run-time panic.
pub data Choice : Type 0 where
  chosen : Ref → Choice
  nothing : Choice
  no_backends : Choice
  panic : Choice

abbrev pub of_index : Option Ref → Choice
of_index none = panic
of_index (some r) = chosen r

abbrev pub is_nil : List Ref → Bool
is_nil [] = true
is_nil (_ ∷ _) = false

-- How often a run of calls picks a backend.
abbrev pub picks : Ref → List Choice → ℕ
picks r [] = 0
picks r (chosen q ∷ cs) = (if q == r then 1 else 0) + picks r cs
picks r (nothing ∷ cs) = picks r cs
picks r (no_backends ∷ cs) = picks r cs
picks r (panic ∷ cs) = picks r cs

pub picks-chosen : (r : Ref) (rs : List Ref) → picks r (map chosen rs) ≡ count r rs
picks-chosen r [] = refl
picks-chosen r (q ∷ rs) = omega (arith, picks-chosen r rs)
