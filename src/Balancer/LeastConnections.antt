-- ===== src/Balancer/LeastConnections.antt =====
-- internal/balancer/leastconn.go
use gobalancer.Common.{
  ◌≡◌, refl, ap, ◌⊎◌, inl, inr, Option, none, some, List, [], ◌∷◌, ◌++◌, arith, if◌then◌else◌,
  Bool-cases, All, ℤ, ◌≤ℤ◌, ◌<ℤ◌, ltb_ℤ, max_int64,
}
use gobalancer.Backend.{Heap, Ref, active_conns}
use gobalancer.Balancer.{Choice, chosen, nothing, no_backends, is_nil}

-- The loop, with `best` and `bestConns`.
unfoldable pub scan : Heap → List Ref → Option Ref → ℤ → Option Ref
scan h [] best best_conns = best
scan h (b ∷ bs) best best_conns =
    let less = ltb_ℤ (active_conns h b) best_conns in
    scan h bs (if less then some b else best) (if less then active_conns h b else best_conns)

abbrev of_best : Option Ref → Choice
of_best none = nothing
of_best (some r) = chosen r

unfoldable pub next : Heap → List Ref → Choice
unfolding scan
next h backends = if is_nil backends then no_backends else of_best (scan h backends none max_int64)

-- The first entry of a list with the fewest connections, fewer than a bound.
pub record Least (h : Heap) (bs : List Ref) (bound : ℤ) (r : Ref) : Type 0 where
  pub before : List Ref
  pub behind : List Ref
  pub split : bs ≡ before ++ r ∷ behind
  pub below : active_conns h r <ℤ bound
  pub fewest_before : All (λ q. active_conns h r <ℤ active_conns h q) before
  pub fewest_behind : All (λ q. active_conns h r ≤ℤ active_conns h q) behind

-- The result of the loop from `best` and `bestConns` on.
abbrev Scanned : Heap → List Ref → Option Ref → ℤ → Option Ref → Type 0
Scanned h bs best c result =
    ((result ≡ best) × All (λ q. c ≤ℤ active_conns h q) bs)
    ⊎ ((r : Ref) × (result ≡ some r) × Least h bs c r)

scan-Scanned :
    (h : Heap) (bs : List Ref) (best : Option Ref) (c : ℤ) → Scanned h bs best c (scan h bs best c)
unfolding scan
scan-Scanned h [] best c = inl (refl, tt)
scan-Scanned h (b ∷ bs) best c = elim (Bool-cases (ltb_ℤ (active_conns h b) c)) [
  | inl less ↦ rw less (elim (scan-Scanned h bs (some b) (active_conns h b)) [
    | inl (e, l) ↦ inr (
      b,
      e,
      record {
        before = [];
        behind = bs;
        split = refl;
        below = ground arith;
        fewest_before = tt;
        fewest_behind = l;
      },
    )
    | inr (r, e, l) ↦ inr (
      r,
      e,
      record {
        before = b ∷ l.before;
        behind = l.behind;
        split = ap (◌∷◌ b) l.split;
        below = ground (arith, l.below);
        fewest_before = (l.below, l.fewest_before);
        fewest_behind = l.fewest_behind;
      },
    )
  ])
  | inr more ↦ rw more (elim (scan-Scanned h bs best c) [
    | inl (e, l) ↦ inl (e, (ground arith, l))
    | inr (r, e, l) ↦ inr (
      r,
      e,
      record {
        before = b ∷ l.before;
        behind = l.behind;
        split = ap (◌∷◌ b) l.split;
        below = l.below;
        fewest_before = (ground (arith, l.below), l.fewest_before);
        fewest_behind = l.fewest_behind;
      },
    )
  ])
]

-- With no backend the result is the error. Otherwise it is the first of those with the fewest
-- connections; only where every counter stands at the largest `int64` or above is it a nil backend
-- and no error.
pub next-Least :
    (h : Heap) (bs : List Ref)
    → ((bs ≡ []) × (next h bs ≡ no_backends))
      ⊎ ((r : Ref) × (next h bs ≡ chosen r) × Least h bs max_int64 r)
      ⊎ ((next h bs ≡ nothing) × All (λ q. max_int64 ≤ℤ active_conns h q) bs)
unfolding next
next-Least h [] = inl (refl, refl)
next-Least h (b ∷ bs) = elim (scan-Scanned h (b ∷ bs) none max_int64) [
  | inl (e, l) ↦ inr (inr (ap of_best e, l))
  | inr (r, e, l) ↦ inr (inl (r, ap of_best e, l))
]
