-- ===== src/CircuitBreaker/Breaker/Total.antt =====
-- No call waits for ever.
use gobalancer.Common.{◌≡◌, refl, inl, inr, Bool, Option, some, List, [], ◌∷◌, arith, pos, ◌≤ℤ◌}
use gobalancer.CircuitBreaker.Breaker.{Breaker, new, Config, Event, run}
use gobalancer.CircuitBreaker.Breaker.Invariant.{Inv, new-Inv, run-cons}
use gobalancer.CircuitBreaker.Breaker.Diagram.{
  Moves, passes, sheds, expires, expires_without_probes, probes, exhausted, succeeds_closed,
  succeeds_open, recovers, counts, trips, fails_open, reopens, step-Moves,
}

-- Every call keeps the invariant.
pub Moves-Inv : (e : Event) (a : Option Bool) (b c : Breaker) → Inv b → Moves b e a c → Inv c
Moves-Inv _ _ b _ v (passes t s) = v
Moves-Inv _ _ b _ v (sheds t s l) = v
Moves-Inv _ _ b _ v (expires t n s l z) = record {
  sized = v.sized;
  permits = ground (arith, v.sized, z);
  counted = λ e. absurd (cc (e));
}
Moves-Inv _ _ b _ v (expires_without_probes t s l z) = record {
  sized = v.sized;
  permits = omega arith;
  counted = λ e. absurd (cc (e));
}
Moves-Inv _ _ b _ v (probes t n s z) = record {
  sized = v.sized;
  permits = omega (arith, v.permits, z);
  counted = λ e. absurd (cc (e, s));
}
Moves-Inv _ _ b _ v (exhausted t s z) = v
Moves-Inv _ _ b _ v (succeeds_closed t s) = record {
  sized = v.sized;
  permits = v.permits;
  counted = λ e. inl refl;
}
Moves-Inv _ _ b _ v (succeeds_open t s) = record {
  sized = v.sized;
  permits = v.permits;
  counted = λ e. inl refl;
}
Moves-Inv _ _ b _ v (recovers t s) = record {
  sized = v.sized;
  permits = v.permits;
  counted = λ e. inl refl;
}
Moves-Inv _ _ b _ v (counts t s l) = record {
  sized = v.sized;
  permits = v.permits;
  counted = λ e. inr l;
}
Moves-Inv _ _ b _ v (trips t s l) = record {
  sized = v.sized;
  permits = v.permits;
  counted = λ e. absurd (cc (e));
}
Moves-Inv _ _ b _ v (fails_open t s) = record {
  sized = v.sized;
  permits = v.permits;
  counted = λ e. absurd (cc (e, s));
}
Moves-Inv _ _ b _ v (reopens t s) = record {
  sized = v.sized;
  permits = v.permits;
  counted = λ e. absurd (cc (e));
}

run-Inv :
    (es : List Event) (b : Breaker)
    → Inv b
    → (answers : List (Option Bool)) × (c : Breaker) × (run es b ≡ some (answers, c)) × Inv c
unfolding run
run-Inv [] b v = ([], b, refl, v)
run-Inv (e ∷ es) b v =
    let (a, c, s, m) = step-Moves e b v in
    let (answers, d, r, w) = run-Inv es c (Moves-Inv e a b c v m) in
    (a ∷ answers, d, run-cons e es b c d a answers s r, w)

-- From a new breaker no series of calls ever waits: it returns, and the permits never pass the
-- number of half-open probes.
pub run_total :
    (cfg : Config) (es : List Event) {b : Breaker}
    → new cfg ≡ some b
    → (answers : List (Option Bool)) × (c : Breaker) × (run es b ≡ some (answers, c))
      × Inv c
      × (pos c.probe ≤ℤ c.half_open_probes)
run_total cfg es {b} e =
    let (answers, c, r, w) = run-Inv es b (new-Inv cfg e) in
    (answers, c, r, w, ground (arith, w.sized, w.permits))
