-- ===== src/CircuitBreaker/Breaker/Trip.antt =====
-- Failures in a row.
use gobalancer.Common.{
  ℕ, suc, ◌+◌, ◌<◌, ◌≡◌, refl, ap, ◌∙◌, Bool, Option, none, some, List, [], ◌∷◌, arith, length, ℤ,
  pos, two_63, add64, add64_one,
}
use gobalancer.CircuitBreaker.Breaker.{closed, open_state, Breaker, Event, fails, run, step}
use gobalancer.CircuitBreaker.Breaker.Invariant.{run-cons}
use gobalancer.CircuitBreaker.Breaker.Calls.{failure_trips, failure_counts}

abbrev pub failing : List ℤ → List Event
failing [] = []
failing (t ∷ ts) = fails t ∷ failing ts

-- With a positive threshold below 2^63, from a closed breaker with `j` failures counted, further
-- failures in a row leave it closed while they stay below the threshold, and the one that reaches
-- the threshold opens it, at its own time.
pub failures_trip :
    (k j : ℕ) (ts : List ℤ) (t : ℤ) (b : Breaker)
    → b.failure_threshold ≡ pos (suc k)
    → suc k < two_63
    → b.state ≡ closed
    → b.failures ≡ pos j
    → j + length ts ≡ k
    → (answers : List (Option Bool)) × (c : Breaker) × (run (failing ts) b ≡ some (answers, c))
      × (c.state ≡ closed)
      × (step (fails t) c
          ≡ some (none, record c { failures = pos 0; opened_at = t; state = open_state }))
unfolding run
failures_trip k j [] t b th l st fl h = (
  [],
  b,
  refl,
  st,
  failure_trips t b (ground (arith, th, st, fl, add64_one j (omega (arith, l, h)))),
)
failures_trip k j (u ∷ ts) t b th l st fl h =
    let more : add64 b.failures (pos 1) ≡ pos (suc j) =
      ap (λ n. add64 n (pos 1)) fl ∙ add64_one j (omega (arith, l, h)) in
    let b' : Breaker = record b { failures = add64 b.failures (pos 1) } in
    let counted : step (fails u) b ≡ some (none, b') =
      failure_counts u b (ground (arith, th, st, more, h)) in
    let (answers, c, r, s', tripped) =
      failures_trip k (suc j) ts t b' th l st more (omega (arith, h)) in
    (none ∷ answers, c, run-cons (fails u) (failing ts) b b' c none answers counted r, s', tripped)
