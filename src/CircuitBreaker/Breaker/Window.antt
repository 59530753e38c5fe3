-- ===== src/CircuitBreaker/Breaker/Window.antt =====
-- An open breaker sheds until its open time is over.
use gobalancer.Common.{
  ◌≡◌, refl, ◌≢◌, Bool, true, false, Option, none, some, List, [], ◌∷◌, arith, All, ℤ, pos, ◌<ℤ◌,
  add64, since,
}
use gobalancer.CircuitBreaker.Breaker.{
  open_state, Breaker, Event, allows, succeeds, fails, time, run, step,
}
use gobalancer.CircuitBreaker.Breaker.Invariant.{run-cons}
use gobalancer.CircuitBreaker.Breaker.Calls.{allow_early, success_open, failure_counts}

-- The calls fall before the end of the open time.
abbrev pub Early : Breaker → List Event → Type 0
Early b = All (λ e. since (time e) b.opened_at <ℤ b.open_duration)

-- A call within the open time, with its answer: only the number of failures may change.
early_step :
    (e : Event) (b : Breaker)
    → b.state ≡ open_state
    → since (time e) b.opened_at <ℤ b.open_duration
    → (a : Option Bool) × (n : ℤ) × (step e b ≡ some (a, record b { failures = n }))
      × (a ≢ some true)
early_step (allows t) b s l = (some false, b.failures, allow_early t b s l, λ e. cc (e))
early_step (succeeds t) b s l = (none, pos 0, success_open t b s, λ e. cc (e))
early_step (fails t) b s l =
    (none, add64 b.failures (pos 1), failure_counts t b (ground (arith, s)), λ e. cc (e))

-- While the open time of an open breaker lasts, whatever calls come in, they return, the breaker stays open,
-- its opening time does not move, and no request is let through.
pub open_window :
    (es : List Event) (b : Breaker)
    → b.state ≡ open_state
    → Early b es
    → (answers : List (Option Bool)) × (c : Breaker) × (run es b ≡ some (answers, c))
      × (c.state ≡ open_state)
      × (c.opened_at ≡ b.opened_at)
      × All (λ a. a ≢ some true) answers
unfolding run
open_window [] b s early = ([], b, refl, s, refl, tt)
open_window (e ∷ es) b s (l, early) =
    let (a, n, st, shed) = early_step e b s l in
    let (answers, c, r, s', o, rest) = open_window es (record b { failures = n }) s early in
    (
      a ∷ answers,
      c,
      run-cons e es b (record b { failures = n }) c a answers st r,
      s',
      o,
      (shed, rest),
    )
