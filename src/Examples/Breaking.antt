-- ===== src/Examples/Breaking.antt =====
-- A circuit breaker that opens at three failures, for ten seconds, with two half-open probes.
use gobalancer.Common.{
  ℕ, min, ◌≡◌, refl, ◌≢◌, inr, Bool, true, false, Option, none, some, List, [], ◌∷◌, arith, All,
  pos, ◌≤ℤ◌, rounds, lit, lookup,
}
use gobalancer.CircuitBreaker.Breaker.{
  Config, Breaker, State, closed, open_state, half_open, new, Event, allows, succeeds, fails, run,
  step, fill,
}
use gobalancer.CircuitBreaker.Breaker.Invariant.{Inv}
use gobalancer.CircuitBreaker.Breaker.Diagram.{Stepped, step-Moves}
use gobalancer.CircuitBreaker.Breaker.Total.{run_total}
use gobalancer.CircuitBreaker.Breaker.Window.{open_window}
use gobalancer.CircuitBreaker.Breaker.Probes.{allowing, admitted, probes_admitted, half_open_stuck}
use gobalancer.CircuitBreaker.Registry.{Registry, new_registry, added}
use gobalancer.CircuitBreaker.Registry

abbrev cfg : Config
cfg = record { failure_threshold = pos 3; open_duration = pos 10; half_open_probes = pos 2 }

abbrev at_state : State → ℕ → ℕ → Breaker
at_state s failures permits = record {
  cfg = cfg;
  state = s;
  failures = pos failures;
  opened_at = pos 100;
  probe = permits;
  capacity = 2;
}

-- Three failures, a request that is shed, one that is a probe, and its success.
abbrev calls : List Event
calls =
    fails (pos 98)
    ∷ fails (pos 99)
    ∷ fails (pos 100)
    ∷ allows (pos 105)
    ∷ allows (pos 110)
    ∷ succeeds (pos 111)
    ∷ []

answers_in_order :
    run calls (at_state closed 0 0)
    ≡ some (
      none ∷ none ∷ none ∷ some false ∷ some true ∷ none ∷ [],
      record (at_state closed 0 1) { opened_at = pos 100 },
    )
unfolding run step fill
answers_in_order = refl

run_total_example :
    (answers : List (Option Bool)) × (c : Breaker) × (run calls
        (record (at_state closed 0 0) { opened_at = pos 0 })
      ≡ some (answers, c))
    × Inv c
    × (pos c.probe ≤ℤ c.half_open_probes)
unfolding new
run_total_example = run_total cfg calls refl

open_Inv : Inv (at_state open_state 3 2)
open_Inv = record { sized = refl; permits = omega arith; counted = λ e. absurd (cc (e)) }

probes_admitted_example :
    (answers : List (Option Bool)) × (c : Breaker) × (run
        (allowing (pos 110 ∷ pos 111 ∷ pos 112 ∷ []))
        (at_state open_state 3 2)
      ≡ some (answers, c))
    × (admitted answers ≡ min (rounds (pos 2)) 3)
    × (c.state ≡ half_open)
probes_admitted_example =
    probes_admitted (pos 110) (pos 111 ∷ pos 112 ∷ []) (at_state open_state 3 2) open_Inv refl
      (omega arith)

open_window_example :
    (answers : List (Option Bool)) × (c : Breaker) × (run
        (allows (pos 105) ∷ fails (pos 106) ∷ [])
        (at_state open_state 3 2)
      ≡ some (answers, c))
    × (c.state ≡ open_state)
    × (c.opened_at ≡ pos 100)
    × All (λ a. a ≢ some true) answers
open_window_example =
    open_window (allows (pos 105) ∷ fails (pos 106) ∷ []) (at_state open_state 3 2) refl
      (omega arith, (omega arith, tt))

half_open_stuck_example :
    run (allowing (pos 9000 ∷ [])) (at_state half_open 0 0)
    ≡ some (some false ∷ [], at_state half_open 0 0)
half_open_stuck_example = half_open_stuck (pos 9000 ∷ []) (at_state half_open 0 0) refl refl

closed-Inv : Inv (at_state closed 2 0)
closed-Inv = record { sized = refl; permits = omega arith; counted = λ e. inr (omega arith) }

step-Moves_example : Stepped (fails (pos 7)) (at_state closed 2 0)
step-Moves_example = step-Moves (fails (pos 7)) (at_state closed 2 0) closed-Inv

no_breaker-Inv : Registry.Inv (new_registry cfg)
unfolding new_registry lookup
no_breaker-Inv = record {
  allocated = λ id p e. absurd (cc (e));
  separate = λ id id' p e e'. absurd (cc (e));
}

abbrev one_breaker : Registry
one_breaker =
    added (new_registry cfg) (lit "a") (record (at_state closed 0 0) { opened_at = pos 0 })
