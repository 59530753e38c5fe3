-- ===== src/CircuitBreaker/Breaker/Diagram.antt =====
-- What every call does to the breaker and answers, by its state.
use gobalancer.Common.{
  ℕ, suc, ◌≡◌, refl, ap, ◌∙◌, ◌⊎◌, inl, inr, Bool, true, false, Option, none, some, arith,
  Bool-cases, ℤ, pos, ◌≤ℤ◌, ◌<ℤ◌, leb_ℤ, rounds, add64, since,
}
use gobalancer.CircuitBreaker.Breaker.{
  State, closed, open_state, half_open, Breaker, Event, allows, succeeds, fails, step,
}
use gobalancer.CircuitBreaker.Breaker.Invariant.{Inv}
use gobalancer.CircuitBreaker.Breaker.Calls.{
  zero_or_suc, reached, take_probe_none, take_probe_some, allow_early, allow_due, allow_closed,
  allow_half_open, success_lem, failure_trips, failure_counts,
}

-- A call, its answer if it is `Allow`, and the breaker afterwards.
pub data Moves (b : Breaker) : Event → Option Bool → Breaker → Type 0 where
  passes : (t : ℤ) → b.state ≡ closed → Moves b (allows t) (some true) b
  sheds :
      (t : ℤ)
      → b.state ≡ open_state
      → since t b.opened_at <ℤ b.open_duration
      → Moves b (allows t) (some false) b
  expires :
      (t : ℤ) (n : ℕ)
      → b.state ≡ open_state
      → b.open_duration ≤ℤ since t b.opened_at
      → rounds b.half_open_probes ≡ suc n
      → Moves b (allows t) (some true) (record b { state = half_open; probe = n })
  expires_without_probes :
      (t : ℤ)
      → b.state ≡ open_state
      → b.open_duration ≤ℤ since t b.opened_at
      → rounds b.half_open_probes ≡ 0
      → Moves b (allows t) (some false) (record b { state = half_open; probe = 0 })
  probes :
      (t : ℤ) (n : ℕ)
      → b.state ≡ half_open
      → b.probe ≡ suc n
      → Moves b (allows t) (some true) (record b { probe = n })
  exhausted : (t : ℤ) → b.state ≡ half_open → b.probe ≡ 0 → Moves b (allows t) (some false) b
  succeeds_closed :
      (t : ℤ) → b.state ≡ closed → Moves b (succeeds t) none (record b { failures = pos 0 })
  succeeds_open :
      (t : ℤ) → b.state ≡ open_state → Moves b (succeeds t) none (record b { failures = pos 0 })
  recovers :
      (t : ℤ)
      → b.state ≡ half_open
      → Moves b (succeeds t) none (record b { failures = pos 0; state = closed })
  counts :
      (t : ℤ)
      → b.state ≡ closed
      → add64 b.failures (pos 1) <ℤ b.failure_threshold
      → Moves b (fails t) none (record b { failures = add64 b.failures (pos 1) })
  trips :
      (t : ℤ)
      → b.state ≡ closed
      → b.failure_threshold ≤ℤ add64 b.failures (pos 1)
      → Moves b (fails t) none (record b { failures = pos 0; opened_at = t; state = open_state })
  fails_open :
      (t : ℤ)
      → b.state ≡ open_state
      → Moves b (fails t) none (record b { failures = add64 b.failures (pos 1) })
  reopens :
      (t : ℤ)
      → b.state ≡ half_open
      → Moves b (fails t) none (record b { failures = pos 0; opened_at = t; state = open_state })

State-cases : (s : State) → (s ≡ closed) ⊎ (s ≡ open_state) ⊎ (s ≡ half_open)
State-cases closed = inl refl
State-cases open_state = inr (inl refl)
State-cases half_open = inr (inr refl)

-- The call returns, by one of the moves.
abbrev pub Stepped : Event → Breaker → Type 0
Stepped e b = (a : Option Bool) × (c : Breaker) × (step e b ≡ some (a, c)) × Moves b e a c

allow_half_open-Moves : (t : ℤ) (b : Breaker) → b.state ≡ half_open → Stepped (allows t) b
allow_half_open-Moves t b s = elim (zero_or_suc b.probe) [
  | inl z ↦ (some false, b, allow_half_open t b s ∙ rw (take_probe_none b z) refl, exhausted t s z)
  | inr (n, z) ↦ (
    some true,
    record b { probe = n },
    allow_half_open t b s ∙ rw (take_probe_some b n z) refl,
    probes t n s z,
  )
]

allow_open-Moves : (t : ℤ) (b : Breaker) → Inv b → b.state ≡ open_state → Stepped (allows t) b
allow_open-Moves t b v s = elim (Bool-cases (leb_ℤ b.open_duration (since t b.opened_at))) [
  | inr n ↦
      let early : since t b.opened_at <ℤ b.open_duration = ground (arith, n) in
      (some false, b, allow_early t b s early, sheds t s early)
  | inl y ↦
      let due : b.open_duration ≤ℤ since t b.opened_at = ground (arith, y) in
      elim (zero_or_suc (rounds b.half_open_probes)) [
        | inl z ↦ (
          some false,
          record b { state = half_open; probe = 0 },
          allow_due t b v s due
              ∙ ap (λ (p : Bool × Breaker). some (some p.0, p.1)) (take_probe_none (reached b) z)
              ∙ ap (λ k. some (some false, record b { state = half_open; probe = k })) z,
          expires_without_probes t s due z,
        )
        | inr (n, z) ↦ (
          some true,
          record b { state = half_open; probe = n },
          allow_due t b v s due
              ∙ ap (λ (p : Bool × Breaker). some (some p.0, p.1)) (take_probe_some (reached b) n z),
          expires t n s due z,
        )
      ]
]

-- A breaker with the invariant: no call waits for ever, and each one does to the breaker and answers what
-- its state asks for, and no more. A closed breaker lets every request through, and one that is open
-- lets none through while its open time lasts. The first request behind it gets the first of as many
-- permits as there are half-open probes, if there is one, and the others are shed once the permits
-- have run out. A success closes a half-open breaker and sets the failures to 0; a failure opens it again, as it does
-- a closed one that has reached the threshold, and else is counted.
pub step-Moves : (e : Event) (b : Breaker) → Inv b → Stepped e b
step-Moves (allows t) b v = elim (State-cases b.state) [
  | inl s ↦ (some true, b, allow_closed t b s, passes t s)
  | inr (inl s) ↦ allow_open-Moves t b v s
  | inr (inr s) ↦ allow_half_open-Moves t b s
]
step-Moves (succeeds t) b v = elim (State-cases b.state) [
  | inl s ↦ (
    none,
    record b { failures = pos 0 },
    success_lem t b b.state (ground (arith, s)),
    succeeds_closed t s,
  )
  | inr (inl s) ↦ (
    none,
    record b { failures = pos 0 },
    success_lem t b b.state (ground (arith, s)),
    succeeds_open t s,
  )
  | inr (inr s) ↦ (
    none,
    record b { failures = pos 0; state = closed },
    success_lem t b closed (ground (arith, s)),
    recovers t s,
  )
]
step-Moves (fails t) b v = elim (State-cases b.state) [
  | inl s ↦ elim (Bool-cases (leb_ℤ b.failure_threshold (add64 b.failures (pos 1)))) [
    | inl y ↦ (none, _, failure_trips t b (ground (arith, s, y)), trips t s (ground (arith, y)))
    | inr n ↦ (none, _, failure_counts t b (ground (arith, s, n)), counts t s (ground (arith, n)))
  ]
  | inr (inl s) ↦ (none, _, failure_counts t b (ground (arith, s)), fails_open t s)
  | inr (inr s) ↦ (none, _, failure_trips t b (ground (arith, s)), reopens t s)
]
