-- ===== src/CircuitBreaker/Breaker/Calls.antt =====
-- What a call does in each state, by the permits, the open time and the threshold.
use gobalancer.Common.{
  ℕ, zero, suc, ◌≡◌, refl, ap, ◌⊎◌, inl, inr, true, false, not, ◌&&◌, ◌||◌, none, some, arith,
  if◌then◌else◌, ℤ, pos, ◌≤ℤ◌, ◌<ℤ◌, leb_ℤ, rounds, add64, since,
}
use gobalancer.CircuitBreaker.Breaker.{
  State, closed, open_state, half_open, is_open, is_half_open, Breaker, take_probe, pass, allow_in,
  record_success, record_failure, allows, succeeds, fails, step,
}
use gobalancer.CircuitBreaker.Breaker.Invariant.{Inv, to_half_open_lem}

pub zero_or_suc : (n : ℕ) → (n ≡ 0) ⊎ ((m : ℕ) × (n ≡ suc m))
zero_or_suc zero = inl refl
zero_or_suc (suc m) = inr (m, refl)

-- The breaker when the open time is over, with all its permits.
abbrev pub reached : Breaker → Breaker
reached b = record b { state = half_open; probe = rounds b.half_open_probes }

-- One request at a breaker with a known number of permits.
pub take_probe_none : (b : Breaker) → b.probe ≡ 0 → take_probe b ≡ (false, b)
unfolding take_probe
take_probe_none b e = ground (arith, e)

pub take_probe_some :
    (b : Breaker) (n : ℕ) → b.probe ≡ suc n → take_probe b ≡ (true, record b { probe = n })
unfolding take_probe
take_probe_some b n e = ground (arith, e)

pub allow_early :
    (t : ℤ) (b : Breaker)
    → b.state ≡ open_state
    → since t b.opened_at <ℤ b.open_duration
    → step (allows t) b ≡ some (some false, b)
unfolding step allow_in pass
allow_early t b s l =
    let early : leb_ℤ b.open_duration (since t b.opened_at) ≡ false = ground (arith, l) in
    rw (s, early) refl

pub allow_due :
    (t : ℤ) (b : Breaker)
    → Inv b
    → b.state ≡ open_state
    → b.open_duration ≤ℤ since t b.opened_at
    → step (allows t) b ≡ (let (a, c) = take_probe (reached b) in some (some a, c))
unfolding step allow_in pass
allow_due t b v s l =
    let due : leb_ℤ b.open_duration (since t b.opened_at) ≡ true = ground (arith, l) in
    rw (s, due, to_half_open_lem b v) refl

pub allow_closed :
    (t : ℤ) (b : Breaker) → b.state ≡ closed → step (allows t) b ≡ some (some true, b)
unfolding step allow_in
allow_closed t b s = rw s refl

pub allow_half_open :
    (t : ℤ) (b : Breaker)
    → b.state ≡ half_open
    → step (allows t) b ≡ (let (a, c) = take_probe b in some (some a, c))
unfolding step allow_in
allow_half_open t b s = rw s refl

pub success_lem :
    (t : ℤ) (b : Breaker) (s : State)
    → (if is_half_open b.state then closed else b.state) ≡ s
    → step (succeeds t) b ≡ some (none, record b { failures = pos 0; state = s })
unfolding step record_success
success_lem t b s e = ap (λ x. some (none, record b { failures = pos 0; state = x })) e

pub success_open :
    (t : ℤ) (b : Breaker)
    → b.state ≡ open_state
    → step (succeeds t) b ≡ some (none, record b { failures = pos 0 })
success_open t b s = success_lem t b b.state (ground (arith, s))

pub failure_trips :
    (t : ℤ) (b : Breaker)
    → ((leb_ℤ b.failure_threshold (add64 b.failures (pos 1)) || is_half_open b.state)
        && not (is_open b.state))
      ≡ true
    → step (fails t) b
      ≡ some (none, record b { failures = pos 0; opened_at = t; state = open_state })
unfolding step record_failure
failure_trips t b e = rw e refl

pub failure_counts :
    (t : ℤ) (b : Breaker)
    → ((leb_ℤ b.failure_threshold (add64 b.failures (pos 1)) || is_half_open b.state)
        && not (is_open b.state))
      ≡ false
    → step (fails t) b ≡ some (none, record b { failures = add64 b.failures (pos 1) })
unfolding step record_failure
failure_counts t b e = rw e refl
