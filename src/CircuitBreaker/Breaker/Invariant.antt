-- ===== src/CircuitBreaker/Breaker/Invariant.antt =====
-- What holds of a breaker between two calls.
use gobalancer.Common.{
  ℕ, zero, suc, ◌+◌, ◌≤◌, ◌≡◌, refl, ap, ◌∙◌, ◌⊎◌, Bool, Option, some, List, ◌∷◌, arith, pos, ◌<ℤ◌,
  rounds,
}
use gobalancer.CircuitBreaker.Breaker.{
  closed, half_open, Config, Breaker, new, fill, drain, to_half_open, Event, run, step,
}

pub record Inv (b : Breaker) : Type 0 where
  pub sized : pos b.capacity ≡ b.half_open_probes
  pub permits : b.probe ≤ b.capacity
  pub counted : b.state ≡ closed → (b.failures ≡ pos 0) ⊎ (b.failures <ℤ b.failure_threshold)

-- A new breaker satisfies the invariant.
pub new-Inv : (cfg : Config) {b : Breaker} → new cfg ≡ some b → Inv b
unfolding new
new-Inv cfg {b} e = ground arith

drain_zero : (n : ℕ) → drain n ≡ 0
unfolding drain
drain_zero zero = refl
drain_zero (suc n) = drain_zero n

fill_room : (m c n : ℕ) → n + m ≤ c → fill m c n ≡ some (n + m)
unfolding fill
fill_room zero c n h = ap some (omega arith)
fill_room (suc m) c n h = ground (arith, fill_room m c (suc n))

-- The permits are reset to the number of half-open probes, and no send waits.
pub to_half_open_lem :
    (b : Breaker)
    → Inv b
    → to_half_open b ≡ some (record b { state = half_open; probe = rounds b.half_open_probes })
unfolding to_half_open
to_half_open_lem b v =
    let full : fill (rounds b.half_open_probes) b.capacity (drain b.probe)
        ≡ some (rounds b.half_open_probes) =
      rw (← v.sized, drain_zero b.probe)
        (fill_room b.capacity b.capacity 0 (omega arith) ∙ ap some (omega arith)) in
    rw full

-- A run, call by call.
pub run-cons :
    (e : Event) (es : List Event) (b c d : Breaker) (a : Option Bool) (answers : List (Option Bool))
    → step e b ≡ some (a, c)
    → run es c ≡ some (answers, d)
    → run (e ∷ es) b ≡ some (a ∷ answers, d)
unfolding run
run-cons e es b c d a answers s r = rw (s, r) refl
