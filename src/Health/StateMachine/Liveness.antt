-- ===== src/Health/StateMachine/Liveness.antt =====
-- internal/health/statemachine.go: a backend that answers again becomes healthy.
use gobalancer.Common.{
  ℕ, suc, ◌+◌, ◌≤◌, ◌<◌, ◌≡◌, refl, subst, ◌≢◌, inl, inr, Bool, true, false, List, [], ◌∷◌, arith,
  Bool-cases, length, All, pos, ◌≤ℤ◌, leb_ℤ, two_63, add64_one, since,
}
use gobalancer.Backend.{Health, healthy, unhealthy, probation, disabled}
use gobalancer.Health.{Config, Time, elapsed, last_backoff, le→leb}
use gobalancer.Health.StateMachine.{ProbeState, record_probe, transition}
use gobalancer.Health.StateMachine.Recovery.{Probed, probe, probes, or_same}

-- Probes that succeed, at these times.
abbrev pub succeeding : List Time → List (Time × Bool)
succeeding [] = []
succeeding (t ∷ ts) = (t, true) ∷ succeeding ts

-- Times behind the longest backoff.
abbrev pub Late : Time → List Time → Type 0
Late since = All (λ t. last_backoff ≤ℤ elapsed t since)

module _ (cfg : Config) (k : ℕ) (low : cfg.success_threshold ≤ℤ pos k)
    (high : pos 1 ≤ℤ cfg.failure_threshold) where
  -- How far a backend is when probes at `ts` are still to come: enough of them are left.
  Near : Health → ProbeState → List Time → Type 0
  Near healthy ps ts = Unit {0}
  Near probation ps ts =
      (s : ℕ) × (ps.successes ≡ pos s)
      × (1 ≤ length ts)
      × (k ≤ s + length ts)
      × (s + length ts < two_63)
  Near unhealthy ps ts =
      (s : ℕ) × (ps.successes ≡ pos s)
      × (2 ≤ length ts)
      × (suc k ≤ s + length ts)
      × (s + length ts < two_63)
      × (ps.backoff ≤ℤ last_backoff)
      × Late ps.unhealthy_since ts
  Near disabled ps ts = ⊥

  counted :
      (t : Time) (ps : ProbeState) (s : ℕ)
      → ps.successes ≡ pos s
      → suc s < two_63
      → (record_probe t true ps).successes ≡ pos (suc s)
  unfolding record_probe
  counted t ps s e l = rw e (add64_one s l)

  below_threshold : (s : ℕ) → leb_ℤ cfg.success_threshold (pos (suc s)) ≡ false → suc s < k
  below_threshold s n = ground (arith, low)

  Near-step :
      (h : Health) (ps : ProbeState) (t : Time) (ts : List Time)
      → Near h ps (t ∷ ts)
      → let next = transition cfg t h (record_probe t true ps) in Near (or_same h next.0) next.1 ts
  unfolding Near transition record_probe
  Near-step healthy ps t ts n =
      let few : leb_ℤ cfg.failure_threshold (pos 0) ≡ false = ground arith in rw few tt
  Near-step probation ps t ts (s, e, one, enough, small) =
      let e' = counted t ps s e (omega arith) in
      elim (Bool-cases (leb_ℤ cfg.success_threshold (record_probe t true ps).successes)) [
        | inl y ↦ rw y tt
        | inr n ↦ rw n (
          suc s,
          e',
          omega
              (arith, below_threshold s (subst (λ x. leb_ℤ cfg.success_threshold x ≡ false) e' n)),
          omega arith,
          omega arith,
        )
      ]
  Near-step unhealthy ps t ts (s, e, two, enough, small, short, (late, lates)) =
      let e' = counted t ps s e (omega arith) in
      let due : leb_ℤ ps.backoff (elapsed t ps.unhealthy_since) ≡ true =
        le→leb ps.backoff (elapsed t ps.unhealthy_since) (omega (arith, short, late)) in
      elim (Bool-cases (leb_ℤ cfg.success_threshold (record_probe t true ps).successes)) [
        | inl y ↦ rw (due, y) (suc s, e', omega arith, omega arith, omega arith)
        | inr n ↦
            rw (due, n)
              (
                suc s,
                e',
                omega (
                  arith,
                  below_threshold s (subst (λ x. leb_ℤ cfg.success_threshold x ≡ false) e' n),
                ),
                omega arith,
                omega arith,
                short,
                lates,
              )
      ]
  Near-step disabled ps t ts n = absurd n

  Near-end : (h : Health) (ps : ProbeState) → Near h ps [] → h ≡ healthy
  unfolding Near
  Near-end healthy ps n = refl
  Near-end probation ps (s, e, one, _, _) = absurd (omega arith)
  Near-end unhealthy ps (s, e, two, _, _, _, _) = absurd (omega arith)
  Near-end disabled ps n = absurd n

  Near-probes :
      (ts : List Time) (p : Probed)
      → Near p.health p.counters ts
      → (probes cfg (succeeding ts) p).health ≡ healthy
  unfolding probes probe Near
  Near-probes [] p n = Near-end p.health p.counters n
  Near-probes (t ∷ ts) p n = Near-probes ts _ (Near-step p.health p.counters t ts n)

  -- A backend that is not disabled, with a counter of successes that is not negative and a backoff of five
  -- minutes at most, is healthy after two more successful probes than the threshold of successes, and after
  -- any larger number of them, if each comes five minutes or more behind the time since when it was
  -- unhealthy, the failure threshold is positive and the counter does not reach 2^63.
  pub probes_recover :
      (ts : List Time) (p : Probed) (s : ℕ)
      → p.health ≢ disabled
      → p.counters.successes ≡ pos s
      → p.counters.backoff ≤ℤ last_backoff
      → Late p.counters.unhealthy_since ts
      → k + 2 ≤ length ts
      → s + length ts < two_63
      → (probes cfg (succeeding ts) p).health ≡ healthy
  unfolding Near
  probes_recover ts p s n e short late enough small = Near-probes ts p (near_start p.health n)
    where
      near_start : (h : Health) → h ≢ disabled → Near h p.counters ts
      near_start healthy m = tt
      near_start probation m = (s, e, omega arith, omega arith, small)
      near_start unhealthy m = (s, e, omega arith, omega arith, small, short, late)
      near_start disabled m = absurd (m refl)
