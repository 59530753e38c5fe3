-- ===== src/Examples/Checking.antt =====
-- Probes and requests of three backends.
use gobalancer.Common.{
  ℕ, zero, suc, ◌-◌, ◌*◌, ◌≤◌, ◌≡◌, refl, ◌≢◌, Bool, true, false, none, List, [], ◌∷◌, arith, leb,
  if◌then◌else◌, count, pos, leb_ℤ, Str, lit, str_eq, lookup,
}
use gobalancer.Backend.{Ref, Url, Health, unhealthy, probation, get_health}
use gobalancer.Health.{Time, default_config, elapsed}
use gobalancer.Health.StateMachine.{ProbeState, new_state_machine, record_probe, observe}
use gobalancer.Health.StateMachine.Liveness.{succeeding, probes_recover}
use gobalancer.Health.StateMachine.Recovery.{Probed, probe, probes, Edge, probe-Edge}
use gobalancer.Health.StateMachine.Refinement.{view, observe-probe}
use gobalancer.Health.Checker.{new_checker}
use gobalancer.Health.Checker.Loop.{Event, ticks, probed, new_loop, run}
use gobalancer.Health.Checker.Loop.Silence.{Silent, level}
use gobalancer.Health.Checker.Loop.Detection.{run-level}
use gobalancer.Pool.{new_pool}
use gobalancer.Health.Passive.{new_passive_checker, trim, try_readmit}
use gobalancer.Health.Passive
use gobalancer.Health.Passive.Ejection.{backoff_at_eject, ejected_until_backoff}
use gobalancer.Health.Checker.Loop.Failover.{run-Silent}
use gobalancer.Proxy.Dispatch
use gobalancer.Proxy.Dispatch.Members.{least_connections, least_connections-PicksMembers}
use gobalancer.Examples.Proxying.{quiet, two_requests}
use gobalancer.Examples.Data.{heap, refs}

abbrev counted : ℕ → ℕ → Time → ProbeState
counted failures successes since_time = record {
  failures = pos failures;
  successes = pos successes;
  unhealthy_since = since_time;
  backoff = pos 5000000000;
}

-- A backend that has been unhealthy for ten seconds, with one success.
abbrev down : Probed
down = record { health = unhealthy; counters = counted 0 1 7000000000 }

probe-Edge_example :
    Edge default_config 17000000000
      (record_probe 17000000000 true (counted 0 1 7000000000))
      unhealthy
      (probe default_config (17000000000, true) down).health
probe-Edge_example = probe-Edge default_config 17000000000 true down

observe-probe_example :
    (view 1 (observe 5 false 1 (heap, new_state_machine default_config))
      ≡ probe
          (new_state_machine default_config).cfg
          (5, false)
          (view 1 (heap, new_state_machine default_config)))
    × ((q : Ref)
        → 1 ≢ q
        → str_eq (heap.cell 1).id (heap.cell q).id ≡ false
        → view q (observe 5 false 1 (heap, new_state_machine default_config))
          ≡ view q (heap, new_state_machine default_config))
observe-probe_example = observe-probe 5 false 1 heap (new_state_machine default_config)

-- Nothing answers.
abbrev no_response : Event
no_response = probed 1 (λ _. none) (λ _ _. false)

abbrev print : Url → Str
print u = u.host

-- Three ticks, and the probes of the second backend behind each of them.
abbrev silence : List Event
silence =
    ticks
    ∷ no_response
    ∷ ticks
    ∷ probed 3 (λ _. none) (λ _ _. false)
    ∷ ticks
    ∷ probed 5 (λ _. none) (λ _ _. false)
    ∷ []

others : (r : Ref) → r ≢ 1 → str_eq (heap.cell r).id (lit "b") ≡ false
unfolding str_eq
others zero n = refl
others (suc zero) n = absurd (n refl)
others (suc (suc r)) n = refl

run-level_example :
    (let s = run print silence (new_loop heap (new_checker (new_pool refs) default_config)) in
      (count 1 s.started ≤ 3)
      × (get_health s.heap 1 ≡ level default_config (3 - count 1 s.started)))
unfolding Silent
run-level_example =
    run-level print default_config (omega arith) (omega arith) 1 heap (new_pool refs) silence refl
      others (tt, ((refl, refl), (tt, ((refl, refl), (tt, ((refl, refl), tt)))))) (omega arith)

ended :
    count 1 (run print silence (new_loop heap (new_checker (new_pool refs) default_config))).started
    ≡ 0
unfolding run new_checker
ended = refl

run-Silent_example :
    (let s = run print silence (new_loop heap (new_checker (new_pool refs) default_config)) in
      count 1
        (Dispatch.run least_connections two_requests (record quiet { heap = s.heap })).in_flight
      ≤ 0)
unfolding Silent
run-Silent_example =
    run-Silent print default_config (omega arith) (omega arith) least_connections 1 heap
      (new_pool refs) silence quiet two_requests least_connections-PicksMembers refl others
      (tt, ((refl, refl), (tt, ((refl, refl), (tt, ((refl, refl), tt)))))) (omega arith)
      (rw ended (omega arith))

abbrev old_event : Passive.Event
old_event = record { ts = 1000000000; err = true }

abbrev new_event : Passive.Event
new_event = record { ts = 69000000000; err = false }

-- A rate of 30 percent.
abbrev reached : ℕ → ℕ → Bool
reached errs total = leb (3 * total) (10 * errs)

ejected_until_backoff_example :
    (let s = Passive.observe reached 1000000000 true 1 (heap, new_passive_checker default_config) in
      (get_health s.0 1 ≡ unhealthy)
      × (get_health (try_readmit 6000000000 1 s).0 1 ≡ (
          if leb_ℤ
            (backoff_at_eject (lit "b") (new_passive_checker default_config))
            (elapsed 6000000000 1000000000)
          then probation
          else unhealthy)))
unfolding new_passive_checker lookup Passive.record_event Passive.count_errors Passive.trim
    Passive.window_of
ejected_until_backoff_example =
    ejected_until_backoff reached 1000000000 6000000000 true 1 heap
      (new_passive_checker default_config) refl refl

-- Four probes, more than five minutes behind.
abbrev late_probes : List Time
late_probes = 400000000000 ∷ 401000000000 ∷ 402000000000 ∷ 403000000000 ∷ []

probes_recover_example :
    (probes default_config (succeeding late_probes) down).health ≡ Health.healthy
probes_recover_example =
    probes_recover default_config 2 (omega arith) (omega arith) late_probes down 1
      (λ e. absurd (cc (e))) refl (omega arith)
      (omega arith, (omega arith, (omega arith, (omega arith, tt)))) (omega arith) (omega arith)
