-- ===== src/Health/StateMachine.antt =====
-- internal/health/statemachine.go. The locks make `Observe` one step, at one time.
pub mod Recovery
pub mod Liveness
pub mod Refinement
use gobalancer.Common.{
  Bool, true, false, ◌&&◌, Option, none, some, List, [], ◌==◌, if◌then◌else◌, ℤ, pos, ltb_ℤ, leb_ℤ,
  add64, Str, lookup, insert,
}
use gobalancer.Backend.{
  Heap, Ref, Health, healthy, unhealthy, probation, disabled, get_health, set_health,
}
use gobalancer.Health.{Config, Time, elapsed, first_backoff, next_backoff}

pub record ProbeState : Type 0 where
  pub failures : ℤ  -- int
  pub successes : ℤ  -- int
  pub unhealthy_since : Time
  pub backoff : ℤ  -- time.Duration

unfoldable pub new_probe_state : ProbeState
new_probe_state = record {
  failures = pos 0;
  successes = pos 0;
  unhealthy_since = 0;
  backoff = first_backoff;
}

unfoldable pub record_probe : Time → Bool → ProbeState → ProbeState
unfolding add64
record_probe now true ps = record ps { failures = pos 0; successes = add64 ps.successes (pos 1) }
record_probe now false ps = record ps {
  successes = pos 0;
  failures = add64 ps.failures (pos 1);
  unhealthy_since = if ps.unhealthy_since == 0 then now else ps.unhealthy_since;
}

-- The `switch` on the current health: the health that is stored, if any, and the new counters.
unfoldable pub transition : Config → Time → Health → ProbeState → Option Health × ProbeState
unfolding next_backoff
transition cfg now healthy ps =
    if leb_ℤ cfg.failure_threshold ps.failures then (some unhealthy, ps) else (none, ps)
transition cfg now unhealthy ps =
    if leb_ℤ ps.backoff (elapsed now ps.unhealthy_since) && leb_ℤ cfg.success_threshold ps.successes
    then (some probation, record ps { backoff = next_backoff ps.backoff; unhealthy_since = 0 })
    else (none, ps)
transition cfg now probation ps =
    if ltb_ℤ (pos 0) ps.failures
    then (some unhealthy, record ps { unhealthy_since = now })
    else if leb_ℤ cfg.success_threshold ps.successes
    then (some healthy, record ps { backoff = first_backoff })
    else (none, ps)
transition cfg now disabled ps = (none, ps)

pub record StateMachine : Type 0 where
  pub cfg : Config
  pub states : List (Str × ProbeState)

unfoldable pub new_state_machine : Config → StateMachine
new_state_machine cfg = record { cfg = cfg; states = [] }

abbrev pub or_new : Option ProbeState → ProbeState
unfolding new_probe_state
or_new none = new_probe_state
or_new (some ps) = ps

-- `state`: the counters of a backend, new ones for an unknown identifier.
unfoldable pub state_of : StateMachine → Str → ProbeState
unfolding lookup new_probe_state
state_of sm id = or_new (lookup id sm.states)

abbrev pub store_health : Heap → Ref → Option Health → Heap
store_health h r none = h
store_health h r (some s) = set_health h r s

unfoldable pub observe : Time → Bool → Ref → Heap × StateMachine → Heap × StateMachine
unfolding record_probe transition state_of insert set_health
observe now probe_ok r (h, sm) =
    let id = (h.cell r).id in
    let (s, ps) =
      transition sm.cfg now (get_health h r) (record_probe now probe_ok (state_of sm id)) in
    (store_health h r s, record sm { states = insert id ps sm.states })
