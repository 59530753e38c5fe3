-- ===== src/Health/Checker/Loop/Failover.antt =====
-- internal/health/checker.go with internal/proxy/http.go: where the requests go once a backend has
-- stopped answering the probes.
use gobalancer.Common.{
  ℕ, ◌-◌, ◌*◌, ◌≤◌, ◌<◌, ◌≡◌, refl, ap, ◌∙◌, List, All, count, pos, ◌≤ℤ◌, two_63, Str,
}
use gobalancer.Backend.{Heap, Ref, Url, healthy, unhealthy, get_health, is_healthy_state}
use gobalancer.Pool.{Pool}
use gobalancer.Proxy.Dispatch.{Selecting, Proxy, Step}
use gobalancer.Proxy.Dispatch
use gobalancer.Proxy.Dispatch.Members.{PicksMembers}
use gobalancer.Proxy.Dispatch.Shedding.{run-Sheds}
use gobalancer.Health.{Config, le→leb}
use gobalancer.Health.Checker.{new_checker}
use gobalancer.Health.Checker.Loop.{new_loop, Event, run}
use gobalancer.Health.Checker.Loop.Silence.{Alone, Silent, level}
use gobalancer.Health.Checker.Loop.Detection.{ticked, run-level}

module _ (print : Url → Str) (cfg : Config) (low : pos 1 ≤ℤ cfg.failure_threshold)
    (high : pos 1 ≤ℤ cfg.success_threshold) (selecting : Selecting) where
  -- A healthy backend that stops answering, with an identifier of its own and thresholds that are
  -- positive: once as many of its probes as the failure threshold have ended, of fewer than 2^63 that
  -- were started, and with a selector that picks only from the list that it is given, requests that arrive
  -- and end in any order never raise the number of those at the backend.
  pub run-Silent :
      (q : Ref) (h : Heap) (p : Pool) (es : List Event) (x : Proxy selecting)
      (steps : List (Step selecting))
      → PicksMembers selecting
      → get_health h q ≡ healthy
      → Alone h q
      → All (Silent print cfg (h.cell q).url) es
      → ticked es * count q p.backends < two_63
      → cfg.failure_threshold
        ≤ℤ pos (
            ticked es * count q p.backends
            - count q (run print es (new_loop h (new_checker p cfg))).started)
      → (let s = run print es (new_loop h (new_checker p cfg)) in
          count q (Dispatch.run selecting steps (record x { heap = s.heap })).in_flight
          ≤ count q x.in_flight)
  run-Silent q h p es x steps picks e a silent lt reached =
      let s = run print es (new_loop h (new_checker p cfg)) in
      let d : ℕ = ticked es * count q p.backends - count q s.started in
      let (_, f) = run-level print cfg low high q h p es e a silent lt in
      let down : level cfg d ≡ unhealthy = rw (le→leb cfg.failure_threshold (pos d) reached) refl in
      (run-Sheds selecting q steps (record x { heap = s.heap }) picks
        (ap is_healthy_state (f ∙ down))).fewer
