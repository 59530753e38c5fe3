-- ===== src/Health/Checker.antt =====
-- internal/health/checker.go: a probe of one backend, which is one step.
pub mod Agreement
pub mod Loop
use gobalancer.Common.{
  ℕ, ◌+◌, Bool, true, false, Option, none, some, List, [], ◌∷◌, ◌++◌, ltb, if◌then◌else◌, ℤ, pos,
  ltb_ℤ, leb_ℤ, add64, Str, lit, str_eq, lookup, insert,
}
use gobalancer.Backend.{
  Heap, Ref, Url, Health, healthy, unhealthy, probation, disabled, get_health, set_health,
}
use gobalancer.Pool.{Pool}
use gobalancer.Health.{Config}

pub record Checker : Type 0 where
  pub pool : Pool
  pub cfg : Config
  pub failures : List (Str × ℤ)  -- int
  pub successes : List (Str × ℤ)  -- int

unfoldable pub new_checker : Pool → Config → Checker
new_checker pool cfg = record { pool = pool; cfg = cfg; failures = []; successes = [] }

abbrev or_zero : Option ℤ → ℤ
or_zero none = pos 0
or_zero (some n) = n

unfoldable pub count_of : Str → List (Str × ℤ) → ℤ
unfolding lookup
count_of id m = or_zero (lookup id m)

unfoldable pub tally : Bool → Str → Checker → Checker
unfolding count_of insert add64
tally true id c = record c {
  failures = insert id (pos 0) c.failures;
  successes = insert id (add64 (count_of id c.successes) (pos 1)) c.successes;
}
tally false id c = record c {
  successes = insert id (pos 0) c.successes;
  failures = insert id (add64 (count_of id c.failures) (pos 1)) c.failures;
}

-- The `switch` of `transition` on the current health, with the two counters: the health that is
-- stored, if any.
unfoldable pub next_health : Config → ℤ → ℤ → Health → Option Health
next_health cfg failures successes healthy =
    if leb_ℤ cfg.failure_threshold failures then some unhealthy else none
next_health cfg failures successes unhealthy =
    if leb_ℤ cfg.success_threshold successes then some probation else none
next_health cfg failures successes probation =
    if ltb_ℤ (pos 0) failures
    then some unhealthy
    else if leb_ℤ cfg.success_threshold successes
    then some healthy
    else none
next_health cfg failures successes disabled = none

abbrev pub store_health : Heap → Ref → Option Health → Heap
unfolding set_health
store_health h r none = h
store_health h r (some s) = set_health h r s

unfoldable pub transition : Ref → Heap × Checker → Heap
unfolding next_health count_of
transition r (h, c) =
    let id = (h.cell r).id in
    store_health h r
      (next_health c.cfg (count_of id c.failures) (count_of id c.successes) (get_health h r))

-- `get` is `http.Client.Get`, the status or `none` for an error; `print` is `URL.String`;
-- `dial` is `net.DialTimeout` without error.
module _ (get : Str → Option ℕ) (print : Url → Str) (dial : Str → ℤ → Bool) where
  abbrev below_500 : Option ℕ → Bool
  below_500 none = false
  below_500 (some status) = ltb status 500

  unfoldable pub probe_http : Heap → Ref → Config → Bool
  probe_http h r cfg = below_500 (get (print (h.cell r).url ++ cfg.path))

  unfoldable pub probe_tcp : Str → ℤ → Bool
  probe_tcp addr timeout = dial addr timeout

  unfoldable pub probe : Ref → Heap × Checker → Heap × Checker
  unfolding probe_http probe_tcp tally transition str_eq
  probe r (h, c) =
      let probe_ok =
        (if str_eq c.cfg.mode (lit "tcp")
          then probe_tcp (h.cell r).url.host c.cfg.timeout
          else probe_http h r c.cfg) in
      let c' = tally probe_ok (h.cell r).id c in (transition r (h, c'), c')

  -- The probes of one tick, in the order in which they run.
  unfoldable pub probes : List Ref → Heap × Checker → Heap × Checker
  unfolding probe
  probes [] s = s
  probes (r ∷ rs) s = probes rs (probe r s)
