-- ===== src/Health/Checker/Loop/Silence.antt =====
-- internal/health/checker.go: the probes of a backend that does not answer.
use gobalancer.Common.{
  ℕ, suc, ◌<◌, ◌≡◌, refl, sym, ap, subst, ◌∙◌, ◌≢◌, inl, inr, Bool, true, false, Option, none, some,
  ◌++◌, arith, if◌then◌else◌, Bool-cases, ℤ, pos, ◌≤ℤ◌, leb_ℤ, two_63, add64, add64_one, Str,
  str_eq, lookup,
}
use native.Mathlib.Decide.{ℕ_discrete}
use mathlib.Core.Path.{ap₂}
use gobalancer.Backend.{Heap, Ref, Url, update, Health, healthy, unhealthy, get_health, set_health}
use gobalancer.Pool.{Pool}
use gobalancer.Health.{Config}
use gobalancer.Health.Checker.{
  Checker, new_checker, count_of, tally, next_health, store_health, transition, probe_http,
  probe_tcp, probe, below_500,
}
use gobalancer.Health.Checker.Agreement.{
  outcome, verdict_failed, probe-verdict, probe_frame, count_of-insert_self, or_same,
}
use gobalancer.Health.Checker.Loop.{Event, ticks, cancelled, probed}

-- Every other backend has another identifier.
abbrev pub Alone : Heap → Ref → Type 0
Alone h q = (r : Ref) → r ≢ q → str_eq (h.cell r).id (h.cell q).id ≡ false

store_health_named :
    (h : Heap) (r q : Ref) (s : Option Health)
    → (((store_health h r s).cell q).id ≡ (h.cell q).id)
      × (((store_health h r s).cell q).url ≡ (h.cell q).url)
unfolding set_health
store_health_named h r q none = (refl, refl)
store_health_named h r q (some s) = elim (ℕ_discrete q r) [
  | yes e ↦
      subst
        (λ x.
          ((update h.cell r (record (h.cell r) { health = s }) x).id ≡ (h.cell x).id)
          × ((update h.cell r (record (h.cell r) { health = s }) x).url ≡ (h.cell x).url))
        (sym e) (ground arith, ground arith)
  | no n ↦ (ground (arith, n), ground (arith, n))
]

tally_pool : (probe_ok : Bool) (id : Str) (c : Checker) → (tally probe_ok id c).pool ≡ c.pool
unfolding tally
tally_pool true id c = refl
tally_pool false id c = refl

module _ (get : Str → Option ℕ) (print : Url → Str) (dial : Str → ℤ → Bool) where
  probe_named :
      (h : Heap) (c : Checker) (r q : Ref)
      → (((probe get print dial r (h, c)).0.cell q).id ≡ (h.cell q).id)
        × (((probe get print dial r (h, c)).0.cell q).url ≡ (h.cell q).url)
  unfolding probe transition
  probe_named h c r q = store_health_named h r q _

  pub probe_pool :
      (h : Heap) (c : Checker) (r : Ref) → (probe get print dial r (h, c)).1.pool ≡ c.pool
  unfolding probe
  probe_pool h c r = tally_pool _ (h.cell r).id c

  -- What a probe without an answer leaves of the counters.
  probe_failed :
      (h : Heap) (c : Checker) (q : Ref)
      → outcome get print dial h q c.cfg ≡ false
      → (let c' = (probe get print dial q (h, c)).1 in
          (c'.cfg ≡ c.cfg)
          × (count_of (h.cell q).id c'.failures ≡ add64 (count_of (h.cell q).id c.failures) (pos 1))
          × (count_of (h.cell q).id c'.successes ≡ pos 0))
  unfolding probe outcome tally
  probe_failed h c q o = rw o (
    refl,
    count_of-insert_self (h.cell q).id _ c.failures,
    count_of-insert_self (h.cell q).id _ c.successes,
  )

-- No request gets an answer below 500 from the backend, and no dial succeeds there.
unfoldable pub Silent : (Url → Str) → Config → Url → Event → Type 0
Silent print cfg u ticks = Unit {0}
Silent print cfg u cancelled = Unit {0}
Silent print cfg u (probed i get dial) =
    (below_500 get print dial (get (print u ++ cfg.path)) ≡ false)
    × (dial u.host cfg.timeout ≡ false)

-- The health after so many failures in a row.
abbrev pub level : Config → ℕ → Health
level cfg n = if leb_ℤ cfg.failure_threshold (pos n) then unhealthy else healthy

level_next :
    (cfg : Config)
    → pos 1 ≤ℤ cfg.success_threshold
    → (n : ℕ)
    → or_same (level cfg n) (next_health cfg (pos (suc n)) (pos 0) (level cfg n))
      ≡ level cfg (suc n)
unfolding next_health
level_next cfg high n = elim (Bool-cases (leb_ℤ cfg.failure_threshold (pos n))) [
  | inl y ↦ rw y (ground (arith, y, high))
  | inr m ↦ rw m (ground (arith, m))
]

-- The backend `q` with the URL `u` has failed `n` times.
pub record Failed (cfg : Config) (q : Ref) (u : Url) (n : ℕ) (h : Heap) (c : Checker) : Type 0 where
  pub same : c.cfg ≡ cfg
  pub url : (h.cell q).url ≡ u
  pub alone : Alone h q
  pub failures : count_of (h.cell q).id c.failures ≡ pos n
  pub successes : count_of (h.cell q).id c.successes ≡ pos 0
  pub health : get_health h q ≡ level cfg n

module _ (print : Url → Str) (cfg : Config) (high : pos 1 ≤ℤ cfg.success_threshold) (q : Ref)
    (u : Url) (i : ℕ) (get : Str → Option ℕ) (dial : Str → ℤ → Bool)
    (silent : Silent print cfg u (probed i get dial)) where
  no_answer :
      (n : ℕ) (h : Heap) (c : Checker)
      → Failed cfg q u n h c
      → outcome get print dial h q c.cfg ≡ false
  unfolding outcome probe_http probe_tcp Silent
  no_answer n h c f = rw (f.same, f.url, silent.0, silent.1) (ground arith)

  probe-Alone :
      (h : Heap) (c : Checker) (r : Ref) → Alone h q → Alone (probe get print dial r (h, c)).0 q
  probe-Alone h c r a x n =
      ap₂ str_eq (probe_named get print dial h c r x).0 (probe_named get print dial h c r q).0
      ∙ a x n

  pub probe_self :
      (n : ℕ) (h : Heap) (c : Checker)
      → suc n < two_63
      → Failed cfg q u n h c
      → (let s = probe get print dial q (h, c) in Failed cfg q u (suc n) s.0 s.1)
  probe_self n h c l f =
      let c' : Checker = (probe get print dial q (h, c)).1 in
      let (same, failures, successes) = probe_failed get print dial h c q (no_answer n h c f) in
      let (id, url) = probe_named get print dial h c q q in
      record {
        same = same ∙ f.same;
        url = url ∙ f.url;
        alone = probe-Alone h c q f.alone;
        failures =
            ap (λ j. count_of j c'.failures) id
            ∙ failures
            ∙ ap (λ k. add64 k (pos 1)) f.failures
            ∙ add64_one n l;
        successes = ap (λ j. count_of j c'.successes) id ∙ successes;
        health =
            probe-verdict get print dial h c q
            ∙ rw (no_answer n h c f, f.same, f.failures)
                (verdict_failed cfg (h.cell q) (pos n) (count_of (h.cell q).id c.successes)
                  ∙ ap₂ (λ k s. or_same s (next_health cfg k (pos 0) s)) (add64_one n l) f.health
                  ∙ level_next cfg high n);
      }

  pub probe_other :
      (n : ℕ) (h : Heap) (c : Checker) (r : Ref)
      → r ≢ q
      → Failed cfg q u n h c
      → (let s = probe get print dial r (h, c) in Failed cfg q u n s.0 s.1)
  probe_other n h c r d f =
      let c' : Checker = (probe get print dial r (h, c)).1 in
      let (cell, same, failures, successes) = probe_frame get print dial h c r q d (f.alone r d) in
      record {
        same = same ∙ f.same;
        url = ap (λ b. b.url) cell ∙ f.url;
        alone = probe-Alone h c r f.alone;
        failures = ap (λ b. count_of b.id c'.failures) cell ∙ failures ∙ f.failures;
        successes = ap (λ b. count_of b.id c'.successes) cell ∙ successes ∙ f.successes;
        health = ap (λ b. b.health) cell ∙ f.health;
      }

pub new-Failed :
    (cfg : Config) (q : Ref) (h : Heap) (p : Pool)
    → pos 1 ≤ℤ cfg.failure_threshold
    → get_health h q ≡ healthy
    → Alone h q
    → Failed cfg q (h.cell q).url 0 h (new_checker p cfg)
unfolding new_checker count_of lookup
new-Failed cfg q h p low e a =
    let few : leb_ℤ cfg.failure_threshold (pos 0) ≡ false = ground (arith, low) in
    record {
      same = refl;
      url = refl;
      alone = a;
      failures = refl;
      successes = refl;
      health = e ∙ rw few refl;
    }
