-- ===== src/Health/Checker/Agreement.antt =====
-- The plain checker and the state machine: the same moves once a backoff has passed.
use gobalancer.Common.{
  ℕ, ◌≡◌, refl, sym, ◌∙◌, ◌≢◌, Bool, true, false, Option, none, some, List, arith, if◌then◌else◌, ℤ,
  pos, ◌≤ℤ◌, leb_ℤ, add64, Str, lit, str_eq, insert, lookup-insert, lookup-insert_self,
}
use gobalancer.Backend.{
  Backend, Heap, Ref, Url, Health, healthy, unhealthy, probation, disabled, get_health, set_health,
}
use gobalancer.Health.{le→leb, Config, Time, elapsed}
use gobalancer.Health.StateMachine.{ProbeState}
use gobalancer.Health.StateMachine
use gobalancer.Health.Checker.{
  Checker, count_of, tally, next_health, store_health, transition, probe_http, probe_tcp, probe,
}

-- With the same counters, the checker stores the health that the state machine stores, if the
-- backend is not unhealthy or its backoff has passed.
pub next_health_agrees :
    (cfg : Config) (now : Time) (s : Health) (ps : ProbeState)
    → (s ≡ unhealthy → ps.backoff ≤ℤ elapsed now ps.unhealthy_since)
    → next_health cfg ps.failures ps.successes s ≡ (StateMachine.transition cfg now s ps).0
unfolding next_health StateMachine.transition
next_health_agrees cfg now healthy ps h = ground arith
next_health_agrees cfg now unhealthy ps h =
    let y : leb_ℤ ps.backoff (elapsed now ps.unhealthy_since) ≡ true =
      le→leb ps.backoff (elapsed now ps.unhealthy_since) (h refl) in
    rw y (ground arith)
next_health_agrees cfg now probation ps h = ground arith
next_health_agrees cfg now disabled ps h = refl

count_of-insert :
    (id id' : Str) (v : ℤ) (m : List (Str × ℤ))
    → str_eq id id' ≡ false
    → count_of id' (insert id v m) ≡ count_of id' m
unfolding count_of
count_of-insert id id' v m n = rw (lookup-insert id id' v m, n) refl

tally_frame :
    (probe_ok : Bool) (id id' : Str) (c : Checker)
    → str_eq id id' ≡ false
    → ((tally probe_ok id c).cfg ≡ c.cfg)
      × (count_of id' (tally probe_ok id c).failures ≡ count_of id' c.failures)
      × (count_of id' (tally probe_ok id c).successes ≡ count_of id' c.successes)
unfolding tally
tally_frame true id id' c n = (refl, count_of-insert _ _ _ _ n, count_of-insert _ _ _ _ n)
tally_frame false id id' c n = (refl, count_of-insert _ _ _ _ n, count_of-insert _ _ _ _ n)

store_health_frame :
    (h : Heap) (r q : Ref) (s : Option Health) → r ≢ q → (store_health h r s).cell q ≡ h.cell q
unfolding set_health
store_health_frame h r q none n = refl
store_health_frame h r q (some s) n = ground (arith, n)

abbrev pub or_same : Health → Option Health → Health
or_same s none = s
or_same s (some s') = s'

store_health_self :
    (h : Heap) (r : Ref) (s : Option Health)
    → get_health (store_health h r s) r ≡ or_same (get_health h r) s
unfolding set_health
store_health_self h r none = refl
store_health_self h r (some s) = ground arith

pub count_of-insert_self : (id : Str) (v : ℤ) (m : List (Str × ℤ)) → count_of id (insert id v m) ≡ v
unfolding count_of
count_of-insert_self id v m = rw (lookup-insert_self id v m) refl

-- The health after a probe, by the backend, its two counters and the outcome.
abbrev pub verdict : Config → Backend → ℤ → ℤ → Bool → Health
unfolding next_health add64
verdict cfg b failures successes true =
    or_same b.health (next_health cfg (pos 0) (add64 successes (pos 1)) b.health)
verdict cfg b failures successes false =
    or_same b.health (next_health cfg (add64 failures (pos 1)) (pos 0) b.health)

pub verdict_failed :
    (cfg : Config) (b : Backend) (failures successes : ℤ)
    → verdict cfg b failures successes false
      ≡ or_same b.health (next_health cfg (add64 failures (pos 1)) (pos 0) b.health)
unfolding next_health verdict
verdict_failed cfg b failures successes = refl

transition-verdict :
    (h : Heap) (c : Checker) (q : Ref) (probe_ok : Bool)
    → get_health (transition q (h, tally probe_ok (h.cell q).id c)) q
      ≡ verdict c.cfg
          (h.cell q)
          (count_of (h.cell q).id c.failures)
          (count_of (h.cell q).id c.successes)
          probe_ok
unfolding transition tally
transition-verdict h c q true =
    store_health_self h q _
    ∙ rw
        (
          count_of-insert_self (h.cell q).id (pos 0) c.failures,
          count_of-insert_self (h.cell q).id (add64 (count_of (h.cell q).id c.successes) (pos 1))
              c.successes,
        )
        refl
transition-verdict h c q false =
    store_health_self h q _
    ∙ rw
        (
          count_of-insert_self (h.cell q).id (pos 0) c.successes,
          count_of-insert_self (h.cell q).id (add64 (count_of (h.cell q).id c.failures) (pos 1))
              c.failures,
        )
        refl

transition_apart :
    (h : Heap) (c : Checker) (r q : Ref) → r ≢ q → (transition r (h, c)).cell q ≡ h.cell q
unfolding transition
transition_apart h c r q n = store_health_frame h r q _ n

module _ (get : Str → Option ℕ) (print : Url → Str) (dial : Str → ℤ → Bool) where
  unfoldable pub outcome : Heap → Ref → Config → Bool
  unfolding probe_http probe_tcp str_eq
  outcome h r cfg =
      if str_eq cfg.mode (lit "tcp")
      then probe_tcp get print dial (h.cell r).url.host cfg.timeout
      else probe_http get print dial h r cfg

  outcome_apart :
      (h h' : Heap) (q : Ref) (cfg : Config)
      → h'.cell q ≡ h.cell q
      → outcome h' q cfg ≡ outcome h q cfg
  unfolding outcome
  outcome_apart h h' q cfg e = rw e refl

  pub probe-verdict :
      (h : Heap) (c : Checker) (q : Ref)
      → get_health (probe get print dial q (h, c)).0 q
        ≡ verdict c.cfg
            (h.cell q)
            (count_of (h.cell q).id c.failures)
            (count_of (h.cell q).id c.successes)
            (outcome h q c.cfg)
  unfolding probe outcome
  probe-verdict h c q = transition-verdict h c q _

  pub probe_frame :
      (h : Heap) (c : Checker) (r q : Ref)
      → r ≢ q
      → str_eq (h.cell r).id (h.cell q).id ≡ false
      → (let s = probe get print dial r (h, c) in
          (s.0.cell q ≡ h.cell q)
          × (s.1.cfg ≡ c.cfg)
          × (count_of (h.cell q).id s.1.failures ≡ count_of (h.cell q).id c.failures)
          × (count_of (h.cell q).id s.1.successes ≡ count_of (h.cell q).id c.successes))
  unfolding probe
  probe_frame h c r q n m =
      let (cfg, failures, successes) = tally_frame _ (h.cell r).id (h.cell q).id c m in
      (transition_apart h (probe get print dial r (h, c)).1 r q n, cfg, failures, successes)

  -- A probe of one backend has no effect on what a probe of another one, with another identifier,
  -- makes of its health.
  pub probe_apart :
      (h : Heap) (c : Checker) (r q : Ref)
      → r ≢ q
      → str_eq (h.cell r).id (h.cell q).id ≡ false
      → get_health (probe get print dial q (probe get print dial r (h, c))).0 q
        ≡ get_health (probe get print dial q (h, c)).0 q
  probe_apart h c r q n m =
      let s = probe get print dial r (h, c) in
      let (cell, cfg, failures, successes) = probe_frame h c r q n m in
      probe-verdict s.0 s.1 q
      ∙ rw (cell, cfg, failures, successes, outcome_apart h s.0 q c.cfg cell) refl
      ∙ sym (probe-verdict h c q)
