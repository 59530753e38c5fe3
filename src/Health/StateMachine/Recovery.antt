-- ===== src/Health/StateMachine/Recovery.antt =====
-- How a backend leaves and regains its health under a series of probes.
use gobalancer.Common.{
  ℕ, ◌<◌, ◌≡◌, refl, sym, ap, subst, inl, inr, Bool, true, false, ◌&&◌, Option, none, some, List,
  [], ◌∷◌, arith, ltb→lt, leb→le, Bool-cases, ℤ, pos, negsuc, ◌≤ℤ◌, ◌<ℤ◌, ltb_ℤ, leb_ℤ, two_63,
  max_int64, add64, add64_one,
}
use gobalancer.Backend.{Health, healthy, unhealthy, probation, disabled}
use gobalancer.Health.{
  le→leb, Config, Time, elapsed, first_backoff, last_backoff, next_backoff, next_backoff_bounds,
}
use gobalancer.Health.StateMachine.{ProbeState, record_probe, transition}

-- The health and the counters of one backend.
pub record Probed : Type 0 where
  pub health : Health
  pub counters : ProbeState

abbrev pub or_same : Health → Option Health → Health
or_same s none = s
or_same s (some s') = s'

-- One observation of the backend: what `observe` does to its health and its counters.
unfoldable pub probe : Config → Time × Bool → Probed → Probed
unfolding record_probe transition
probe cfg (now, probe_ok) p =
    let (s, ps) = transition cfg now p.health (record_probe now probe_ok p.counters) in
    record { health = or_same p.health s; counters = ps }

unfoldable pub probes : Config → List (Time × Bool) → Probed → Probed
unfolding probe
probes cfg [] p = p
probes cfg (e ∷ es) p = probes cfg es (probe cfg e p)

-- The backoff lies between five seconds and five minutes.
pub record Bounded (ps : ProbeState) : Type 0 where
  pub at_least : first_backoff ≤ℤ ps.backoff
  pub at_most : ps.backoff ≤ℤ last_backoff

record_probe-backoff :
    (now : Time) (probe_ok : Bool) (ps : ProbeState)
    → (record_probe now probe_ok ps).backoff ≡ ps.backoff
unfolding record_probe
record_probe-backoff now true ps = refl
record_probe-backoff now false ps = refl

transition-Bounded :
    (cfg : Config) (now : Time) (s : Health) (ps : ProbeState)
    → Bounded ps
    → Bounded (transition cfg now s ps).1
unfolding transition
transition-Bounded cfg now healthy ps v =
    elim (Bool-cases (leb_ℤ cfg.failure_threshold ps.failures)) [
      | inl y ↦ rw y (v)
      | inr n ↦ rw n (v)
    ]
transition-Bounded cfg now unhealthy ps v =
    elim (Bool-cases (
      leb_ℤ ps.backoff (elapsed now ps.unhealthy_since)
      && leb_ℤ cfg.success_threshold ps.successes)) [
        | inl y ↦
            let (a, b, c) = next_backoff_bounds ps.backoff v.at_least v.at_most in
            rw y (record { at_least = a; at_most = b })
        | inr n ↦ rw n (v)
      ]
transition-Bounded cfg now probation ps v = elim (Bool-cases (ltb_ℤ (pos 0) ps.failures)) [
  | inl y ↦ rw y (record { at_least = v.at_least; at_most = v.at_most })
  | inr n ↦ elim (Bool-cases (leb_ℤ cfg.success_threshold ps.successes)) [
    | inl y ↦ rw (n, y) (record { at_least = omega arith; at_most = omega arith })
    | inr m ↦ rw (n, m) (v)
  ]
]
transition-Bounded cfg now disabled ps v = v

probe-Bounded :
    (cfg : Config) (e : Time × Bool) (p : Probed)
    → Bounded p.counters
    → Bounded (probe cfg e p).counters
unfolding probe
probe-Bounded cfg (now, probe_ok) p v =
    let ps = record_probe now probe_ok p.counters in
    let e = sym (record_probe-backoff now probe_ok p.counters) in
    let v' : Bounded ps = record {
      at_least = subst (λ b. first_backoff ≤ℤ b) e v.at_least;
      at_most = subst (λ b. b ≤ℤ last_backoff) e v.at_most;
    } in
    transition-Bounded cfg now p.health ps v'

-- From a backoff between five seconds and five minutes, it lies between them after every series of
-- probes.
pub probes-Bounded :
    (cfg : Config) (es : List (Time × Bool)) (p : Probed)
    → Bounded p.counters
    → Bounded (probes cfg es p).counters
unfolding probes
probes-Bounded cfg [] p v = v
probes-Bounded cfg (e ∷ es) p v = probes-Bounded cfg es (probe cfg e p) (probe-Bounded cfg e p v)

-- The moves of the health that the documentation of the state machine draws, with their guards.
pub data Edge (cfg : Config) (now : Time) (ps : ProbeState) : Health → Health → Type 0 where
  stays : {s : Health} → Edge cfg now ps s s
  fails : cfg.failure_threshold ≤ℤ ps.failures → Edge cfg now ps healthy unhealthy
  is_tried :
      ps.backoff ≤ℤ elapsed now ps.unhealthy_since
      → cfg.success_threshold ≤ℤ ps.successes
      → Edge cfg now ps unhealthy probation
  relapses : pos 0 <ℤ ps.failures → Edge cfg now ps probation unhealthy
  recovers :
      ps.failures ≤ℤ pos 0
      → cfg.success_threshold ≤ℤ ps.successes
      → Edge cfg now ps probation healthy

transition-Edge :
    (cfg : Config) (now : Time) (s : Health) (ps : ProbeState)
    → Edge cfg now ps s (or_same s (transition cfg now s ps).0)
unfolding transition
transition-Edge cfg now healthy ps = elim (Bool-cases (leb_ℤ cfg.failure_threshold ps.failures)) [
  | inl y ↦ rw y (Edge.fails (leb→le _ _ y))
  | inr n ↦ rw n (Edge.stays)
]
transition-Edge cfg now unhealthy ps =
    elim (Bool-cases (leb_ℤ ps.backoff (elapsed now ps.unhealthy_since))) [
      | inl y ↦ elim (Bool-cases (leb_ℤ cfg.success_threshold ps.successes)) [
        | inl z ↦ rw (y, z) (Edge.is_tried (leb→le _ _ y) (leb→le _ _ z))
        | inr n ↦ rw (y, n) (Edge.stays)
      ]
      | inr n ↦ rw n (Edge.stays)
    ]
transition-Edge cfg now probation ps = elim (Bool-cases (ltb_ℤ (pos 0) ps.failures)) [
  | inl y ↦ rw y (Edge.relapses (ltb→lt _ _ y))
  | inr n ↦ elim (Bool-cases (leb_ℤ cfg.success_threshold ps.successes)) [
    | inl y ↦ rw (n, y) (Edge.recovers (ground arith) (leb→le _ _ y))
    | inr m ↦ rw (n, m) (Edge.stays)
  ]
]
transition-Edge cfg now disabled ps = Edge.stays

-- One probe keeps the health or moves it along one edge, whose guard holds for the counters with
-- that probe counted.
pub probe-Edge :
    (cfg : Config) (now : Time) (probe_ok : Bool) (p : Probed)
    → Edge cfg now
        (record_probe now probe_ok p.counters)
        p.health
        (probe cfg (now, probe_ok) p).health
unfolding probe
probe-Edge cfg now probe_ok p =
    transition-Edge cfg now p.health (record_probe now probe_ok p.counters)

tried :
    (cfg : Config) (now : Time) (s : Health) (ps : ProbeState)
    → s ≡ unhealthy
    → or_same s (transition cfg now s ps).0 ≡ probation
    → (cfg.success_threshold ≤ℤ ps.successes)
      × ((transition cfg now s ps).1
          ≡ (record ps { backoff = next_backoff ps.backoff; unhealthy_since = 0 }))
unfolding transition
tried cfg now healthy ps s e = absurd (cc)
tried cfg now probation ps s e = absurd (cc)
tried cfg now disabled ps s e = absurd (cc)
tried cfg now unhealthy ps s e =
    elim (Bool-cases (
      leb_ℤ ps.backoff (elapsed now ps.unhealthy_since)
      && leb_ℤ cfg.success_threshold ps.successes)) [
        | inl y ↦ (ground arith, rw y refl)
        | inr n ↦ absurd (cc (ap (λ x. x) (rw n at e)))
      ]

count_up :
    (c : ℤ) (k : ℕ)
    → pos 0 ≤ℤ c
    → c <ℤ pos k
    → k < two_63
    → (c ≤ℤ add64 c (pos 1)) × (pos 0 ≤ℤ add64 c (pos 1)) × (add64 c (pos 1) ≤ℤ pos k)
count_up (pos n) k low high h =
    rw (add64_one n (omega arith)) (omega arith, omega arith, omega arith)
count_up (negsuc n) k low high h = absurd (omega arith)

one_more :
    (cfg : Config) (now : Time) (s : Health) (ps : ProbeState)
    → s ≡ probation
    → cfg.success_threshold ≤ℤ ps.successes
    → pos 0 ≤ℤ ps.successes
    → ps.successes <ℤ max_int64
    → or_same s (transition cfg now s (record_probe now true ps)).0 ≡ healthy
unfolding transition record_probe
one_more cfg now healthy ps s t low high = absurd (cc)
one_more cfg now unhealthy ps s t low high = absurd (cc)
one_more cfg now disabled ps s t low high = absurd (cc)
one_more cfg now probation ps s t low high =
    let (more, _, _) = count_up ps.successes 9223372036854775807 low high (omega arith) in
    let y = le→leb cfg.success_threshold (add64 ps.successes (pos 1)) (omega (arith, more, t)) in
    rw y refl

-- A backend that a successful probe takes from unhealthy to probation is taken from there to
-- healthy by one more successful probe, whatever the threshold, as long as the counter of
-- successes is not negative and below 2^63 - 2: the successes that ended the backoff still count.
pub probation_one_success :
    (cfg : Config) (now later : Time) (p : Probed)
    → p.health ≡ unhealthy
    → pos 0 ≤ℤ p.counters.successes
    → p.counters.successes <ℤ pos 9223372036854775806
    → (probe cfg (now, true) p).health ≡ probation
    → (probe cfg (later, true) (probe cfg (now, true) p)).health ≡ healthy
unfolding probe record_probe transition
probation_one_success cfg now later p s low high e =
    let ps = record_probe now true p.counters in
    let (t, same) = tried cfg now p.health ps s e in
    let more : (transition cfg now p.health ps).1.successes ≡ add64 p.counters.successes (pos 1) =
      ap (λ x. x.successes) same in
    let (_, up, top) = count_up p.counters.successes 9223372036854775806 low high (omega arith) in
    one_more cfg later _ (transition cfg now p.health ps).1 e (rw more t) (rw more up)
      (rw more (omega arith))
