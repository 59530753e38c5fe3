-- ===== src/CircuitBreaker/Breaker/Probes.antt =====
-- How many requests pass a half-open breaker.
use gobalancer.Common.{
  ℕ, suc, min, ◌≡◌, refl, sym, ap, ◌∙◌, inl, inr, Bool, true, false, Option, none, some, List, [],
  ◌∷◌, arith, length, replicate, ℤ, ◌≤ℤ◌, rounds, since,
}
use gobalancer.CircuitBreaker.Breaker.{open_state, half_open, Breaker, Event, allows, run, step}
use gobalancer.CircuitBreaker.Breaker.Invariant.{Inv, run-cons}
use gobalancer.CircuitBreaker.Breaker.Calls.{
  allow_due, allow_half_open, take_probe_none, take_probe_some, reached, zero_or_suc,
}

abbrev pub allowing : List ℤ → List Event
allowing [] = []
allowing (t ∷ ts) = allows t ∷ allowing ts

-- The requests that were let through.
abbrev pub admitted : List (Option Bool) → ℕ
admitted [] = 0
admitted (none ∷ as') = admitted as'
admitted (some true ∷ as') = suc (admitted as')
admitted (some false ∷ as') = admitted as'

half_open_none :
    (t : ℤ) (b : Breaker)
    → b.state ≡ half_open
    → b.probe ≡ 0
    → step (allows t) b ≡ some (some false, b)
half_open_none t b s z =
    allow_half_open t b s ∙ ap (λ (p : Bool × Breaker). some (some p.0, p.1)) (take_probe_none b z)

half_open_some :
    (t : ℤ) (b : Breaker) (n : ℕ)
    → b.state ≡ half_open
    → b.probe ≡ suc n
    → step (allows t) b ≡ some (some true, record b { probe = n })
half_open_some t b n s z =
    allow_half_open t b s
    ∙ ap (λ (p : Bool × Breaker). some (some p.0, p.1)) (take_probe_some b n z)

-- The requests return, and this many pass.
abbrev Admits : List ℤ → Breaker → ℕ → Type 0
Admits ts b n =
    (answers : List (Option Bool)) × (c : Breaker) × (run (allowing ts) b ≡ some (answers, c))
    × (admitted answers ≡ n)
    × (c.state ≡ half_open)

half_open-Admits :
    (ts : List ℤ) (b : Breaker) → b.state ≡ half_open → Admits ts b (min b.probe (length ts))
unfolding run
half_open-Admits [] b s = ([], b, refl, omega arith, s)
half_open-Admits (t ∷ ts) b s = elim (zero_or_suc b.probe) [
  | inl z ↦
      let (answers, c, r, a, s') = half_open-Admits ts b s in
      (
        some false ∷ answers,
        c,
        run-cons (allows t) (allowing ts) b b c (some false) answers (half_open_none t b s z) r,
        omega (arith, a, z),
        s',
      )
  | inr (n, z) ↦
      let b' : Breaker = record b { probe = n } in
      let (answers, c, r, a, s') = half_open-Admits ts b' s in
      (
        some true ∷ answers,
        c,
        run-cons (allows t) (allowing ts) b b' c (some true) answers (half_open_some t b n s z) r,
        omega (arith, a, z),
        s',
      )
]

-- From an open breaker with the invariant whose open time is over, of any number of requests in a
-- row, none of which has reported its outcome, each returns and exactly as many pass as the
-- configuration has half-open probes, or all if they are fewer; the breaker then is half-open.
pub probes_admitted :
    (t : ℤ) (ts : List ℤ) (b : Breaker)
    → Inv b
    → b.state ≡ open_state
    → b.open_duration ≤ℤ since t b.opened_at
    → (answers : List (Option Bool)) × (c : Breaker) × (run (allowing (t ∷ ts)) b
        ≡ some (answers, c))
      × (admitted answers ≡ min (rounds b.half_open_probes) (suc (length ts)))
      × (c.state ≡ half_open)
unfolding run
probes_admitted t ts b v s d =
    let (answers, c, r, a, s') = half_open-Admits (t ∷ ts) (reached b) refl in
    let same : step (allows t) b ≡ step (allows t) (reached b) =
      allow_due t b v s d ∙ sym (allow_half_open t (reached b) refl) in
    (answers, c, rw same r, a, s')

-- A half-open breaker without a permit sheds every request and stays as it is, however many
-- requests come and however late.
pub half_open_stuck :
    (ts : List ℤ) (b : Breaker)
    → b.state ≡ half_open
    → b.probe ≡ 0
    → run (allowing ts) b ≡ some (replicate (length ts) (some false), b)
unfolding run
half_open_stuck [] b s z = refl
half_open_stuck (t ∷ ts) b s z =
    run-cons (allows t) (allowing ts) b b b (some false) (replicate (length ts) (some false))
      (half_open_none t b s z) (half_open_stuck ts b s z)
