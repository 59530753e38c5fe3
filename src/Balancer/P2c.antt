-- ===== src/Balancer/P2c.antt =====
-- internal/balancer/p2c.go. The generator of `math/rand` is a state that `Intn` advances.
use gobalancer.Common.{
  ℕ, suc, ◌-◌, ◌≤◌, ◌<◌, ◌≡◌, sym, ◌≢◌, inl, inr, Option, none, some, List, [], ◌∷◌, arith, leb,
  if◌then◌else◌, Bool-cases, length, get_elem?, get_elem?_total, ◌≤ℤ◌, leb_ℤ,
}
use gobalancer.Backend.{Heap, Ref, active_conns}
use gobalancer.Balancer.{Choice, chosen, no_backends, panic}

-- `rand.Rand`: `Intn(n)` is below `n`, as documented for a positive `n`.
pub record Rand : Type 1 where
  pub State : Type 0
  pub intn : State → ℕ → ℕ × State
  pub intn-lt : (s : State) (n : ℕ) → 0 < n → (intn s n).0 < n

-- The comparison of the two candidates, `a` first; a missing one is an index out of range.
unfoldable pub lighter : Heap → Option Ref → Option Ref → Choice
lighter h none b = panic
lighter h (some a) none = panic
lighter h (some a) (some b) =
    if leb_ℤ (active_conns h a) (active_conns h b) then chosen a else chosen b

-- The second position, moved past the first.
abbrev pub skip : ℕ → ℕ → ℕ
skip i j = if leb i j then suc j else j

-- One of two positions, with no more connections than the other.
abbrev pub Lighter : Heap → List Ref → Choice → Type 0
Lighter h bs c =
    (i j : ℕ) × (r : Ref) × (q : Ref) × (i ≢ j)
    × (get_elem? bs i ≡ some r)
    × (get_elem? bs j ≡ some q)
    × (c ≡ chosen r)
    × (active_conns h r ≤ℤ active_conns h q)

lighter-Lighter :
    (h : Heap) (bs : List Ref) (i j : ℕ)
    → i < length bs
    → j < length bs
    → i ≢ j
    → Lighter h bs (lighter h (get_elem? bs i) (get_elem? bs j))
unfolding lighter
lighter-Lighter h bs i j below below' ne =
    let (a, ea) = get_elem?_total bs i below in
    let (b, eb) = get_elem?_total bs j below' in
    rw (ea, eb, lighter)
      (elim (Bool-cases (leb_ℤ (active_conns h a) (active_conns h b))) [
        | inl y ↦ (i, j, a, b, ne, ea, eb, rw y, ground arith)
        | inr n ↦ (j, i, b, a, (λ e. ne (sym e)), eb, ea, rw n, ground arith)
      ])

skip-lt : (i j n : ℕ) → i < suc n → j < n → (skip i j < suc n) × (i ≢ skip i j)
skip-lt i j n h k = (ground arith, ground arith)

module _ (rand : Rand) where
  open rand use {State, intn, intn-lt}

  unfoldable pub next : Heap → State → List Ref → Choice × State
  unfolding lighter
  next h s [] = (no_backends, s)
  next h s (b ∷ []) = (chosen b, s)
  next h s (b ∷ b' ∷ bs) =
      let backends = b ∷ b' ∷ bs in
      let n = length backends in
      let (i, s₁) = intn s n in
      let (j, s₂) = intn s₁ (n - 1) in
      (lighter h (get_elem? backends i) (get_elem? backends (skip i j)), s₂)

  -- With two backends or more, the choice is the backend at one of two different positions, and
  -- the one at the other has no fewer connections.
  pub next-Lighter :
      (h : Heap) (s : State) (bs : List Ref) → 2 ≤ length bs → Lighter h bs (next h s bs).0
  unfolding next
  next-Lighter h s [] l = absurd (omega arith)
  next-Lighter h s (b ∷ []) l = absurd (omega arith)
  next-Lighter h s (b ∷ b' ∷ bs) l =
      let n : ℕ = suc (suc (length bs)) in
      let (i, s₁) = intn s n in
      let j : ℕ = (intn s₁ (n - 1)).0 in
      let below : i < n = intn-lt s n (omega arith) in
      let below' : j < n - 1 = intn-lt s₁ (n - 1) (omega arith) in
      let (fits, apart) = skip-lt i j (suc (length bs)) below (omega arith) in
      lighter-Lighter h (b ∷ b' ∷ bs) i (skip i j) below fits apart
