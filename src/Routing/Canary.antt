-- ===== src/Routing/Canary.antt =====
-- internal/routing/canary.go. A finite `float64` is a fraction; the generator is a parameter, whose
-- `Float64` gives the numerator of a fraction of 2 ^ 53.
use native.Mathlib.Nat.{mul-lt-mul_of_pos_right}
use gobalancer.Common.{
  ℕ, zero, suc, ◌*◌, ◌<◌, ◌≡◌, refl, Bool, true, false, List, [], ◌∷◌, arith, ltb, if◌then◌else◌,
  lt→ltb, ℤ, pos, negsuc, leb_ℤ, Str,
}

pub record Rng : Type 1 where
  pub State : Type 0
  pub float64 : State → ℕ × State

abbrev pub two_53 : ℕ
two_53 = 9007199254740992

-- `Float64` is at least 0 and below 1.
abbrev pub BelowOne : Rng → Type 0
BelowOne rng = (s : rng.State) → (rng.float64 s).0 < two_53

-- `x / 2^53 < numerator / denominator`
unfoldable pub below : ℕ → ℤ → ℕ → Bool
below x (pos n) denominator = ltb (x * denominator) (n * two_53)
below x (negsuc n) denominator = false

below-low : (x d : ℕ) (n : ℤ) → leb_ℤ n (pos 0) ≡ true → below x n d ≡ false
unfolding below
below-low x d (pos zero) h = ground arith
below-low x d (pos (suc n)) h = absurd (ground arith)
below-low x d (negsuc n) h = refl

below-high : (x d : ℕ) (n : ℤ) → x < two_53 → 0 < d → leb_ℤ (pos d) n ≡ true → below x n d ≡ true
unfolding below
below-high x d (pos n) l k h =
    let m : x * d < two_53 * d = mul-lt-mul_of_pos_right l k in
    lt→ltb (x * d) (n * two_53) (ground (arith, m))
below-high x d (negsuc n) l k h = absurd (ground arith)

module _ (rng : Rng) where
  open rng use {State}

  pub record CanaryRouter : Type 0 where
    pub stable_pool : Str
    pub canary_pool : Str
    pub numerator : ℤ
    pub denominator : ℕ
    pub state : State

  -- `seeded` is `rand.New(rand.NewSource(42))`.
  unfoldable pub new_canary_router : State → Str → Str → ℤ → ℕ → CanaryRouter
  new_canary_router seeded stable canary numerator denominator = record {
    stable_pool = stable;
    canary_pool = canary;
    numerator = numerator;
    denominator = denominator;
    state = seeded;
  }

  unfoldable pub route : CanaryRouter → Str × CanaryRouter
  unfolding below
  route c =
      let (x, s) = rng.float64 c.state in
      (
        if below x c.numerator c.denominator then c.canary_pool else c.stable_pool,
        record c { state = s },
      )

  unfoldable pub run : ℕ → CanaryRouter → List Str
  unfolding route
  run zero c = []
  run (suc n) c = let (pool, c') = route c in pool ∷ run n c'

  -- A weight of 0 or less never reaches the canary, and one of 1 or more always does.
  pub route_extremes :
      (c : CanaryRouter)
      → BelowOne rng
      → 0 < c.denominator
      → (leb_ℤ c.numerator (pos 0) ≡ true → (route c).0 ≡ c.stable_pool)
        × (leb_ℤ (pos c.denominator) c.numerator ≡ true → (route c).0 ≡ c.canary_pool)
  unfolding route
  route_extremes c b d = (
    λ h. rw (below-low (rng.float64 c.state).0 c.denominator c.numerator h) refl,
    λ h. rw (below-high (rng.float64 c.state).0 c.denominator c.numerator (b c.state) d h) refl,
  )
