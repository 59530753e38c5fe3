-- ===== src/Middleware/RateLimit/Clients.antt =====
-- internal/middleware/ratelimit.go: a client among others, between two ticks of the cleanup.
use gobalancer.Common.{
  ℕ, ◌+◌, ◌≤◌, ◌≡◌, refl, sym, subst, ◌∙◌, inl, inr, Bool, false, List, [], ◌∷◌, arith,
  if◌then◌else◌, Bool-cases, ℤ, pos, Str, str_eq, str_eq_iff,
}
use mathlib.Core.Path.{ap₂}
use gobalancer.Middleware.RateLimit.{Bucket, RateLimiter, new_rate_limiter, bucket, serve, allow}
use gobalancer.Middleware.RateLimit.Tokens.{
  passed, gains, Moderate, serves, serves_bound, allow-serve,
}

-- The times of the calls of a client.
abbrev pub times_of : Str → List (ℤ × Str) → List ℤ
times_of ip [] = []
times_of ip ((t, ip') ∷ cs) = let rest = times_of ip cs in if str_eq ip' ip then t ∷ rest else rest

module _ (refill : ℤ → ℤ) where
  -- The answers to the calls of a client, in a series of calls of any clients.
  unfoldable pub answers_to : Str → List (ℤ × Str) → RateLimiter → List Bool
  answers_to ip [] rl = []
  answers_to ip ((t, ip') ∷ cs) rl =
      let (answer, rl') = allow refill t ip' rl in
      let rest = answers_to ip cs rl' in if str_eq ip' ip then answer ∷ rest else rest

  -- The tokens that refills add from the first call on.
  abbrev pub gains_from_first : List ℤ → ℕ
  gains_from_first [] = 0
  gains_from_first (t ∷ ts) = gains refill t (t ∷ ts)

  module _ (ip : Str) (burst : ℤ) where
    -- The client has this bucket.
    Holds : Bucket → RateLimiter → Type 0
    Holds b rl = (rl.burst ≡ burst) × ((t : ℤ) → bucket t ip rl ≡ b)

    -- The client has no bucket yet.
    Unknown : RateLimiter → Type 0
    Unknown rl =
        (rl.burst ≡ burst) × ((t : ℤ) → bucket t ip rl ≡ record { tokens = burst; last_refill = t })

    own_call :
        (t : ℤ) (rl : RateLimiter) (b : Bucket)
        → rl.burst ≡ burst
        → bucket t ip rl ≡ b
        → ((allow refill t ip rl).0 ≡ (serve refill burst t b).0)
          × Holds (serve refill burst t b).1 (allow refill t ip rl).1
    unfolding Holds allow
    own_call t rl b same e =
        let answer = allow-serve refill t t ip ip rl in
        (
          answer.0 ∙ ap₂ (λ c k. (serve refill c t k).0) same e,
          (
            same,
            λ t'. (allow-serve refill t t' ip ip rl).1 ∙ ap₂ (λ c k. (serve refill c t k).1) same e,
          ),
        )

    other_call :
        (t t' : ℤ) (ip' : Str) (rl : RateLimiter)
        → str_eq ip' ip ≡ false
        → bucket t' ip (allow refill t ip' rl).1 ≡ bucket t' ip rl
    other_call t t' ip' rl n = (allow-serve refill t t' ip' ip rl).2 n

    allow_burst :
        (t : ℤ) (ip' : Str) (rl : RateLimiter) → (allow refill t ip' rl).1.burst ≡ rl.burst
    unfolding allow
    allow_burst t ip' rl = refl

    -- What a client is answered depends on its own bucket and its own calls.
    answers_to-serves :
        (cs : List (ℤ × Str)) (rl : RateLimiter) (b : Bucket)
        → Holds b rl
        → answers_to ip cs rl ≡ (serves refill burst (times_of ip cs) b).0
    unfolding answers_to serves Holds
    answers_to-serves [] rl b h = refl
    answers_to-serves ((t, ip') ∷ cs) rl b (same, h) = elim (Bool-cases (str_eq ip' ip)) [
      | inl y ↦
          let (answer, held) = own_call t rl b same (h t) in
          rw y (
            subst
              (λ j.
                (allow refill t j rl).0 ∷ answers_to ip cs (allow refill t j rl).1
                ≡ (serves refill burst (t ∷ times_of ip cs) b).0)
              (sym ((str_eq_iff ip' ip).0 y)) (ap₂ ◌∷◌ answer (answers_to-serves cs _ _ held)))
      | inr n ↦ rw n (
          answers_to-serves cs _ b
            (allow_burst t ip' rl ∙ same, λ t'. other_call t t' ip' rl n ∙ h t'))
    ]

    from_first : List ℤ → List Bool
    from_first [] = []
    from_first (t ∷ ts) =
        (serves refill burst (t ∷ ts) (record { tokens = burst; last_refill = t })).0

    answers_to-Unknown :
        (cs : List (ℤ × Str)) (rl : RateLimiter)
        → Unknown rl
        → answers_to ip cs rl ≡ from_first (times_of ip cs)
    unfolding answers_to Unknown from_first serves
    answers_to-Unknown [] rl h = refl
    answers_to-Unknown ((t, ip') ∷ cs) rl (same, h) = elim (Bool-cases (str_eq ip' ip)) [
      | inl y ↦
          let (answer, held) = own_call t rl _ same (h t) in
          rw y (
            subst
              (λ j.
                (allow refill t j rl).0 ∷ answers_to ip cs (allow refill t j rl).1
                ≡ from_first (t ∷ times_of ip cs))
              (sym ((str_eq_iff ip' ip).0 y)) (ap₂ ◌∷◌ answer (answers_to-serves cs _ _ held)))
      | inr n ↦ rw n (
          answers_to-Unknown cs _
            (allow_burst t ip' rl ∙ same, λ t'. other_call t t' ip' rl n ∙ h t'))
    ]

  from_first_bound :
      (ip : Str) (burst : ℕ) (ts : List ℤ)
      → Moderate refill burst
      → passed (from_first ip (pos burst) ts) ≤ burst + gains_from_first ts
  unfolding from_first
  from_first_bound ip burst [] s = omega arith
  from_first_bound ip burst (t ∷ ts) s = serves_bound refill burst burst (t ∷ ts) t (omega arith) s

  -- With refills that do not overflow with a full bucket: whatever calls other clients make in between,
  -- and whatever the times, no more calls of a client pass a new limiter than the burst and the tokens
  -- that refills have added from its first call on.
  pub passed-answers_to :
      (ip : Str) (burst : ℕ) (cs : List (ℤ × Str))
      → Moderate refill burst
      → passed (answers_to ip cs (new_rate_limiter (pos burst)))
        ≤ burst + gains_from_first (times_of ip cs)
  unfolding new_rate_limiter bucket Unknown
  passed-answers_to ip burst cs s =
      subst (λ answers. passed answers ≤ burst + gains_from_first (times_of ip cs))
        (sym
          (answers_to-Unknown ip (pos burst) cs (new_rate_limiter (pos burst)) (refl, λ t. refl)))
        (from_first_bound ip burst (times_of ip cs) s)
