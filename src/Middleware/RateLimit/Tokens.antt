-- ===== src/Middleware/RateLimit/Tokens.antt =====
-- The tokens of one client: how many of its requests pass.
use gobalancer.Common.{
  ℕ, zero, suc, ◌+◌, ◌-◌, ◌≤◌, ◌<◌, min, ◌≡◌, refl, inl, inr, Bool, true, false, List, [], ◌∷◌,
  arith, ltb, if◌then◌else◌, ltb→lt, Bool-cases, ℤ, pos, negsuc, ltb_ℤ, rounds, two_63, add64,
  sub64, wrap64_id, Str, str_eq, lookup-insert, lookup-insert_self,
}
use gobalancer.Middleware.RateLimit.{
  Bucket, RateLimiter, bucket, take_token, refilled, serve, allow,
}

abbrev pub bucket_with : ℕ → ℤ → Bucket
bucket_with n last = record { tokens = pos n; last_refill = last }

add64_pos : (n k : ℕ) → n + k < two_63 → add64 (pos n) (pos k) ≡ pos (n + k)
unfolding add64
add64_pos n k h = ground (arith, wrap64_id (pos (n + k)) (omega arith, omega arith))

sub64_one : (n : ℕ) → suc n < two_63 → sub64 (pos (suc n)) (pos 1) ≡ pos n
unfolding sub64
sub64_one n h = ground (arith, wrap64_id (pos n) (omega arith, omega arith))

take_token_lem :
    (m : ℕ) (last : ℤ)
    → m < two_63
    → take_token (bucket_with m last) ≡ (ltb 0 m, bucket_with (m - 1) last)
unfolding take_token
take_token_lem zero last h = refl
take_token_lem (suc m) last h = rw (sub64_one m h) (ground arith)

capped :
    (burst n : ℕ) (g : ℤ)
    → n ≤ burst
    → burst + rounds g < two_63
    → (if ltb_ℤ (pos 0) g
        then (if ltb_ℤ (pos burst) (add64 (pos n) g) then pos burst else add64 (pos n) g)
        else pos n)
      ≡ pos (min burst (n + rounds g))
capped burst n (pos k) l h = rw (add64_pos n k (omega arith)) (ground arith)
capped burst n (negsuc k) l h = ground arith

-- The calls that passed.
abbrev pub passed : List Bool → ℕ
passed [] = 0
passed (true ∷ as') = suc (passed as')
passed (false ∷ as') = passed as'

module _ (refill : ℤ → ℤ) where
  -- The tokens that a call adds.
  abbrev pub gain : ℤ → ℤ → ℕ
  gain now last = rounds (refill (sub64 now last))

  -- No refill overflows with a full bucket.
  abbrev pub Moderate : ℕ → Type 0
  Moderate burst = (d : ℤ) → burst + rounds (refill d) < two_63

  -- With no more tokens than the burst, and a refill that does not overflow with a full bucket, a
  -- call refills the bucket up to the burst, and passes exactly if there then is a token, which it
  -- takes.
  pub serve_lem :
      (burst n : ℕ) (now last : ℤ)
      → n ≤ burst
      → Moderate burst
      → serve refill (pos burst) now (bucket_with n last) ≡ (
        ltb 0 (min burst (n + gain now last)),
        bucket_with (min burst (n + gain now last) - 1) now,
      )
  unfolding serve refilled
  serve_lem burst n now last l s =
      let full = capped burst n (refill (sub64 now last)) l (s (sub64 now last)) in
      rw full
        (take_token_lem (min burst (n + gain now last)) now (omega (arith, s (sub64 now last))))

  -- The answers to a series of calls, and the bucket behind them.
  unfoldable pub serves : ℤ → List ℤ → Bucket → List Bool × Bucket
  serves burst [] b = ([], b)
  serves burst (t ∷ ts) b =
      let (answer, c) = serve refill burst t b in
      let (answers, d) = serves burst ts c in (answer ∷ answers, d)

  abbrev pub gains : ℤ → List ℤ → ℕ
  gains last [] = 0
  gains last (t ∷ ts) = gain t last + gains t ts

  -- From a bucket with no more tokens than the burst, and with refills that do not overflow with a
  -- full bucket, no more requests of a client pass over a series of calls at whatever times than
  -- the tokens that its bucket held and those that the refills added.
  pub serves_bound :
      (burst n : ℕ) (ts : List ℤ) (last : ℤ)
      → n ≤ burst
      → Moderate burst
      → passed (serves (pos burst) ts (bucket_with n last)).0 ≤ n + gains last ts
  unfolding serves
  serves_bound burst n [] last l s = omega arith
  serves_bound burst n (t ∷ ts) last l s =
      let m : ℕ = min burst (n + gain t last) in
      let rest = serves_bound burst (m - 1) ts t (omega arith) s in
      rw (serve_lem burst n t last l s) (elim (Bool-cases (ltb 0 m)) [
        | inl y ↦ rw y (omega (arith, ltb→lt 0 m y, rest))
        | inr no_token ↦ rw no_token (omega (arith, rest))
      ])

  -- A call of one client is answered by its own bucket, a full one if it is new, and leaves the
  -- bucket of every other client as it is.
  pub allow-serve :
      (now later : ℤ) (ip ip' : Str) (rl : RateLimiter)
      → (let served = serve refill rl.burst now (bucket now ip rl) in
          let rl' = (allow refill now ip rl).1 in
          ((allow refill now ip rl).0 ≡ served.0)
          × (bucket later ip rl' ≡ served.1)
          × (str_eq ip ip' ≡ false → bucket later ip' rl' ≡ bucket later ip' rl))
  unfolding allow bucket
  allow-serve now later ip ip' rl =
      let b : Bucket = (serve refill rl.burst now (bucket now ip rl)).1 in
      (
        refl,
        rw (lookup-insert_self ip b rl.buckets) refl,
        λ n. rw (lookup-insert ip ip' b rl.buckets, n) refl,
      )
