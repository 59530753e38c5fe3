-- ===== src/Middleware/RateLimit.antt =====
-- internal/middleware/ratelimit.go. A call is one step, at one time in Unix nanoseconds; a bucket that
-- it makes gets that time, too.
pub mod Tokens
pub mod Clients
use gobalancer.Common.{
  ℕ, ◌-◌, Bool, true, false, not, Option, none, some, List, [], ◌∷◌, if◌then◌else◌, take, ℤ, pos,
  ◌-ℤ◌, ltb_ℤ, leb_ℤ, add64, sub64, Str, lit, is_empty, last_index_byte, lookup, insert,
}
use gobalancer.Http.{Request, header_get}

pub record Bucket : Type 0 where
  pub tokens : ℤ  -- int64
  pub last_refill : ℤ  -- int64

pub record RateLimiter : Type 0 where
  pub burst : ℤ  -- int64
  pub buckets : List (Str × Bucket)

unfoldable pub new_rate_limiter : ℤ → RateLimiter
new_rate_limiter burst = record { burst = burst; buckets = [] }

abbrev or_full : ℤ → ℤ → Option Bucket → Bucket
or_full burst now none = record { tokens = burst; last_refill = now }
or_full burst now (some b) = b

-- `bucket`: the client's bucket, a full one for a new client.
unfoldable pub bucket : ℤ → Str → RateLimiter → Bucket
unfolding lookup
bucket now ip rl = or_full rl.burst now (lookup ip rl.buckets)

-- The loop with the compare-and-swap, which succeeds at once within one step.
unfoldable pub take_token : Bucket → Bool × Bucket
unfolding sub64
take_token b =
    if leb_ℤ b.tokens (pos 0)
    then (false, b)
    else (true, record b { tokens = sub64 b.tokens (pos 1) })

-- What an answer to a request is, for the client: the error 429 with `Retry-After: 1`, or what the
-- next handler answers.
pub data Served : Type 0 where
  too_many_requests : Served
  passed_on : Request → Served

-- `clientIP` of this package.
abbrev before_colon : Str → Option ℕ → Str
before_colon s none = s
before_colon s (some i) = take i s

unfoldable pub client_ip : Request → Str
unfolding header_get last_index_byte
client_ip r =
    let xff = header_get r.header (lit "X-Forwarded-For") in
    if not (is_empty xff)
    then xff
    else before_colon r.remote_addr (last_index_byte b':' r.remote_addr)

-- `refill d` is `int64(float64(d)/float64(time.Second) * rl.rate)`.
module _ (refill : ℤ → ℤ) where
  unfoldable pub refilled : ℤ → ℤ → Bucket → Bucket
  unfolding add64 sub64
  refilled burst now b =
      let amount = refill (sub64 now b.last_refill) in
      let new_val = add64 b.tokens amount in
      record {
        tokens =
            if ltb_ℤ (pos 0) amount
            then (if ltb_ℤ burst new_val then burst else new_val)
            else b.tokens;
        last_refill = now;
      }

  unfoldable pub serve : ℤ → ℤ → Bucket → Bool × Bucket
  unfolding refilled take_token
  serve burst now b = take_token (refilled burst now b)

  unfoldable pub allow : ℤ → Str → RateLimiter → Bool × RateLimiter
  unfolding serve bucket insert
  allow now ip rl =
      let (answer, b) = serve rl.burst now (bucket now ip rl) in
      (answer, record rl { buckets = insert ip b rl.buckets })

  unfoldable pub middleware : ℤ → Request → RateLimiter → Served × RateLimiter
  unfolding allow client_ip
  middleware now r rl =
      let (answer, rl') = allow now (client_ip r) rl in
      (if not answer then too_many_requests else passed_on r, rl')

evict : ℤ → List (Str × Bucket) → List (Str × Bucket)
evict cutoff [] = []
evict cutoff ((ip, b) ∷ bs) =
    if ltb_ℤ b.last_refill cutoff then evict cutoff bs else (ip, b) ∷ evict cutoff bs

-- One tick of the cleanup.
unfoldable pub cleanup : ℤ → ℤ → RateLimiter → RateLimiter
unfolding evict
cleanup now interval rl = record rl { buckets = evict (now -ℤ interval) rl.buckets }
