-- ===== src/Health.antt =====
-- internal/health: the configuration that the checkers share.
pub mod StateMachine
pub mod Passive
pub mod Checker
pub mod Grpc
use gobalancer.Common.{
  ℕ, ◌/◌, ◌≤◌, ◌≡◌, true, arith, leb, if◌then◌else◌, ℤ, pos, negsuc, ◌≤ℤ◌, ltb_ℤ, leb_ℤ, add64,
  since, Str, lit,
}

-- The thresholds and times of `Config`; the error rate is a parameter of `Passive`.
pub record Config : Type 0 where
  pub interval : ℤ
  pub timeout : ℤ
  pub path : Str
  pub failure_threshold : ℤ  -- int
  pub success_threshold : ℤ  -- int
  pub mode : Str
  pub passive_window : ℤ  -- time.Duration

abbrev pub default_config : Config
default_config = record {
  interval = pos 10000000000;
  timeout = pos 2000000000;
  path = lit "/health";
  failure_threshold = pos 3;
  success_threshold = pos 2;
  mode = lit "http";
  passive_window = pos 60000000000;
}

-- A `time.Time` in nanoseconds from the zero time on; 0 is the zero time.
abbrev pub Time : Type 0
Time = ℕ

abbrev pub elapsed : Time → Time → ℤ
elapsed now t = since (pos now) (pos t)

-- 5 * time.Second and 5 * time.Minute.
abbrev pub first_backoff : ℤ
first_backoff = pos 5000000000

abbrev pub last_backoff : ℤ
last_backoff = pos 300000000000

unfoldable pub min_duration : ℤ → ℤ → ℤ
min_duration a b = if ltb_ℤ a b then a else b

-- min(backoff*2, 5*time.Minute)
unfoldable pub next_backoff : ℤ → ℤ
unfolding min_duration add64
next_backoff b = min_duration (add64 b b) last_backoff

-- From a backoff in its bounds, the next one is in its bounds and no shorter.
pub next_backoff_bounds :
    (b : ℤ)
    → first_backoff ≤ℤ b
    → b ≤ℤ last_backoff
    → (first_backoff ≤ℤ next_backoff b) × (next_backoff b ≤ℤ last_backoff) × (b ≤ℤ next_backoff b)
unfolding next_backoff
next_backoff_bounds (pos n) h k = ground arith
next_backoff_bounds (negsuc n) h k = absurd (omega arith)

pub le→leb : (a b : ℤ) → a ≤ℤ b → leb_ℤ a b ≡ true
le→leb a b h = ground arith
