-- ===== src/CircuitBreaker/Breaker.antt =====
-- internal/circuitbreaker/breaker.go, each method as one step. Times are Unix nanoseconds and
-- arguments of the calls.
pub mod Invariant
pub mod Calls
pub mod Diagram
pub mod Total
pub mod Trip
pub mod Window
pub mod Probes
use gobalancer.Common.{
  ℕ, zero, suc, ◌-◌, ◌*◌, Bool, true, false, not, ◌&&◌, ◌||◌, Option, none, some, List, [], ◌∷◌,
  ltb, if◌then◌else◌, ◌>>=◌, ℤ, pos, pos_part, ltb_ℤ, leb_ℤ, rounds, add64, since, Str, lit,
}

pub data State : Type 0 where
  closed open_state half_open : State

unfoldable pub state_name : State → Str
state_name closed = lit "closed"
state_name open_state = lit "open"
state_name half_open = lit "half-open"

pub record Config : Type 0 where
  pub failure_threshold : ℤ  -- int
  pub open_duration : ℤ  -- time.Duration
  pub half_open_probes : ℤ  -- int

abbrev pub default_config : Config
default_config = record {
  failure_threshold = pos 5;
  open_duration = pos 30000000000;
  half_open_probes = pos 1;
}

-- `probe` is the number of permits in the channel, `capacity` the size of its buffer.
pub record Breaker : Type 0 where
  pub cfg : Config
  pub open cfg use *
  pub state : State
  pub failures : ℤ  -- int64
  pub opened_at : ℤ  -- int64
  pub probe : ℕ
  pub capacity : ℕ

-- `New`: `make` panics at a negative size, which is `none`.
unfoldable pub new : Config → Option Breaker
new cfg =
    if ltb_ℤ cfg.half_open_probes (pos 0)
    then none
    else some (record {
      cfg = cfg;
      state = closed;
      failures = pos 0;
      opened_at = pos 0;
      probe = 0;
      capacity = pos_part cfg.half_open_probes;
    })

-- `m` sends into the channel, `none` where one of them waits for room that nobody makes.
unfoldable pub fill : ℕ → ℕ → ℕ → Option ℕ
fill zero capacity probe = some probe
fill (suc m) capacity probe =
    let rest = fill m capacity (suc probe) in if ltb probe capacity then rest else none

-- The loop that takes out all permits.
unfoldable pub drain : ℕ → ℕ
drain zero = 0
drain (suc probe) = drain probe

-- What `Allow` does under the lock once the open time is over.
unfoldable pub to_half_open : Breaker → Option Breaker
unfolding fill drain
to_half_open b = fill (rounds b.half_open_probes) b.capacity (drain b.probe) >>= λ n.
    some (record b { state = half_open; probe = n })

-- The `select` on the channel.
unfoldable pub take_probe : Breaker → Bool × Breaker
take_probe b = if ltb 0 b.probe then (true, record b { probe = b.probe - 1 }) else (false, b)

abbrev pub is_open : State → Bool
is_open open_state = true
is_open _ = false

abbrev pub is_half_open : State → Bool
is_half_open half_open = true
is_half_open _ = false

-- The case of an open breaker: `reached` is the breaker behind the locked part.
unfoldable pub allow_open : ℤ → Breaker → Option Breaker
unfolding to_half_open
allow_open now b = if leb_ℤ b.open_duration (since now b.opened_at) then to_half_open b else some b

unfoldable pub pass : Breaker → Bool × Breaker
unfolding take_probe
pass b = if is_open b.state then (false, b) else take_probe b

-- `Allow` at the time `now`: `true` is a nil error, `false` is `ErrCircuitOpen`; `none` never
-- returns.
allow_in : State → ℤ → Breaker → Option (Bool × Breaker)
unfolding allow_open pass take_probe
allow_in closed now b = some (true, b)
allow_in open_state now b = allow_open now b >>= λ b'. some (pass b')
allow_in half_open now b = some (take_probe b)

unfoldable pub allow : ℤ → Breaker → Option (Bool × Breaker)
unfolding allow_in
allow now b = allow_in b.state now b

unfoldable pub record_success : Breaker → Breaker
record_success b = record b {
  failures = pos 0;
  state = if is_half_open b.state then closed else b.state;
}

unfoldable pub record_failure : ℤ → Breaker → Breaker
unfolding add64
record_failure now b =
    let n = add64 b.failures (pos 1) in
    if (leb_ℤ b.failure_threshold n || is_half_open b.state) && not (is_open b.state)
    then record b { failures = pos 0; opened_at = now; state = open_state }
    else record b { failures = n }

-- The calls that a backend's breaker sees, each at its time.
pub data Event : Type 0 where
  allows : ℤ → Event
  succeeds : ℤ → Event
  fails : ℤ → Event

abbrev pub time : Event → ℤ
time (allows t) = t
time (succeeds t) = t
time (fails t) = t

-- The breaker after a call, and the answer if the call was `Allow`.
unfoldable pub step : Event → Breaker → Option (Option Bool × Breaker)
unfolding allow record_success record_failure
step (allows t) b = allow t b >>= λ r. some (some r.0, r.1)
step (succeeds t) b = some (none, record_success b)
step (fails t) b = some (none, record_failure t b)

-- The answers of a run, in order, and the breaker at its end.
unfoldable pub run : List Event → Breaker → Option (List (Option Bool) × Breaker)
run [] b = some ([], b)
run (e ∷ es) b = step e b >>= λ (r : Option Bool × Breaker).
    run es r.1 >>= λ (q : List (Option Bool) × Breaker). some (r.0 ∷ q.0, q.1)
