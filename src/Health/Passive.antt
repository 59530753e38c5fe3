-- ===== src/Health/Passive.antt =====
-- internal/health/passive.go. The lock makes each call one step, at one time of the clock.
pub mod Ejection
use gobalancer.Common.{
  ℕ, suc, ◌+◌, ◌-◌, Bool, true, false, ◌&&◌, Option, none, some, List, [], ◌∷◌, ◌++◌, ◌==◌,
  if◌then◌else◌, length, ℤ, pos, ◌-ℤ◌, ltb_ℤ, leb_ℤ, eq_ℤ, Str, lookup, insert, remove,
}
use gobalancer.Backend.{
  Heap, Ref, Health, healthy, unhealthy, probation, disabled, get_health, set_health, is_healthy,
}
use gobalancer.Health.{Config, Time, elapsed, first_backoff, next_backoff}

pub record Event : Type 0 where
  pub ts : Time
  pub err : Bool

pub record PassiveChecker : Type 0 where
  pub windows : List (Str × List Event)
  pub cfg : Config
  pub backoffs : List (Str × ℤ)
  pub ejected : List (Str × Time)

unfoldable pub new_passive_checker : Config → PassiveChecker
new_passive_checker cfg = record { windows = []; cfg = cfg; backoffs = []; ejected = [] }

-- `e.ts.Before(now.Add(-window))`
abbrev pub before_cutoff : Time → ℤ → Event → Bool
before_cutoff now window e = ltb_ℤ (pos e.ts) (pos now -ℤ window)

-- `evts[start:]` for the first `start` that is not before the cutoff.
unfoldable pub trim : Time → ℤ → List Event → List Event
trim now window [] = []
trim now window (e ∷ es) = if before_cutoff now window e then trim now window es else e ∷ es

-- The value under a key of a map, or the zero value.
abbrev pub or_zero {ℓ} : {A : Type ℓ} → A → Option A → A
or_zero z none = z
or_zero z (some a) = a

unfoldable pub window_of : PassiveChecker → Str → List Event
window_of pc id = or_zero [] (lookup id pc.windows)

unfoldable pub backoff_of : PassiveChecker → Str → ℤ
backoff_of pc id = or_zero (pos 0) (lookup id pc.backoffs)

-- The window with the new event.
unfoldable pub record_event : Time → Bool → Str → PassiveChecker → List Event
unfolding window_of trim lookup
record_event now is_error id pc =
    trim now pc.cfg.passive_window (window_of pc id) ++ (record { ts = now; err = is_error } ∷ [])

unfoldable pub backoffs_of_eject : Str → PassiveChecker → List (Str × ℤ)
unfolding backoff_of insert lookup
backoffs_of_eject id pc =
    if eq_ℤ (backoff_of pc id) (pos 0) then insert id first_backoff pc.backoffs else pc.backoffs

-- The loop that counts the errors.
unfoldable pub count_errors : List Event → ℕ
count_errors [] = 0
count_errors (e ∷ es) = if e.err then suc (count_errors es) else count_errors es

-- `rate_reached errs total` is `float64(errs)/float64(total) >= cfg.PassiveErrorRate`.
module _ (rate_reached : ℕ → ℕ → Bool) where
  abbrev pub is_over : List Event → Bool
  is_over evts = rate_reached (count_errors evts) (length evts)

  unfoldable pub observe : Time → Bool → Ref → Heap × PassiveChecker → Heap × PassiveChecker
  unfolding record_event backoffs_of_eject insert set_health count_errors
  observe now is_error r (h, pc) =
      let id = (h.cell r).id in
      let evts = record_event now is_error id pc in
      let windows = insert id evts pc.windows in
      if length evts == 0
      then (h, record pc { windows = windows })
      else if is_over evts && is_healthy h r
      then (
        set_health h r unhealthy,
        record pc {
          windows = windows;
          backoffs = backoffs_of_eject id pc;
          ejected = insert id now pc.ejected;
        },
      )
      else (h, record pc { windows = windows })

abbrev pub is_unhealthy : Health → Bool
is_unhealthy unhealthy = true
is_unhealthy healthy = false
is_unhealthy probation = false
is_unhealthy disabled = false

unfoldable pub readmit_at : Time → Ref → Option Time → Heap × PassiveChecker → Heap × PassiveChecker
unfolding backoff_of next_backoff insert remove set_health
readmit_at now r none (h, pc) = (h, pc)
readmit_at now r (some ejected_at) (h, pc) =
    let id = (h.cell r).id in
    let backoff = backoff_of pc id in
    if leb_ℤ backoff (elapsed now ejected_at)
    then (
      set_health h r probation,
      record pc {
        windows = insert id [] pc.windows;
        backoffs = insert id (next_backoff backoff) pc.backoffs;
        ejected = remove id pc.ejected;
      },
    )
    else (h, pc)

unfoldable pub try_readmit : Time → Ref → Heap × PassiveChecker → Heap × PassiveChecker
unfolding readmit_at lookup
try_readmit now r (h, pc) =
    if is_unhealthy (get_health h r)
    then readmit_at now r (lookup (h.cell r).id pc.ejected) (h, pc)
    else (h, pc)
