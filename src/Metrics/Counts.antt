-- ===== src/Metrics/Counts.antt =====
-- internal/metrics/middleware.go: what one request adds to each metric.
use gobalancer.Common.{
  ℕ, ◌≡◌, refl, Bool, true, false, ◌&&◌, Option, none, some, List, [], ◌∷◌, ◌++◌, leb,
  if◌then◌else◌, Str, str_eq, decimal,
}
use gobalancer.Http.Serving.{
  Serving, returns, panics, gets, sets, deletes, writes_header, writes, emits, logged, Event,
  Change, measured, inc, dec, sampled, Response,
}
use gobalancer.Http.Serving.Laws.{Forwards}
use gobalancer.Metrics.{status_recorder, write_header, new, status_class}

status_recorder-Forwards : Forwards status_recorder
unfolding status_recorder write_header
status_recorder-Forwards = record {
  on_code = λ r code. record r { status = code };
  on_write = λ r b a. r;
  forwards_code = λ r code. refl;
  forwards_write = λ r b. refl;
}

-- What a request leaves behind its handler's own events.
outcome_events : Str → Str → ℕ → Option (Unit {0}) → List Event
unfolding new status_class
outcome_events backend route status none = measured new.active_conns.name (backend ∷ []) dec ∷ []
outcome_events backend route status (some _) =
    measured new.requests_total.name (backend ∷ status_class status ∷ []) inc
      ∷ measured new.request_duration.name (backend ∷ route ∷ []) sampled
      ∷ (if leb 500 status
          then measured new.upstream_errors.name (backend ∷ decimal status ∷ []) inc ∷ []
          else [])
    ++ measured new.active_conns.name (backend ∷ []) dec ∷ []

same_change : Change → Change → Bool
same_change inc inc = true
same_change dec dec = true
same_change sampled sampled = true
same_change _ _ = false

-- The label values under which a metric was changed in one way, in order.
pub values_of : Str → Change → List Event → List (List Str)
unfolding same_change str_eq
values_of name change [] = []
values_of name change (measured n vs d ∷ es) =
    let rest = values_of name change es in
    if str_eq n name && same_change d change then vs ∷ rest else rest
values_of name change (logged m p s b c u ∷ es) = values_of name change es

-- A handler that does not touch the metrics; it may log.
abbrev pub Unmeasured : {A : Type 0} → Serving A → Type 0
Unmeasured (returns a) = Unit {0}
Unmeasured panics = Unit {0}
Unmeasured (gets k c) = (v : Str) → Unmeasured (c v)
Unmeasured (sets k v c) = Unmeasured c
Unmeasured (deletes k c) = Unmeasured c
Unmeasured (writes_header n c) = Unmeasured c
Unmeasured (writes s c) = (a : ℕ × Bool) → Unmeasured (c a)
Unmeasured (emits (measured n vs d) c) = ⊥
Unmeasured (emits (logged m p s b c u) k) = Unmeasured k

-- A request's answer `out` and its changes of the metrics, beside the answer `plain` of its handler.
pub record Counted (backend : Str) (status : ℕ) (plain out : Option (Unit {0}) × Response)
    : Type 0 where
  pub same_outcome : out.0 ≡ plain.0
  pub same_response : record out.1 { events = [] } ≡ record plain.1 { events = [] }
  pub up : values_of new.active_conns.name inc out.1.events ≡ (backend ∷ []) ∷ []
  pub down : values_of new.active_conns.name dec out.1.events ≡ (backend ∷ []) ∷ []
  pub requests :
      values_of new.requests_total.name inc out.1.events
      ≡ elim plain.0 [ none ↦ [] | some _ ↦ (backend ∷ status_class status ∷ []) ∷ [] ]
  pub errors : values_of new.upstream_errors.name inc out.1.events ≡ elim plain.0 [
    | none ↦ []
    | some _ ↦ if leb 500 status then (backend ∷ decimal status ∷ []) ∷ [] else []
  ]

abbrev pub begun : Str → List Event
begun backend = measured new.active_conns.name (backend ∷ []) inc ∷ []
