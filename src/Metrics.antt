-- ===== src/Metrics.antt =====
-- internal/metrics. A metric is its name and its labels; what it counts are the changes that handlers
-- leave behind. The time that a request takes is not in the observation.
pub mod Counts
use gobalancer.Common.{
  ℕ, zero, suc, ◌+◌, ◌-◌, ◌*◌, ◌/◌, ◌%◌, ◌≤◌, ◌<◌, min, bit_xor, String, ◌≡◌, refl, sym, ap, subst,
  fun_ext, ◌∙◌, ◌≡⟨◌⟩◌, ◌∎, ◌≢◌, ◌↔◌, ◌⊎◌, inl, inr, Bool, true, false, not, ◌&&◌, ◌||◌, Option,
  none, some, List, [], ◌∷◌, ◌++◌, map, reverse, Memᴰ, append-nil, append_assoc, arith, ltb, leb,
  ◌==◌, if◌then◌else◌, ltb→lt, lt→ltb, leb→le, ==_iff, tests, Bool-cases, Option-cases, ◌>>=◌,
  of_some, length, get_elem?, take, drop, replicate, select, length-append, take-append-drop,
  length-drop, length-replicate, get_elem?_total, get_elem?-mem, get_elem?-append, drop-get_elem?,
  take_all, count-select, All-append, All-take, All-drop, All-replicate, All-mem, All-intro,
  drop_all, take-get_elem?, All, count, count-append, ℤ, pos, negsuc, pos_part, neg_part, sub_ℕ,
  ◌+ℤ◌, ◌-ℤ◌, ◌≤ℤ◌, ◌<ℤ◌, ltb_ℤ, leb_ℤ, eq_ℤ, rounds, two_64, two_63, max_int64, wrap64, add64,
  sub64, IsInt64, wrap64-IsInt64, wrap64_id, add64_one, add64_pos, rem_ℤ, index, clamp64, since,
  second, Str, lit, str_eq, str_eq_iff, str_eq_refl, is_empty, index_byte, last_index_byte,
  contains, contains-append, All-contains, decimal, index_byte-lt, last_index_byte-lt,
  last_index_byte-none, lookup, insert, remove, lookup-insert, lookup-insert_self, insert-insert,
  lookup-remove,
}
use gobalancer.Http.Serving.{
  Status, Serving, returns, panics, writes_header, writes, emits, measured, Change, inc, dec,
  sampled, bind, Wrapper, wrapped, Handler,
}

pub record Vec : Type 0 where
  pub name : Str
  pub labels : List Str

pub record Collector : Type 0 where
  pub requests_total : Vec
  pub request_duration : Vec
  pub active_conns : Vec
  pub backend_health : Vec
  pub circuit_state : Vec
  pub upstream_errors : Vec

unfoldable pub new : Collector
new = record {
  requests_total = record {
    name = lit "gobalancer_requests_total";
    labels = lit "backend" ∷ lit "status_class" ∷ [];
  };
  request_duration = record {
    name = lit "gobalancer_request_duration_seconds";
    labels = lit "backend" ∷ lit "route" ∷ [];
  };
  active_conns = record { name = lit "gobalancer_active_connections"; labels = lit "backend" ∷ [] };
  backend_health = record { name = lit "gobalancer_backend_health"; labels = lit "backend" ∷ [] };
  circuit_state = record {
    name = lit "gobalancer_circuit_breaker_state";
    labels = lit "backend" ∷ [];
  };
  upstream_errors = record {
    name = lit "gobalancer_upstream_errors_total";
    labels = lit "backend" ∷ lit "type" ∷ [];
  };
}

unfoldable pub status_class : ℕ → Str
status_class code =
    if ltb code 200
    then lit "1xx"
    else if ltb code 300
    then lit "2xx"
    else if ltb code 400
    then lit "3xx"
    else if ltb code 500
    then lit "4xx"
    else lit "5xx"

-- `WithLabelValues`, which panics unless there is a value for each label, and the change.
unfoldable pub with_label_values : {A : Type 0} → Vec → List Str → Change → Serving A → Serving A
with_label_values vec values change c =
    if length values == length vec.labels then emits (measured vec.name values change) c else panics

pub record StatusRecorder : Type 0 where
  pub status : ℕ

unfoldable pub write_header : StatusRecorder → Status → Serving StatusRecorder
write_header r code = writes_header code (returns (record r { status = code.code }))

-- `Write` is the one of the embedded writer.
unfoldable pub status_recorder : Wrapper StatusRecorder
unfolding write_header
status_recorder = record {
  write_header = write_header;
  write = λ r b. writes b (λ a. returns (a, r));
}

module _ (c : Collector) where
  -- Behind the handler; `Dec` is deferred.
  unfoldable pub observe_outcome :
      Str → Str → Option (Unit {0}) → StatusRecorder → Serving (Unit {0})
  unfolding with_label_values status_class
  observe_outcome backend_id route none rec =
      with_label_values c.active_conns (backend_id ∷ []) dec panics
  observe_outcome backend_id route (some _) rec =
      let end = with_label_values c.active_conns (backend_id ∷ []) dec (returns tt) in
      with_label_values c.requests_total (backend_id ∷ status_class rec.status ∷ []) inc (
        with_label_values c.request_duration (backend_id ∷ route ∷ []) sampled (
          if leb 500 rec.status
          then with_label_values c.upstream_errors (backend_id ∷ decimal rec.status ∷ []) inc end
          else end))

  unfoldable pub instrument_handler : Str → Str → Handler → Handler
  unfolding with_label_values observe_outcome bind wrapped status_recorder
  instrument_handler backend_id route h r = with_label_values c.active_conns (backend_id ∷ []) inc (
      bind (wrapped status_recorder (h r) (record { status = 200 }))
        (λ (o, rec). observe_outcome backend_id route o rec))
