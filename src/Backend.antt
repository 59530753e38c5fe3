-- ===== src/Backend.antt =====
-- internal/backend/backend.go. `*Backend` is a reference into a heap, since pools, slot tables and
-- ring maps share the objects that it points to.
pub mod Conns
use mathlib.Core.Option
use gobalancer.Common.{
  ℕ, suc, Bool, true, false, Option, none, some, map, ◌==◌, if◌then◌else◌, ℤ, pos, negsuc, ltb_ℤ,
  leb_ℤ, add64, Str, lit,
}

pub data Health : Type 0 where
  healthy unhealthy probation disabled : Health

abbrev pub is_healthy_state : Health → Bool
is_healthy_state healthy = true
is_healthy_state _ = false

-- The parts of a `url.URL` that the program reads.
pub record Url : Type 0 where
  pub scheme : Str
  pub host : Str
  pub path : Str
  pub raw_query : Str

pub record Backend : Type 0 where
  pub id : Str
  pub url : Url
  pub weight : ℤ  -- int
  pub active_conns : ℤ  -- int64
  pub health : Health

abbrev pub Ref : Type 0
Ref = ℕ

pub record Heap : Type 0 where
  pub next : Ref
  pub cell : Ref → Backend

abbrev pub update : (Ref → Backend) → Ref → Backend → Ref → Backend
update f r b q = if q == r then b else f q

abbrev pub store : Heap → Ref → Backend → Heap
store h r b = record h { cell = update h.cell r b }

-- `New`; `parse` is `url.Parse`, `none` its error.
unfoldable pub new : (Str → Option Url) → Str → Str → ℤ → Option Backend
new parse id raw_url weight =
    Option.map
      (λ u. record {
        id = id;
        url = u;
        weight = if leb_ℤ weight (pos 0) then pos 1 else weight;
        active_conns = pos 0;
        health = healthy;
      })
      (parse raw_url)

-- `&Backend{…}`
unfoldable pub alloc : Heap → Backend → Ref × Heap
alloc h b = (h.next, record { next = suc h.next; cell = update h.cell h.next b })

unfoldable pub inc_conns : Heap → Ref → Heap
unfolding add64
inc_conns h r =
    store h r (record (h.cell r) { active_conns = add64 (h.cell r).active_conns (pos 1) })

unfoldable pub dec_conns : Heap → Ref → Heap
unfolding add64
dec_conns h r =
    store h r (record (h.cell r) { active_conns = add64 (h.cell r).active_conns (negsuc 0) })

abbrev pub active_conns : Heap → Ref → ℤ
active_conns h r = (h.cell r).active_conns

unfoldable pub set_health : Heap → Ref → Health → Heap
set_health h r s = store h r (record (h.cell r) { health = s })

abbrev pub get_health : Heap → Ref → Health
get_health h r = (h.cell r).health

abbrev pub is_healthy : Heap → Ref → Bool
is_healthy h r = is_healthy_state (get_health h r)

-- `atomic.StoreInt64(p, v)` into the connection counter; a nil pointer is a run-time panic.
store_int64 : Option Ref → ℤ → Heap → Option Heap
store_int64 none v h = none
store_int64 (some r) v h = some (store h r (record (h.cell r) { active_conns = v }))

-- `SetWeight`, the store through a nil pointer included.
unfoldable pub set_weight : Heap → Ref → ℤ → Option Heap
unfolding store_int64
set_weight h r w =
    let w' : ℤ = if ltb_ℤ w (pos 0) then pos 0 else w in
    Option.map (λ h'. store h' r (record (h'.cell r) { weight = w' })) (store_int64 none (pos 0) h)

pub record Snapshot : Type 0 where
  pub id : Str
  pub addr : Str
  pub weight : ℤ
  pub active_conns : ℤ
  pub health : Str

unfoldable pub health_name : Health → Str
health_name healthy = lit "healthy"
health_name unhealthy = lit "unhealthy"
health_name probation = lit "probation"
health_name disabled = lit "disabled"

-- `Snapshot`; `print` is `URL.String`.
unfoldable pub snapshot : (Url → Str) → Backend → Snapshot
snapshot print b = record {
  id = b.id;
  addr = print b.url;
  weight = b.weight;
  active_conns = b.active_conns;
  health = health_name b.health;
}
