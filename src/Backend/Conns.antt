-- ===== src/Backend/Conns.antt =====
-- The connection counters of backend.go, and what a write to one backend leaves alone.
use gobalancer.Common.{
  ◌≡◌, fun_ext, ◌≢◌, false, Option, some, arith, ◌==◌, if◌then◌else◌, ℤ, pos, negsuc, ◌≤ℤ◌, add64,
  IsInt64, Str,
}
use gobalancer.Backend.{
  is_healthy, Heap, Ref, Health, Backend, new, Url, inc_conns, dec_conns, active_conns, get_health,
}

dec_inc64 : (a : ℤ) → IsInt64 a → add64 (add64 a (pos 1)) (negsuc 0) ≡ a
unfolding add64
dec_inc64 (pos n) h = ground arith
dec_inc64 (negsuc n) h = ground arith

ne_test : {q r : Ref} → q ≢ r → (q == r) ≡ false
ne_test {q} {r} h = ground arith

update_self :
    (h : Heap) (r q : Ref)
    → (dec_conns (inc_conns h r) r).cell q
      ≡ (if q == r then (dec_conns (inc_conns h r) r).cell r else h.cell q)
unfolding inc_conns dec_conns
update_self h r q = ground arith

-- Counting a connection in and out again restores every backend, the counter at the ends of its
-- range included.
pub dec_conns-inc_conns :
    (h : Heap) (r : Ref) → IsInt64 (active_conns h r) → dec_conns (inc_conns h r) r ≡ h
unfolding inc_conns dec_conns
dec_conns-inc_conns h r v = λ i. record { next = h.next; cell = cells i }
  where
    cells : (dec_conns (inc_conns h r) r).cell ≡ h.cell
    cells = fun_ext λ q. ground (arith, dec_inc64 (active_conns h r) v)

-- Counting a connection changes no health, no weight and no identifier, and the counter of no
-- other backend.
pub inc_conns_frame :
    (h : Heap) (r q : Ref)
    → (get_health (inc_conns h r) q ≡ get_health h q)
      × (((inc_conns h r).cell q).id ≡ (h.cell q).id)
      × (((inc_conns h r).cell q).weight ≡ (h.cell q).weight)
      × (q ≢ r → active_conns (inc_conns h r) q ≡ active_conns h q)
unfolding inc_conns
inc_conns_frame h r q = (ground arith, ground arith, ground arith, λ n. ground (arith, ne_test n))

-- A new backend is healthy, has no connection and a weight of one at least.
pub new_lem :
    (parse : Str → Option Url) (id raw_url : Str) (weight : ℤ) {b : Backend}
    → new parse id raw_url weight ≡ some b
    → (b.health ≡ Health.healthy) × (b.active_conns ≡ pos 0) × (pos 1 ≤ℤ b.weight) × (b.id ≡ id)
unfolding new
new_lem parse id raw_url weight h = ground arith

-- Counting connections changes no backend's health.
pub is_healthy-inc_conns : (h : Heap) (r q : Ref) → is_healthy (inc_conns h r) q ≡ is_healthy h q
unfolding inc_conns
is_healthy-inc_conns h r q = ground arith

pub is_healthy-dec_conns : (h : Heap) (r q : Ref) → is_healthy (dec_conns h r) q ≡ is_healthy h q
unfolding dec_conns
is_healthy-dec_conns h r q = ground arith
