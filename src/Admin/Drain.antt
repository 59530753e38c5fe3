-- ===== src/Admin/Drain.antt =====
-- internal/admin/drain.go. The ticks of the polling goroutine and the end of the timeout are events, a
-- tick with the heap as it is then.
pub mod Running
use gobalancer.Common.{
  ◌*◌, ◌||◌, Option, none, some, List, [], ◌∷◌, if◌then◌else◌, ℤ, pos, eq_ℤ, second,
}
use gobalancer.Backend.{Heap, Ref, disabled, set_health, active_conns}

pub record Drainer : Type 0 where
  pub timeout : ℤ

unfoldable pub new_drainer : ℤ → Drainer
new_drainer timeout = record {
  timeout = if eq_ℤ timeout (pos 0) then pos (30 * second) else timeout;
}

-- `atomic.LoadInt64`; through a nil pointer it is a run-time panic.
abbrev load_int64 : Option ℤ → Option ℤ
load_int64 pointer = pointer

pub data Event : Type 0 where
  ticks : Heap → Event
  expires : Event

-- `Drain` returns nil, with the backend drained or not; waits on; or the goroutine panics, which stops the program.
pub data Outcome : Type 0 where
  drained timed_out blocked crashed : Outcome

-- One tick.
unfoldable pub poll : Ref → Heap → Outcome
poll b h = elim (load_int64 none) [
  | none ↦ crashed
  | some v ↦ if eq_ℤ v (pos 0) || eq_ℤ (active_conns h b) (pos 0) then drained else blocked
]

-- The `select`.
unfoldable pub wait_done : Ref → List Event → Outcome
unfolding poll
wait_done b [] = blocked
wait_done b (ticks h ∷ es) = elim (poll b h) [
  | blocked ↦ wait_done b es
  | drained ↦ drained
  | timed_out ↦ timed_out
  | crashed ↦ crashed
]
wait_done b (expires ∷ es) = timed_out

-- The heap as the wait begins, and how it ends.
unfoldable pub drain : Ref → List Event → Heap → Outcome × Heap
unfolding set_health wait_done
drain b es h = (wait_done b es, set_health h b disabled)
