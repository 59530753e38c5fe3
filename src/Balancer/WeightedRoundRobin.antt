-- ===== src/Balancer/WeightedRoundRobin.antt =====
-- internal/balancer/weightedrr.go. The slot table holds pointers, so the health of a slot is read
-- from the heap when it is picked.
pub mod Shares
use gobalancer.Common.{
  ℕ, zero, suc, ◌+◌, Option, none, some, List, [], ◌∷◌, ◌++◌, if◌then◌else◌, length, replicate, ℤ,
  pos, leb_ℤ, rounds, add64, sub64, rem_ℤ, index,
}
use gobalancer.Backend.{Heap, Ref, is_healthy}
use gobalancer.Balancer.{Choice, chosen, no_backends, panic, is_nil}

pub record WeightedRoundRobin : Type 0 where
  pub slots : List Ref
  pub counter : ℤ  -- int64

unfoldable pub new_weighted : WeightedRoundRobin
new_weighted = record { slots = []; counter = pos 0 }

-- The slots of one backend.
abbrev pub slot_count : Heap → Ref → ℕ
slot_count h r = let w = (h.cell r).weight in rounds (if leb_ℤ w (pos 0) then pos 1 else w)

unfoldable pub expand : Heap → List Ref → List Ref
expand h [] = []
expand h (r ∷ rs) = replicate (slot_count h r) r ++ expand h rs

unfoldable pub rebuild : Heap → List Ref → WeightedRoundRobin → WeightedRoundRobin
unfolding expand
rebuild h backends w = record w { slots = expand h backends }

-- The slots that a call works with: they are built on the first one.
unfoldable pub with_slots : Heap → List Ref → WeightedRoundRobin → WeightedRoundRobin
unfolding rebuild
with_slots h backends w = if is_nil w.slots then rebuild h backends w else w

unfoldable pub first_healthy : Heap → List Ref → Choice
first_healthy h [] = no_backends
first_healthy h (r ∷ rs) = if is_healthy h r then chosen r else first_healthy h rs

-- What becomes of the picked slot.
unfoldable pub serve_slot : Heap → List Ref → Option Ref → Choice
unfolding first_healthy
serve_slot h backends none = panic
serve_slot h backends (some b) = if is_healthy h b then chosen b else first_healthy h backends

-- The call from the counter on, once the slots are built.
take_turn : Heap → List Ref → WeightedRoundRobin → Choice × WeightedRoundRobin
unfolding serve_slot add64 sub64
take_turn h backends w =
    let counter = add64 w.counter (pos 1) in
    let idx = rem_ℤ (sub64 counter (pos 1)) (length w.slots) in
    if is_nil w.slots
    then (no_backends, w)
    else (serve_slot h backends (index w.slots idx), record w { counter = counter })

unfoldable pub next : Heap → WeightedRoundRobin → List Ref → Choice × WeightedRoundRobin
unfolding with_slots take_turn
next h w backends = take_turn h backends (with_slots h backends w)

unfoldable pub run : ℕ → Heap → WeightedRoundRobin → List Ref → List Choice
run zero h w bs = []
run (suc m) h w bs = let (c, w') = next h w bs in c ∷ run m h w' bs
