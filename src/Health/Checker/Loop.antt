-- ===== src/Health/Checker/Loop.antt =====
-- internal/health/checker.go: the ticker loop of `Run`. A tick starts a goroutine for every backend of
-- the pool, which probes it at some later time, also behind later ticks or the end of the loop. A
-- probe is one step.
pub mod Silence
pub mod Detection
pub mod Failover
use gobalancer.Common.{
  ℕ, zero, suc, ◌+◌, ◌-◌, ◌*◌, ◌/◌, ◌%◌, ◌≤◌, ◌<◌, min, bit_xor, String, ◌≡◌, refl, sym, ap, subst,
  fun_ext, ◌∙◌, ◌≡⟨◌⟩◌, ◌∎, ◌≢◌, ◌↔◌, ◌⊎◌, inl, inr, Bool, true, false, not, ◌&&◌, ◌||◌, Option,
  none, some, List, [], ◌∷◌, ◌++◌, map, reverse, Memᴰ, append-nil, append_assoc, arith, ltb, leb,
  ◌==◌, if◌then◌else◌, ltb→lt, lt→ltb, leb→le, ==_iff, tests, Bool-cases, Option-cases, ◌>>=◌,
  of_some, length, get_elem?, take, drop, replicate, select, length-append, take-append-drop,
  length-drop, length-replicate, get_elem?_total, get_elem?-mem, get_elem?-append, drop-get_elem?,
  take_all, count-select, All-append, All-take, All-drop, All-replicate, All-mem, All-intro,
  drop_all, take-get_elem?, All, count, count-append, ℤ, pos, negsuc, pos_part, neg_part, sub_ℕ,
  ◌+ℤ◌, ◌-ℤ◌, ◌≤ℤ◌, ◌<ℤ◌, ltb_ℤ, leb_ℤ, eq_ℤ, rounds, two_64, two_63, max_int64, wrap64, add64,
  sub64, IsInt64, wrap64-IsInt64, wrap64_id, add64_one, add64_pos, rem_ℤ, index, clamp64, since,
  second, Str, lit, str_eq, str_eq_iff, str_eq_refl, is_empty, index_byte, last_index_byte,
  contains, contains-append, All-contains, decimal, index_byte-lt, last_index_byte-lt,
  last_index_byte-none, lookup, insert, remove, lookup-insert, lookup-insert_self, insert-insert,
  lookup-remove,
}
use gobalancer.Backend.{Heap, Ref, Url}
use gobalancer.Proxy.Dispatch.{remove_at}
use gobalancer.Health.Checker.{Checker, probe}

pub record Loop : Type 0 where
  pub heap : Heap
  pub checker : Checker
  pub started : List Ref  -- the backends whose goroutines have not probed yet
  pub running : Bool

abbrev pub new_loop : Heap → Checker → Loop
new_loop h c = record { heap = h; checker = c; started = []; running = true }

-- What the two `case`s of the loop receive, and a goroutine that probes: `get` and `dial` are the
-- network at that time.
pub data Event : Type 0 where
  ticks : Event
  cancelled : Event
  probed : (i : ℕ) (get : Str → Option ℕ) (dial : Str → ℤ → Bool) → Event

module _ (print : Url → Str) where
  unfoldable pub end_probe : (Str → Option ℕ) → (Str → ℤ → Bool) → ℕ → Option Ref → Loop → Loop
  unfolding probe remove_at
  end_probe get dial i none l = l
  end_probe get dial i (some r) l =
      let (h, c) = probe get print dial r (l.heap, l.checker) in
      record l { heap = h; checker = c; started = remove_at i l.started }

  unfoldable pub step : Event → Loop → Loop
  unfolding end_probe
  step ticks l =
      if l.running then record l { started = l.started ++ l.checker.pool.backends } else l
  step cancelled l = record l { running = false }
  step (probed i get dial) l = end_probe get dial i (get_elem? l.started i) l

  unfoldable pub run : List Event → Loop → Loop
  unfolding step
  run [] l = l
  run (e ∷ es) l = run es (step e l)
