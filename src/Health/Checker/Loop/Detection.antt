-- ===== src/Health/Checker/Loop/Detection.antt =====
-- internal/health/checker.go: a backend that stops answering.
use gobalancer.Common.{
  ℕ, suc, ◌+◌, ◌-◌, ◌*◌, ◌≤◌, ◌<◌, ◌≡◌, refl, sym, ap, subst, ◌∙◌, inl, inr, Bool, true, false,
  Option, none, some, List, [], ◌∷◌, ◌++◌, arith, if◌then◌else◌, Bool-cases, get_elem?, All, count,
  count-append, ℤ, pos, ◌≤ℤ◌, two_63, Str,
}
use native.Mathlib.Nat.{suc-mul}
use native.Mathlib.Decide.{ℕ_discrete}
use gobalancer.Backend.{Heap, Ref, Url, healthy, get_health}
use gobalancer.Pool.{Pool}
use gobalancer.Proxy.Dispatch.{remove_at}
use gobalancer.Proxy.Dispatch.Accounting.{count-remove_at}
use gobalancer.Health.{Config}
use gobalancer.Health.Checker.{new_checker, probe}
use gobalancer.Health.Checker.Loop.{
  Loop, new_loop, Event, ticks, cancelled, probed, end_probe, step, run,
}
use gobalancer.Health.Checker.Loop.Silence.{
  Alone, Silent, level, Failed, probe_pool, probe_self, probe_other, new-Failed,
}

-- The ticks that come before the loop is left.
abbrev pub ticked : List Event → ℕ
ticked [] = 0
ticked (ticks ∷ es) = suc (ticked es)
ticked (cancelled ∷ es) = 0
ticked (probed i get dial ∷ es) = ticked es

module _ (print : Url → Str) (cfg : Config) (low : pos 1 ≤ℤ cfg.failure_threshold)
    (high : pos 1 ≤ℤ cfg.success_threshold) where
  module _ (q : Ref) (u : Url) where
    module _ (p : Pool) where
      abbrev to_come : Bool → List Event → ℕ
      to_come running es = (if running then ticked es else 0) * count q p.backends

      tick_to_come :
          (running : Bool) (es : List Event)
          → running ≡ true
          → to_come running (ticks ∷ es) ≡ count q p.backends + to_come running es
      tick_to_come running es y = rw y (omega (arith, suc-mul (ticked es) (count q p.backends)))

      -- The backend has failed as often as its goroutines have run, and `d` goroutines are started for
      -- it in the whole run.
      record Watched (d : ℕ) (es : List Event) (l : Loop) : Type 0 where
        done : ℕ
        total : count q l.started + done + to_come l.running es ≡ d
        members : l.checker.pool ≡ p
        failed : Failed cfg q u done l.heap l.checker

      end_probe-Watched :
          (d i : ℕ) (get : Str → Option ℕ) (dial : Str → ℤ → Bool) (es : List Event) (l : Loop)
          (r : Option Ref)
          → get_elem? l.started i ≡ r
          → d < two_63
          → Silent print cfg u (probed i get dial)
          → Watched d (probed i get dial ∷ es) l
          → Watched d es (end_probe print get dial i r l)
      unfolding end_probe
      end_probe-Watched d i get dial es l none e lt silent w = record {
        done = w.done;
        total = w.total;
        members = w.members;
        failed = w.failed;
      }
      end_probe-Watched d i get dial es l (some r) e lt silent w = elim (ℕ_discrete r q) [
        | yes same ↦
            let still : count q l.started ≡ suc (count q (remove_at i l.started)) =
              ground (arith, same, count-remove_at i l.started r q e) in
            record {
              done = suc w.done;
              total = omega (arith, w.total, still);
              members = probe_pool get print dial l.heap l.checker r ∙ w.members;
              failed =
                  subst
                    (λ x.
                      let s = probe get print dial x (l.heap, l.checker) in
                      Failed cfg q u (suc w.done) s.0 s.1)
                    (sym same)
                    (probe_self print cfg high q u i get dial silent w.done l.heap l.checker
                      (omega (arith, lt, w.total, still)) w.failed);
            }
        | no n ↦
            let gone : count q l.started ≡ count q (remove_at i l.started) =
              ground (arith, n, count-remove_at i l.started r q e) in
            record {
              done = w.done;
              total = omega (arith, w.total, gone);
              members = probe_pool get print dial l.heap l.checker r ∙ w.members;
              failed =
                  probe_other print cfg high q u i get dial silent w.done l.heap l.checker r n
                    w.failed;
            }
      ]

      tick_on :
          (l : Loop)
          → l.running ≡ true
          → step print ticks l ≡ record l { started = l.started ++ l.checker.pool.backends }
      unfolding step
      tick_on l y = rw y refl

      tick_off : (l : Loop) → l.running ≡ false → step print ticks l ≡ l
      unfolding step
      tick_off l n = rw n refl

      step-Watched :
          (d : ℕ) (e : Event) (es : List Event) (l : Loop)
          → d < two_63
          → Silent print cfg u e
          → Watched d (e ∷ es) l
          → Watched d es (step print e l)
      unfolding step
      step-Watched d ticks es l lt silent w = elim (Bool-cases l.running) [
        | inl y ↦
            let l' : Loop = record l { started = l.started ++ l.checker.pool.backends } in
            let w' : Watched d es l' = record {
              done = w.done;
              total = omega (
                arith,
                count-append q l.started l.checker.pool.backends,
                w.total,
                ap (λ o. count q o.backends) w.members,
                tick_to_come l.running es y,
              );
              members = w.members;
              failed = w.failed;
            } in
            subst (Watched d es) (sym (tick_on l y)) w'
        | inr n ↦
            let w' : Watched d es l = record {
              done = w.done;
              total = ground (arith, n, w.total);
              members = w.members;
              failed = w.failed;
            } in
            subst (Watched d es) (sym (tick_off l n)) w'
      ]
      step-Watched d cancelled es l lt silent w = record {
        done = w.done;
        total = ground (arith, w.total);
        members = w.members;
        failed = w.failed;
      }
      step-Watched d (probed i get dial) es l lt silent w =
          end_probe-Watched d i get dial es l (get_elem? l.started i) refl lt silent w

      run-Watched :
          (d : ℕ) (es : List Event) (l : Loop)
          → d < two_63
          → All (Silent print cfg u) es
          → Watched d es l
          → Watched d [] (run print es l)
      unfolding run
      run-Watched d [] l lt silent w = w
      run-Watched d (e ∷ es) l lt (silent, more) w =
          run-Watched d es (step print e l) lt more (step-Watched d e es l lt silent w)

      nothing_to_come : (running : Bool) → to_come running [] ≡ 0
      nothing_to_come true = omega arith
      nothing_to_come false = omega arith

  -- A healthy backend that stops answering, with an identifier of its own and thresholds that are
  -- positive: while fewer than 2^63 probes are started for it, one for each tick and each time that the
  -- pool holds it, it is unhealthy if and only if as many of them as the failure threshold have ended,
  -- whatever the order in which they end and whatever the probes of other backends find.
  pub run-level :
      (q : Ref) (h : Heap) (p : Pool) (es : List Event)
      → get_health h q ≡ healthy
      → Alone h q
      → All (Silent print cfg (h.cell q).url) es
      → ticked es * count q p.backends < two_63
      → (let s = run print es (new_loop h (new_checker p cfg)) in
          let due = ticked es * count q p.backends in
          (count q s.started ≤ due) × (get_health s.heap q ≡ level cfg (due - count q s.started)))
  unfolding new_checker
  run-level q h p es e a silent lt =
      let u : Url = (h.cell q).url in
      let l : Loop = new_loop h (new_checker p cfg) in
      let s : Loop = run print es l in
      let d : ℕ = ticked es * count q p.backends in
      let w : Watched q u p d es l = record {
        done = 0;
        total = omega arith;
        members = refl;
        failed = new-Failed cfg q h p low e a;
      } in
      let v : Watched q u p d [] s = run-Watched q u p d es l lt silent w in
      let none_left = nothing_to_come q u p s.running in
      let done : v.done ≡ d - count q s.started = omega (arith, v.total, none_left) in
      (omega (arith, v.total, none_left), v.failed.health ∙ ap (level cfg) done)
