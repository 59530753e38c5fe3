-- ===== src/Admin/Drain/Running.antt =====
-- internal/admin/drain.go with internal/proxy/http.go: a backend that is drained under load.
use gobalancer.Common.{◌≤◌, ◌≡◌, refl, ◌≢◌, false, List, [], ◌∷◌, arith, count}
use gobalancer.Backend.{Heap, Ref, disabled, set_health, is_healthy}
use gobalancer.Proxy.Dispatch.{Selecting, Proxy, Step, run}
use gobalancer.Proxy.Dispatch.Members.{PicksMembers}
use gobalancer.Proxy.Dispatch.Shedding.{run-Sheds}
use gobalancer.Admin.Drain.{Event, ticks, expires, drained, crashed, wait_done, poll, drain}

-- A drain never finds its backend drained: the first tick of the poll panics.
pub drain_outcome :
    (b : Ref) (es : List Event) (h : Heap)
    → ((drain b es h).0 ≢ drained)
      × ((h' : Heap) (fs : List Event) → es ≡ ticks h' ∷ fs → (drain b es h).0 ≡ crashed)
unfolding drain wait_done poll
drain_outcome b [] h = (λ e. absurd (cc (e)), λ h' fs e. absurd (cc (e)))
drain_outcome b (ticks g ∷ es) h = (λ e. absurd (cc (e)), λ h' fs e. refl)
drain_outcome b (expires ∷ es) h = (λ e. absurd (cc (e)), λ h' fs e. absurd (cc (e)))

is_healthy-set_health : (h : Heap) (b : Ref) → is_healthy (set_health h b disabled) b ≡ false
unfolding set_health
is_healthy-set_health h b = ground arith

module _ (selecting : Selecting) where
  -- From the moment that a drain has disabled a backend, and with a selector that picks only from the list
  -- that it is given, requests that arrive and end in any order never raise the number of those at the
  -- backend.
  pub run-drain :
      (b : Ref) (events : List Event) (es : List (Step selecting)) (p : Proxy selecting)
      → PicksMembers selecting
      → count b (run selecting es (record p { heap = (drain b events p.heap).1 })).in_flight
        ≤ count b p.in_flight
  unfolding drain
  run-drain b events es p m =
      (run-Sheds selecting b es (record p { heap = (drain b events p.heap).1 }) m
        (is_healthy-set_health p.heap b)).fewer
