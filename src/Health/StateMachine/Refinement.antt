-- ===== src/Health/StateMachine/Refinement.antt =====
-- `Observe` on the shared maps against the probe of a single backend.
use gobalancer.Common.{
  ◌≡◌, refl, ap, ◌∙◌, ◌≢◌, Bool, false, Option, none, some, List, arith, Str, str_eq, insert,
  lookup-insert, lookup-insert_self,
}
use gobalancer.Backend.{Backend, Heap, Ref, Health, get_health, set_health}
use gobalancer.Health.{Config, Time}
use gobalancer.Health.StateMachine.{
  ProbeState, StateMachine, record_probe, transition, state_of, observe, store_health,
}
use gobalancer.Health.StateMachine.Recovery.{Probed, probe, or_same}

-- What the state machine knows of a backend.
abbrev pub view : Ref → Heap × StateMachine → Probed
view r (h, sm) = record { health = get_health h r; counters = state_of sm (h.cell r).id }

state_of-insert_self :
    (cfg : Config) (id : Str) (ps : ProbeState) (m : List (Str × ProbeState))
    → state_of (record { cfg = cfg; states = insert id ps m }) id ≡ ps
unfolding state_of
state_of-insert_self cfg id ps m = rw (lookup-insert_self id ps m) refl

state_of-insert :
    (cfg : Config) (id id' : Str) (ps : ProbeState) (m : List (Str × ProbeState))
    → str_eq id id' ≡ false
    → state_of (record { cfg = cfg; states = insert id ps m }) id'
      ≡ state_of (record { cfg = cfg; states = m }) id'
unfolding state_of
state_of-insert cfg id id' ps m n = rw (lookup-insert id id' ps m, n) refl

store_health_lem :
    (h : Heap) (r : Ref) (s : Option Health)
    → (get_health (store_health h r s) r ≡ or_same (get_health h r) s)
      × (((store_health h r s).cell r).id ≡ (h.cell r).id)
unfolding set_health
store_health_lem h r none = (refl, refl)
store_health_lem h r (some s) = (ground arith, ground arith)

store_health_other :
    (h : Heap) (r q : Ref) (s : Option Health) → r ≢ q → (store_health h r s).cell q ≡ h.cell q
unfolding set_health
store_health_other h r q none n = refl
store_health_other h r q (some s) n = ground (arith, n)

-- `Observe` does to the health and the counters of its backend what one probe does, and nothing to
-- those of another backend with another identifier.
pub observe-probe :
    (now : Time) (probe_ok : Bool) (r : Ref) (h : Heap) (sm : StateMachine)
    → (view r (observe now probe_ok r (h, sm)) ≡ probe sm.cfg (now, probe_ok) (view r (h, sm)))
      × ((q : Ref)
          → r ≢ q
          → str_eq (h.cell r).id (h.cell q).id ≡ false
          → view q (observe now probe_ok r (h, sm)) ≡ view q (h, sm))
unfolding observe probe
observe-probe now probe_ok r h sm =
    let id = (h.cell r).id in
    let (s, ps) =
      transition sm.cfg now (get_health h r) (record_probe now probe_ok (state_of sm id)) in
    let (health, same) = store_health_lem h r s in
    (
      rw (same, health, state_of-insert_self sm.cfg id ps sm.states) refl,
      λ q n m.
          let sm' : StateMachine = record sm { states = insert id ps sm.states } in
          let seen : Backend → Probed =
            λ b. record { health = b.health; counters = state_of sm' b.id } in
          ap seen (store_health_other h r q s n)
          ∙ ap (λ c. record { health = get_health h q; counters = c })
              (state_of-insert sm.cfg id (h.cell q).id ps sm.states m),
    )
