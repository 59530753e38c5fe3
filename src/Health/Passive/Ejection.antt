-- ===== src/Health/Passive/Ejection.antt =====
-- How the passive checker ejects and readmits a backend.
use gobalancer.Common.{
  ℕ, ◌≤◌, ◌≡◌, refl, sym, ap, ◌∙◌, inl, inr, Bool, true, false, some, List, [], ◌∷◌, arith, ◌==◌,
  if◌then◌else◌, Bool-cases, length, length-append, ℤ, pos, leb_ℤ, eq_ℤ, Str, lookup, insert,
  lookup-insert_self,
}
use gobalancer.Backend.{
  Heap, Ref, Health, healthy, unhealthy, probation, get_health, set_health, is_healthy,
}
use gobalancer.Health.{Time, elapsed, first_backoff}
use gobalancer.Health.Passive.{
  Event, PassiveChecker, before_cutoff, trim, window_of, backoff_of, record_event,
  backoffs_of_eject, is_over, observe, readmit_at, try_readmit,
}

-- The events of a window in the order of their times.
pub data InOrder : List Event → Type 0 where
  no_event : InOrder []
  one_event : (e : Event) → InOrder (e ∷ [])
  earlier :
      {e e' : Event} {es : List Event} → e.ts ≤ e'.ts → InOrder (e' ∷ es) → InOrder (e ∷ e' ∷ es)

-- The events that are not before the cutoff.
abbrev pub recent : Time → ℤ → List Event → List Event
recent now window [] = []
recent now window (e ∷ es) =
    if before_cutoff now window e then recent now window es else e ∷ recent now window es

recent_all :
    (now : Time) (window : ℤ) (e : Event) (es : List Event)
    → InOrder (e ∷ es)
    → before_cutoff now window e ≡ false
    → recent now window es ≡ es
recent_all now window e [] o n = refl
recent_all now window e (e' ∷ es) (InOrder.earlier le o) n =
    let n' : before_cutoff now window e' ≡ false = ground arith in
    rw n' (ap (λ l. e' ∷ l) (recent_all now window e' es o n'))

-- On a window in the order of time, trimming the front keeps exactly the events that are not before
-- the cutoff.
pub trim-recent :
    (now : Time) (window : ℤ) (es : List Event)
    → InOrder es
    → trim now window es ≡ recent now window es
unfolding trim
trim-recent now window [] o = refl
trim-recent now window (e ∷ []) o = refl
trim-recent now window (e ∷ e' ∷ es) (InOrder.earlier le o) =
    elim (Bool-cases (before_cutoff now window e)) [
      | inl y ↦ rw y (trim-recent now window (e' ∷ es) o)
      | inr n ↦
          rw n (ap (λ l. e ∷ l) (sym (recent_all now window e (e' ∷ es) (InOrder.earlier le o) n)))
    ]

some_event :
    (now : Time) (is_error : Bool) (id : Str) (pc : PassiveChecker)
    → (length (record_event now is_error id pc) == 0) ≡ false
unfolding record_event
some_event now is_error id pc =
    rw
      (length-append (trim now pc.cfg.passive_window (window_of pc id))
        (record { ts = now; err = is_error } ∷ []))
      (ground arith)

healthy_now : (h : Heap) (r : Ref) → get_health h r ≡ healthy → is_healthy h r ≡ true
healthy_now h r s = rw s refl

set_health_self :
    (h : Heap) (r : Ref) (s : Health) → (set_health h r s).cell r ≡ record (h.cell r) { health = s }
unfolding set_health
set_health_self h r s = ground arith

-- The state after a call of `Observe` that ejects the backend.
ejects :
    (rate_reached : ℕ → ℕ → Bool) (now : Time) (is_error : Bool) (r : Ref) (h : Heap)
    (pc : PassiveChecker)
    → get_health h r ≡ healthy
    → is_over rate_reached (record_event now is_error (h.cell r).id pc) ≡ true
    → observe rate_reached now is_error r (h, pc) ≡ (
      set_health h r unhealthy,
      record pc {
        windows = insert (h.cell r).id (record_event now is_error (h.cell r).id pc) pc.windows;
        backoffs = backoffs_of_eject (h.cell r).id pc;
        ejected = insert (h.cell r).id now pc.ejected;
      },
    )
unfolding observe
ejects rate_reached now is_error r h pc s o =
    rw (some_event now is_error (h.cell r).id pc, o, healthy_now h r s) refl

-- The backoff of a backend that is ejected.
abbrev pub backoff_at_eject : Str → PassiveChecker → ℤ
backoff_at_eject id pc = if eq_ℤ (backoff_of pc id) (pos 0) then first_backoff else backoff_of pc id

backoffs_of_eject-backoff :
    (id : Str) (pc pc' : PassiveChecker)
    → pc'.backoffs ≡ backoffs_of_eject id pc
    → backoff_of pc' id ≡ backoff_at_eject id pc
unfolding backoffs_of_eject backoff_of
backoffs_of_eject-backoff id pc pc' e = elim (Bool-cases (eq_ℤ (backoff_of pc id) (pos 0))) [
  | inl y ↦ rw (e, y, lookup-insert_self id first_backoff pc.backoffs) refl
  | inr n ↦ rw (e, n) refl
]

readmitted :
    (later ejected_at : Time) (r : Ref) (h : Heap) (pc : PassiveChecker)
    → get_health h r ≡ unhealthy
    → lookup (h.cell r).id pc.ejected ≡ some ejected_at
    → get_health (try_readmit later r (h, pc)).0 r ≡ (
        if leb_ℤ (backoff_of pc (h.cell r).id) (elapsed later ejected_at)
        then probation
        else unhealthy)
unfolding try_readmit readmit_at
readmitted later ejected_at r h pc s e =
    elim (Bool-cases (leb_ℤ (backoff_of pc (h.cell r).id) (elapsed later ejected_at))) [
      | inl y ↦ rw (s, e, y) (ap (λ b. b.health) (set_health_self h r probation))
      | inr n ↦ rw (s, e, n) s
    ]

-- A healthy backend whose window reaches the error rate is ejected, and stays out exactly until its
-- backoff has passed since then: an attempt before that leaves it unhealthy, a later one puts it on
-- probation, whatever `Observe` saw before.
pub ejected_until_backoff :
    (rate_reached : ℕ → ℕ → Bool) (now later : Time) (is_error : Bool) (r : Ref) (h : Heap)
    (pc : PassiveChecker)
    → get_health h r ≡ healthy
    → is_over rate_reached (record_event now is_error (h.cell r).id pc) ≡ true
    → (let s = observe rate_reached now is_error r (h, pc) in
        (get_health s.0 r ≡ unhealthy)
        × (get_health (try_readmit later r s).0 r ≡ (
            if leb_ℤ (backoff_at_eject (h.cell r).id pc) (elapsed later now)
            then probation
            else unhealthy)))
ejected_until_backoff rate_reached now later is_error r h pc s o =
    let id = (h.cell r).id in
    let h' = set_health h r unhealthy in
    let pc' : PassiveChecker = record pc {
      windows = insert id (record_event now is_error id pc) pc.windows;
      backoffs = backoffs_of_eject id pc;
      ejected = insert id now pc.ejected;
    } in
    let self = set_health_self h r unhealthy in
    let out : get_health h' r ≡ unhealthy = ap (λ b. b.health) self in
    let same : (h'.cell r).id ≡ id = ap (λ b. b.id) self in
    rw (ejects rate_reached now is_error r h pc s o) (
      out,
      readmitted later now r h' pc' out (rw same (lookup-insert_self id now pc.ejected))
          ∙ rw (same, backoffs_of_eject-backoff id pc pc' refl) refl,
    )
