-- ===== src/Proxy/Dispatch/Shedding.antt =====
-- internal/proxy/http.go: a backend that is not healthy.
use gobalancer.Common.{
  ℕ, zero, suc, ◌≤◌, ◌≡◌, ap, ◌∙◌, ◌≢◌, inl, inr, false, Option, none, some, List, [], ◌∷◌, arith,
  Bool-cases, get_elem?, count,
}
use native.Mathlib.Decide.{ℕ_discrete}
use gobalancer.Backend.{Ref, is_healthy}
use gobalancer.Backend.Conns.{is_healthy-inc_conns, is_healthy-dec_conns}
use gobalancer.Pool.{healthy}
use gobalancer.Http.{Request}
use gobalancer.Balancer.{Choice, chosen, nothing, no_backends, panic, is_nil}
use gobalancer.Proxy.Dispatch.{
  remove_at, Selecting, Proxy, forward, serve_http, finish_at, finish, Step, arrives, ends, step,
  run,
}
use gobalancer.Proxy.Dispatch.Members.{PicksMembers, select-mem}

count-remove_at_le : (q i : ℕ) (bs : List Ref) → count q (remove_at i bs) ≤ count q bs
unfolding remove_at
count-remove_at_le q i [] = omega arith
count-remove_at_le q zero (b ∷ bs) = omega arith
count-remove_at_le q (suc i) (b ∷ bs) = omega (arith, count-remove_at_le q i bs)

module _ (selecting : Selecting) where
  open selecting use {Selector}

  -- No more requests at the backend, which stays out.
  pub record Sheds (b : Ref) (p q : Proxy selecting) : Type 0 where
    pub fewer : count b q.in_flight ≤ count b p.in_flight
    pub out : is_healthy q.heap b ≡ false

  forward-Sheds :
      (b : Ref) (r : Request) (c : Choice) (s : Selector) (p : Proxy selecting)
      → is_healthy p.heap b ≡ false
      → (c ≢ chosen b)
      → Sheds b p (forward selecting r c s p).1
  unfolding forward
  forward-Sheds b r (chosen q) s p out n = elim (ℕ_discrete q b) [
    | yes e ↦ absurd (n (ap chosen e))
    | no k ↦ record { fewer = ground (arith, k); out = is_healthy-inc_conns p.heap q b ∙ out }
  ]
  forward-Sheds b r nothing s p out n = record { fewer = omega arith; out = out }
  forward-Sheds b r no_backends s p out n = record { fewer = omega arith; out = out }
  forward-Sheds b r panic s p out n = record { fewer = omega arith; out = out }

  finish_at-Sheds :
      (b : Ref) (i : ℕ) (o : Option Ref) (p : Proxy selecting)
      → is_healthy p.heap b ≡ false
      → Sheds b p (finish_at selecting i o p)
  unfolding finish_at
  finish_at-Sheds b i none p out = record { fewer = omega arith; out = out }
  finish_at-Sheds b i (some q) p out = record {
    fewer = count-remove_at_le b i p.in_flight;
    out = is_healthy-dec_conns p.heap q b ∙ out;
  }

  step-Sheds :
      (b : Ref) (e : Step selecting) (p : Proxy selecting)
      → PicksMembers selecting
      → is_healthy p.heap b ≡ false
      → Sheds b p (step selecting e p)
  unfolding step serve_http finish healthy
  step-Sheds b (arrives r) p m out = elim (Bool-cases (is_nil (healthy p.heap p.pool))) [
    | inl y ↦ rw (y, step, serve_http) (record { fewer = omega arith; out = out })
    | inr n ↦
        rw (n, step, serve_http)
          (forward-Sheds b r _ _ p out (λ picked.
            let (up, _) =
              select-mem (is_healthy p.heap) p.pool.backends b
                (m p.selector p.heap r (healthy p.heap p.pool) b picked) in
            absurd (cc (up, out))))
  ]
  step-Sheds b (ends i) p m out = finish_at-Sheds b i (get_elem? p.in_flight i) p out

  -- A backend that is not healthy stays so, and the number of requests at it never rises.
  pub run-Sheds :
      (b : Ref) (es : List (Step selecting)) (p : Proxy selecting)
      → PicksMembers selecting
      → is_healthy p.heap b ≡ false
      → Sheds b p (run selecting es p)
  unfolding run
  run-Sheds b [] p m out = record { fewer = omega arith; out = out }
  run-Sheds b (e ∷ es) p m out =
      let d = step-Sheds b e p m out in
      let ds = run-Sheds b es (step selecting e p) m d.out in
      record { fewer = omega (arith, d.fewer, ds.fewer); out = ds.out }
