-- ===== src/Proxy/Dispatch/Accounting.antt =====
-- internal/proxy/http.go: the connection counters under interleaved requests.
use gobalancer.Common.{
  ℕ, zero, suc, ◌+◌, ◌≤◌, ◌<◌, ◌≡◌, refl, sym, ap, subst, ◌∙◌, ◌≢◌, inl, inr, Option, none, some,
  List, [], ◌∷◌, arith, ◌==◌, if◌then◌else◌, Bool-cases, of_some, length, get_elem?, count, pos,
  negsuc, two_63, add64, add64_one,
}
use native.Mathlib.Decide.{ℕ_discrete}
use gobalancer.Backend.{Heap, Ref, inc_conns, dec_conns, active_conns}
use gobalancer.Pool.{healthy}
use gobalancer.Http.{Request}
use gobalancer.Balancer.{Choice, chosen, nothing, no_backends, panic, is_nil}
use gobalancer.Proxy.Dispatch.{
  remove_at, Selecting, Proxy, forward, serve_http, finish, finish_at, Step, arrives, ends, step,
  run,
}

pub count-remove_at :
    (i : ℕ) (rs : List Ref) (b q : Ref)
    → get_elem? rs i ≡ some b
    → count q rs ≡ (if b == q then 1 else 0) + count q (remove_at i rs)
unfolding remove_at
count-remove_at i [] b q e = absurd (cc (e))
count-remove_at zero (r ∷ rs) b q e = let same : r ≡ b = of_some e in rw same refl
count-remove_at (suc i) (r ∷ rs) b q e = omega (arith, count-remove_at i rs b q e)

add64_down : (n : ℕ) → suc n < two_63 → add64 (pos (suc n)) (negsuc 0) ≡ pos n
unfolding add64
add64_down n h = ground arith

-- The counter of every backend is the number of the requests that it is serving.
abbrev pub Accounted : Heap → List Ref → Type 0
Accounted h rs = (q : Ref) → active_conns h q ≡ pos (count q rs)

count-length : (q : Ref) (rs : List Ref) → count q rs ≤ length rs
count-length q [] = omega arith
count-length q (r ∷ rs) = ground (arith, count-length q rs)

pub inc_conns-Accounted :
    (h : Heap) (rs : List Ref) (b : Ref)
    → suc (length rs) < two_63
    → Accounted h rs
    → Accounted (inc_conns h b) (b ∷ rs)
unfolding inc_conns
inc_conns-Accounted h rs b l a q =
    ground (arith, a q, a b, add64_one (count q rs) (omega (arith, count-length q rs)))

dec_conns_self :
    (h : Heap) (b : Ref) → active_conns (dec_conns h b) b ≡ add64 (active_conns h b) (negsuc 0)
unfolding dec_conns
dec_conns_self h b = ground arith

dec_conns_other : (h : Heap) (b q : Ref) → q ≢ b → active_conns (dec_conns h b) q ≡ active_conns h q
unfolding dec_conns
dec_conns_other h b q n = ground (arith, n)

pub dec_conns-Accounted :
    (h : Heap) (rs : List Ref) (i : ℕ) (b : Ref)
    → length rs < two_63
    → get_elem? rs i ≡ some b
    → Accounted h rs
    → Accounted (dec_conns h b) (remove_at i rs)
dec_conns-Accounted h rs i b l e a q =
    let c : ℕ = count b (remove_at i rs) in
    let served : count b rs ≡ suc c = ground (arith, count-remove_at i rs b b e) in
    let others : q ≢ b → count q rs ≡ count q (remove_at i rs) =
      λ n. ground (arith, n, count-remove_at i rs b q e) in
    let down : add64 (active_conns h b) (negsuc 0) ≡ pos c =
      rw (a b, served) (add64_down c (omega (arith, served, count-length b rs))) in
    elim (ℕ_discrete q b) [
      | yes same ↦
          subst (λ k. active_conns (dec_conns h b) k ≡ pos (count k (remove_at i rs))) (sym same)
            (dec_conns_self h b ∙ down)
      | no n ↦ dec_conns_other h b q n ∙ a q ∙ ap pos (others n)
    ]

pub length-remove_at : (i : ℕ) (rs : List Ref) → length (remove_at i rs) ≤ length rs
unfolding remove_at
length-remove_at i [] = omega arith
length-remove_at zero (r ∷ rs) = omega arith
length-remove_at (suc i) (r ∷ rs) = omega (arith, length-remove_at i rs)

module _ (selecting : Selecting) where
  open selecting use {Selector}

  -- The invariant of the proxy: no more requests than steps, and every counter exact.
  record Exact (n : ℕ) (p : Proxy selecting) : Type 0 where
    few : length p.in_flight ≤ n
    exact : Accounted p.heap p.in_flight

  forward-Exact :
      (n : ℕ) (r : Request) (c : Choice) (s : Selector) (p : Proxy selecting)
      → suc n < two_63
      → Exact n p
      → Exact (suc n) (forward selecting r c s p).1
  unfolding forward
  forward-Exact n r (chosen b) s p l v = record {
    few = omega (arith, v.few);
    exact = inc_conns-Accounted p.heap p.in_flight b (omega (arith, v.few)) v.exact;
  }
  forward-Exact n r nothing s p l v = record { few = omega (arith, v.few); exact = v.exact }
  forward-Exact n r no_backends s p l v = record { few = omega (arith, v.few); exact = v.exact }
  forward-Exact n r panic s p l v = record { few = omega (arith, v.few); exact = v.exact }

  finish_at-Exact :
      (n i : ℕ) (o : Option Ref) (p : Proxy selecting)
      → n < two_63
      → get_elem? p.in_flight i ≡ o
      → Exact n p
      → Exact (suc n) (finish_at selecting i o p)
  unfolding finish_at
  finish_at-Exact n i none p l e v = record { few = omega (arith, v.few); exact = v.exact }
  finish_at-Exact n i (some b) p l e v = record {
    few = omega (arith, v.few, length-remove_at i p.in_flight);
    exact = dec_conns-Accounted p.heap p.in_flight i b (omega (arith, v.few)) e v.exact;
  }

  step-Exact :
      (n : ℕ) (e : Step selecting) (p : Proxy selecting)
      → suc n < two_63
      → Exact n p
      → Exact (suc n) (step selecting e p)
  unfolding step serve_http finish
  step-Exact n (arrives r) p l v = elim (Bool-cases (is_nil (healthy p.heap p.pool))) [
    | inl y ↦ rw (y, step, serve_http) (record { few = omega (arith, v.few); exact = v.exact })
    | inr some_healthy ↦ rw (some_healthy, step, serve_http) (forward-Exact n r _ _ p l v)
  ]
  step-Exact n (ends i) p l v = finish_at-Exact n i (get_elem? p.in_flight i) p (omega arith) refl v

  run-Exact :
      (n : ℕ) (es : List (Step selecting)) (p : Proxy selecting)
      → n + length es < two_63
      → Exact n p
      → Exact (n + length es) (run selecting es p)
  unfolding run
  run-Exact n [] p l v = record { few = omega (arith, v.few); exact = v.exact }
  run-Exact n (e ∷ es) p l v =
      let w =
        run-Exact (suc n) es (step selecting e p) (omega arith)
          (step-Exact n e p (omega arith) v) in
      record { few = omega (arith, w.few); exact = w.exact }

  -- From a proxy that serves no request and counts none, after fewer than 2^63 steps of any
  -- interleaving of requests, failing ones included, the counter of every backend is the number of
  -- requests that it is serving then.
  pub run-Accounted :
      (es : List (Step selecting)) (p : Proxy selecting)
      → length es < two_63
      → p.in_flight ≡ []
      → Accounted p.heap []
      → Accounted (run selecting es p).heap (run selecting es p).in_flight
  run-Accounted es p l e a =
      let start : Exact 0 p = record {
        few = rw e (omega arith);
        exact = subst (Accounted p.heap) (sym e) a;
      } in
      (run-Exact 0 es p (omega arith) start).exact
