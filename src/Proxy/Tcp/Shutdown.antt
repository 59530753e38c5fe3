-- ===== src/Proxy/Tcp/Shutdown.antt =====
-- internal/proxy/tcp.go: the connection counters, and what holds when `Serve` has returned.
use gobalancer.Common.{
  ℕ, suc, ◌+◌, ◌≤◌, ◌<◌, ◌≡◌, refl, sym, subst, ◌∙◌, Bool, true, false, Option, none, some, List,
  [], ◌∷◌, arith, length, get_elem?, pos, two_63,
}
use gobalancer.Backend.{Ref, active_conns}
use gobalancer.Pool.{healthy}
use gobalancer.Proxy.Dispatch.{remove_at}
use gobalancer.Proxy.Dispatch.Accounting.{
  Accounted, inc_conns-Accounted, dec_conns-Accounted, length-remove_at,
}
use gobalancer.Proxy.Tcp.{
  Phase, accepting, waiting, returned, failed, TcpProxy, handle_first, handle_conn, return_at,
  accept_error, Step, accepts, accept_fails, handler_returns, waits, in_loop, in_wait, wait, step,
  run,
}

-- Once `Serve` has returned nil, no handler runs.
abbrev Ended : Phase → List Ref → Type 0
Ended returned bs = bs ≡ []
Ended accepting bs = Unit {0}
Ended waiting bs = Unit {0}
Ended failed bs = Unit {0}

record Sound (n : ℕ) (p : TcpProxy) : Type 0 where
  few : length p.handlers ≤ n
  exact : Accounted p.heap p.handlers
  ended : Ended p.phase p.handlers

handle_first-Sound :
    (n : ℕ) (bs : List Ref) (p : TcpProxy)
    → suc n < two_63
    → p.phase ≡ accepting
    → Sound n p
    → Sound (suc n) (handle_first bs p).1
unfolding handle_first
handle_first-Sound n [] p l e v = record {
  few = omega (arith, v.few);
  exact = v.exact;
  ended = v.ended;
}
handle_first-Sound n (b ∷ bs) p l e v = record {
  few = omega (arith, v.few);
  exact = inc_conns-Accounted p.heap p.handlers b (omega (arith, v.few)) v.exact;
  ended = rw e tt;
}

Ended-remove_at : (ph : Phase) (bs : List Ref) (i : ℕ) → Ended ph bs → Ended ph (remove_at i bs)
unfolding remove_at
Ended-remove_at accepting bs i e = tt
Ended-remove_at waiting bs i e = tt
Ended-remove_at failed bs i e = tt
Ended-remove_at returned [] i e = refl
Ended-remove_at returned (b ∷ bs) i e = absurd (cc (e))

return_at-Sound :
    (n i : ℕ) (o : Option Ref) (p : TcpProxy)
    → n < two_63
    → get_elem? p.handlers i ≡ o
    → Sound n p
    → Sound (suc n) (return_at i o p)
unfolding return_at
return_at-Sound n i none p l e v = record {
  few = omega (arith, v.few);
  exact = v.exact;
  ended = v.ended;
}
return_at-Sound n i (some b) p l e v = record {
  few = omega (arith, v.few, length-remove_at i p.handlers);
  exact = dec_conns-Accounted p.heap p.handlers i b (omega (arith, v.few)) e v.exact;
  ended = Ended-remove_at p.phase p.handlers i v.ended;
}

Sound-suc : (n : ℕ) (p : TcpProxy) → Sound n p → Sound (suc n) p
Sound-suc n p v = record { few = omega (arith, v.few); exact = v.exact; ended = v.ended }

in_loop-Sound :
    (ph : Phase) (f : TcpProxy → TcpProxy) (n : ℕ) (p : TcpProxy)
    → (p.phase ≡ accepting → Sound (suc n) (f p))
    → Sound n p
    → p.phase ≡ ph
    → Sound (suc n) (in_loop ph f p)
in_loop-Sound accepting f n p s v e = s e
in_loop-Sound waiting f n p s v e = Sound-suc n p v
in_loop-Sound returned f n p s v e = Sound-suc n p v
in_loop-Sound failed f n p s v e = Sound-suc n p v

accept_error-Sound :
    (ctx_done : Bool) (n : ℕ) (p : TcpProxy) → Sound n p → Sound (suc n) (accept_error ctx_done p)
unfolding accept_error
accept_error-Sound true n p v = record { few = omega (arith, v.few); exact = v.exact; ended = tt }
accept_error-Sound false n p v = record { few = omega (arith, v.few); exact = v.exact; ended = tt }

wait-Sound :
    (bs : List Ref) (n : ℕ) (p : TcpProxy) → p.handlers ≡ bs → Sound n p → Sound (suc n) (wait bs p)
wait-Sound [] n p e v = record { few = omega (arith, v.few); exact = v.exact; ended = e }
wait-Sound (b ∷ bs) n p e v = Sound-suc n p v

in_wait-Sound : (ph : Phase) (n : ℕ) (p : TcpProxy) → Sound n p → Sound (suc n) (in_wait ph p)
in_wait-Sound waiting n p v = wait-Sound p.handlers n p refl v
in_wait-Sound accepting n p v = Sound-suc n p v
in_wait-Sound returned n p v = Sound-suc n p v
in_wait-Sound failed n p v = Sound-suc n p v

step-Sound :
    (n : ℕ) (e : Step) (p : TcpProxy) → suc n < two_63 → Sound n p → Sound (suc n) (step e p)
unfolding step handle_conn
step-Sound n accepts p l v =
    in_loop-Sound p.phase _ n p (λ e. handle_first-Sound n (healthy p.heap p.pool) p l e v) v refl
step-Sound n (accept_fails ctx_done) p l v =
    in_loop-Sound p.phase _ n p (λ e. accept_error-Sound ctx_done n p v) v refl
step-Sound n (handler_returns i) p l v =
    return_at-Sound n i (get_elem? p.handlers i) p (omega arith) refl v
step-Sound n waits p l v = in_wait-Sound p.phase n p v

run-Sound :
    (n : ℕ) (es : List Step) (p : TcpProxy)
    → n + length es < two_63
    → Sound n p
    → Sound (n + length es) (run es p)
unfolding run
run-Sound n [] p l v = record { few = omega (arith, v.few); exact = v.exact; ended = v.ended }
run-Sound n (e ∷ es) p l v =
    let w = run-Sound (suc n) es (step e p) (omega arith) (step-Sound n e p (omega arith) v) in
    record { few = omega (arith, w.few); exact = w.exact; ended = w.ended }

-- From a proxy that runs no handler and counts no connection, after fewer than 2^63 events in any
-- order, the counter of every backend is the number of handlers that run for it; and once `Serve`
-- has returned nil no handler runs and every counter is 0.
pub run-Drained :
    (es : List Step) (p : TcpProxy)
    → length es < two_63
    → p.handlers ≡ []
    → p.phase ≡ accepting
    → Accounted p.heap []
    → let q = run es p in
      Accounted q.heap q.handlers
      × (q.phase ≡ returned → (q.handlers ≡ []) × ((b : Ref) → active_conns q.heap b ≡ pos 0))
run-Drained es p l e f a =
    let start : Sound 0 p = record {
      few = rw e (omega arith);
      exact = subst (Accounted p.heap) (sym e) a;
      ended = rw f tt;
    } in
    let v = run-Sound 0 es p (omega arith) start in
    (
      v.exact,
      λ r.
          let none_left : (run es p).handlers ≡ [] =
            subst (λ ph. Ended ph (run es p).handlers) r v.ended in
          (none_left, λ b. v.exact b ∙ rw none_left refl),
    )
