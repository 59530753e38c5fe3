-- ===== src/Proxy/Dispatch.antt =====
-- internal/proxy/http.go: `ServeHTTP`, whose deferred calls make the end of a request a step of its
-- own, so that a run interleaves the requests.
pub mod Accounting
pub mod Members
pub mod Fairness
pub mod Shedding
use gobalancer.Common.{ℕ, zero, suc, Option, none, some, List, [], ◌∷◌, if◌then◌else◌, get_elem?}
use gobalancer.Backend.{Heap, Ref, inc_conns, dec_conns}
use gobalancer.Pool.{Pool, healthy}
use gobalancer.Http.{Request, Context}
use gobalancer.Balancer.{Choice, chosen, nothing, no_backends, panic, is_nil}
use gobalancer.Proxy.Director.{director}

-- What happens to a request: 502, 503, a run-time panic, or it goes to a backend.
pub data Dispatched : Type 0 where
  bad_gateway : Dispatched
  unavailable : Dispatched
  crashed : Dispatched
  sent : Ref → Request → Dispatched

-- `list[:i]` and `list[i+1:]` joined.
unfoldable pub remove_at : ℕ → List Ref → List Ref
remove_at i [] = []
remove_at zero (r ∷ rs) = rs
remove_at (suc i) (r ∷ rs) = r ∷ remove_at i rs

-- The backend goes into the request's context, where `BackendFromContext` finds it.
unfoldable pub with_backend : Ref → Request → Request
with_backend b r = record r { context = record r.context { backend = some b } }

unfoldable pub backend_from_context : Context → Option Ref
backend_from_context ctx = ctx.backend

-- The selector: its state, and its `Next`.
pub record Selecting : Type 1 where
  pub Selector : Type 0
  pub next : Selector → Heap → Request → List Ref → Choice × Selector

module _ (selecting : Selecting) where
  open selecting use {Selector}

  -- The requests that a backend is serving are listed by their backends.
  pub record Proxy : Type 0 where
    pub pool : Pool
    pub selector : Selector
    pub heap : Heap
    pub in_flight : List Ref

  unfoldable pub new_http_proxy : Heap → Pool → Selector → Proxy
  new_http_proxy h pool sel = record { pool = pool; selector = sel; heap = h; in_flight = [] }

  -- From the selector's answer on; a nil backend or a panic of the selector ends in a panic.
  unfoldable pub forward : Request → Choice → Selector → Proxy → Dispatched × Proxy
  unfolding inc_conns director with_backend
  forward r (chosen b) s p = (
    sent b (director (p.heap.cell b).url (with_backend b r)),
    record p { selector = s; heap = inc_conns p.heap b; in_flight = b ∷ p.in_flight },
  )
  forward r nothing s p = (crashed, record p { selector = s })
  forward r no_backends s p = (unavailable, record p { selector = s })
  forward r panic s p = (crashed, record p { selector = s })

  unfoldable pub serve_http : Request → Proxy → Dispatched × Proxy
  unfolding forward healthy
  serve_http r p =
      let backends = healthy p.heap p.pool in
      let (choice, s) = selecting.next p.selector p.heap r backends in
      if is_nil backends then (bad_gateway, p) else forward r choice s p

  -- The deferred `DecConns`, once the upstream has answered or failed; `none` is no such request.
  unfoldable pub finish_at : ℕ → Option Ref → Proxy → Proxy
  unfolding dec_conns remove_at
  finish_at i none p = p
  finish_at i (some b) p = record p {
    heap = dec_conns p.heap b;
    in_flight = remove_at i p.in_flight;
  }

  unfoldable pub finish : ℕ → Proxy → Proxy
  unfolding finish_at
  finish i p = finish_at i (get_elem? p.in_flight i) p

  pub data Step : Type 0 where
    arrives : Request → Step
    ends : ℕ → Step

  unfoldable pub step : Step → Proxy → Proxy
  unfolding serve_http finish
  step (arrives r) p = (serve_http r p).1
  step (ends i) p = finish i p

  unfoldable pub run : List Step → Proxy → Proxy
  unfolding step
  run [] p = p
  run (e ∷ es) p = run es (step e p)
