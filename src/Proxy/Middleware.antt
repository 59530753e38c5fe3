-- ===== src/Proxy/Middleware.antt =====
-- internal/proxy/middleware.go.
use gobalancer.Common.{
  ℕ, zero, suc, ◌≡◌, refl, sym, ap, ◌∙◌, Bool, Option, none, some, List, [], ◌∷◌, ◌++◌, length,
  get_elem?, ℤ, pos, add64, Str,
}
use gobalancer.Http.Serving.{Status, Serving, returns, writes_header, writes, Wrapper, Handler}

pub record ResponseWriter : Type 0 where
  pub status : ℕ
  pub written : ℤ  -- int64

unfoldable pub new_response_writer : ResponseWriter
new_response_writer = record { status = 200; written = pos 0 }

unfoldable pub write_header : ResponseWriter → Status → Serving ResponseWriter
write_header rw code = writes_header code (returns (record rw { status = code.code }))

unfoldable pub write : ResponseWriter → Str → Serving ((ℕ × Bool) × ResponseWriter)
write rw b =
    writes b (λ (n, err). returns ((n, err), record rw { written = add64 rw.written (pos n) }))

unfoldable pub response_writer : Wrapper ResponseWriter
unfolding write_header write
response_writer = record { write_header = write_header; write = write }

abbrev pub Middleware : Type 0
Middleware = Handler → Handler

abbrev applied : Option Middleware → Handler → Handler
applied none h = h
applied (some m) h = m h

-- The loop, from the index `i - 1` down to 0.
unfoldable pub chain_from : ℕ → List Middleware → Handler → Handler
chain_from zero ms h = h
chain_from (suc i) ms h = chain_from i ms (applied (get_elem? ms i) h)

unfoldable pub chain : Handler → List Middleware → Handler
unfolding chain_from
chain h ms = chain_from (length ms) ms h

chain_from-cons :
    (i : ℕ) (m : Middleware) (ms : List Middleware) (h : Handler)
    → chain_from (suc i) (m ∷ ms) h ≡ m (chain_from i ms h)
unfolding chain_from
chain_from-cons zero m ms h = refl
chain_from-cons (suc i) m ms h = chain_from-cons i m ms (applied (get_elem? ms i) h)

chain-cons :
    (h : Handler) (m : Middleware) (ms : List Middleware) → chain h (m ∷ ms) ≡ m (chain h ms)
unfolding chain
chain-cons h m ms = chain_from-cons (length ms) m ms h

-- The first middleware is the outermost: a chain of two stacks is the first around the second, and a
-- stack of one or none is that one around the handler, or the handler.
pub chain-append :
    (h : Handler) (ms ns : List Middleware)
    → (chain h (ms ++ ns) ≡ chain (chain h ns) ms)
      × ((m : Middleware) → chain h (m ∷ ns) ≡ m (chain h ns))
      × (chain h [] ≡ h)
unfolding chain chain_from
chain-append h [] ns = (refl, λ m. chain-cons h m ns, refl)
chain-append h (n ∷ ms) ns = (
  chain-cons h n (ms ++ ns) ∙ ap n (chain-append h ms ns).0 ∙ sym (chain-cons (chain h ns) n ms),
  λ m. chain-cons h m ns,
  refl,
)
