-- ===== src/Middleware/Logger.antt =====
-- internal/middleware/logger.go. The latency, which is read off a clock, is not in the line.
use gobalancer.Common.{
  ℕ, ◌<◌, ◌≡◌, refl, Bool, Option, none, some, [], ◌∷◌, ◌++◌, length, ℤ, pos, two_63, add64, Str,
  lit,
}
use gobalancer.Http.{Request, header_get}
use gobalancer.Http.Serving.{
  Status, Serving, returns, panics, writes_header, writes, emits, logged, bind, Wrapper, wrapped,
  Handler, Response,
}
use gobalancer.Http.Serving.Laws.{Forwards}
use gobalancer.Http.Serving.Invariants.{StatusAgrees}
use gobalancer.Middleware.RateLimit.{client_ip}

pub record ResponseRecorder : Type 0 where
  pub status : ℕ
  pub bytes : ℤ  -- int64

unfoldable pub new_response_recorder : ResponseRecorder
new_response_recorder = record { status = 200; bytes = pos 0 }

unfoldable pub write_header : ResponseRecorder → Status → Serving ResponseRecorder
write_header r code = writes_header code (returns (record r { status = code.code }))

unfoldable pub write : ResponseRecorder → Str → Serving ((ℕ × Bool) × ResponseRecorder)
write r b = writes b (λ (n, err). returns ((n, err), record r { bytes = add64 r.bytes (pos n) }))

unfoldable pub recorder : Wrapper ResponseRecorder
unfolding write_header write
recorder = record { write_header = write_header; write = write }

unfoldable pub log_request : Request → Option (Unit {0}) → ResponseRecorder → Serving (Unit {0})
unfolding client_ip header_get
log_request r none rec = panics
log_request r (some _) rec =
    emits
      (logged r.method r.url_path rec.status rec.bytes (client_ip r)
        (header_get r.header (lit "User-Agent")))
      (returns tt)

unfoldable pub access_logger : Handler → Handler
unfolding recorder wrapped bind new_response_recorder log_request
access_logger next r =
    bind (wrapped recorder (next r) new_response_recorder) (λ (o, rec). log_request r o rec)

recorder-Forwards : Forwards recorder
unfolding recorder
recorder-Forwards = record {
  on_code = λ r code. record r { status = code };
  on_write = λ r b a. record r { bytes = add64 r.bytes (pos a.0) };
  forwards_code = λ r code. refl;
  forwards_write = λ r b. refl;
}

-- The bytes that were counted, as long as they fit.
abbrev BytesAgree : ℤ → Response → Type 0
BytesAgree bytes r = length r.body < two_63 → bytes ≡ pos (length r.body)

abbrev Agrees : ResponseRecorder → Response → Type 0
Agrees rec r = StatusAgrees rec.status r × BytesAgree rec.bytes r

-- The line of a request that was answered; there is none behind a panic.
pub logged_once : Request → ℕ → Option (Unit {0}) × Response → Option (Unit {0}) × Response
unfolding client_ip header_get
logged_once r status (none, w) = (none, w)
logged_once r status (some u, w) = (
  some u,
  record w {
    events =
        w.events
        ++ logged r.method r.url_path status (pos (length w.body)) (client_ip r)
            (header_get r.header (lit "User-Agent"))
          ∷ [];
  },
)
