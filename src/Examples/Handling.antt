-- ===== src/Examples/Handling.antt =====
-- Handlers behind the middleware: compression, metrics, the access log, headers and request ids.
use gobalancer.Common.{
  ℕ, ◌≡◌, refl, ap, Bool, true, false, Option, none, some, List, [], ◌∷◌, ◌++◌, append-nil,
  if◌then◌else◌, Str, lit, str_eq,
}
use gobalancer.Http.{Request, header_get, header_set}
use gobalancer.Http.Serving.{
  returns, panics, sets, Status, writes_header, writes, Handler, unsent, serves, sent,
}
use gobalancer.Http.Serving.Whole.{takes_all}
use gobalancer.Middleware.Gzip.{Codec, gzip_middleware, contains_str}
use gobalancer.Middleware.Gzip.Roundtrip.{encode_all, joined, Lossless, decode-gzip_middleware}
use gobalancer.Middleware.RequestId.{request_id, request_id-request_id}
use gobalancer.Middleware.Headers.{HeaderRewriter, middleware}
use gobalancer.Middleware.Headers.Late.{rewritten, sent-middleware}
use gobalancer.Examples.Data.{request}

abbrev unavailable : Status
unavailable = record { code = 503; valid = refl }

abbrev hello : Handler
hello r = sets (lit "Content-Type") (lit "text/plain") (
    writes_header unavailable (writes (lit "hello") (λ a. writes (lit " there") (λ b. returns tt))))

-- A handler that panics behind its first bytes.
abbrev broken : Handler
broken r = writes (lit "hel") (λ a. panics)

abbrev client : Request
client = record (request "10.0.0.9") {
  header = header_set [] (lit "Accept-Encoding") (lit "gzip, br");
}

-- A compressor that puts one byte in front.
abbrev encode : Bool → Str → Str × Bool
encode true s = (s, true)
encode false s = (31 ∷ s, true)

abbrev behind : Str → Option Str
behind [] = none
behind (c ∷ s) = some s

abbrev stored : Codec
stored = record {
  Coder = Bool;
  reset = false;
  encode = encode;
  close = λ z. if z then [] else 31 ∷ [];
  decode = behind;
}

encode_all-joined : (bs : List Str) → encode_all stored bs true ≡ (joined stored bs, true)
unfolding encode_all
encode_all-joined [] = refl
encode_all-joined (b ∷ bs) = rw (encode_all-joined bs) refl

stored-Lossless : Lossless stored
unfolding encode_all
stored-Lossless [] = refl
stored-Lossless (b ∷ bs) = rw (encode_all-joined bs) (ap some (append-nil (b ++ joined stored bs)))

decode-gzip_middleware_example :
    let (o, zipped) = serves takes_all (gzip_middleware stored 1024 hello client) (unsent []) in
    let (o', plain) = serves takes_all (hello client) (unsent []) in
    (o ≡ o')
    × (behind zipped.body ≡ some plain.body)
    × ((sent zipped).0 ≡ (sent plain).0)
    × (header_get (sent zipped).1 (lit "Content-Encoding") ≡ lit "gzip")
    × (header_get (sent zipped).1 (lit "Content-Length") ≡ [])
unfolding header_get contains_str header_set str_eq
decode-gzip_middleware_example =
    decode-gzip_middleware stored 1024 hello client [] stored-Lossless (λ a b. tt) (refl, λ e. refl)
      refl

abbrev rules : HeaderRewriter
rules = record {
  adds = (lit "X-Served-By", lit "gobalancer") ∷ [];
  removes = lit "Server" ∷ [];
  sets = (lit "Content-Type", lit "text/html") ∷ [];
}

sent-middleware_example :
    let plain = (serves takes_all (hello client) (unsent [])).1 in
    let out = (serves takes_all (middleware rules hello client) (unsent [])).1 in
    (out.body ≡ plain.body)
    × ((c : ℕ × List (Str × Str)) → plain.committed ≡ some c → sent out ≡ c)
    × (plain.committed ≡ none → sent out ≡ (200, rewritten rules plain.header))
unfolding serves
sent-middleware_example = sent-middleware takes_all rules hello client (unsent []) refl

request_id-request_id_example :
    serves takes_all (request_id (lit "u1") (request_id (lit "u2") hello) client) (unsent [])
    ≡ serves takes_all (request_id (lit "u1") hello client) (unsent [])
request_id-request_id_example =
    request_id-request_id takes_all (lit "u1") (lit "u2") hello client (unsent []) refl
