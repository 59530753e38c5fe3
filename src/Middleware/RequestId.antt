-- ===== src/Middleware/RequestId.antt =====
-- internal/middleware/requestid.go. The UUID that would be made for a request is an argument.
use gobalancer.Common.{
  ℕ, ◌≡◌, refl, inl, inr, Bool, false, none, some, [], if◌then◌else◌, Bool-cases, Str, lit, str_eq,
  is_empty,
}
use gobalancer.Http.{
  Request, Context, header_get, header_set, canonical, header_get-header_set,
  header_get-header_set_self, header_set-header_set,
}
use gobalancer.Http.Serving.{sets, Handler, Response, serves}

abbrev pub x_request_id : Str
x_request_id = lit "X-Request-ID"

unfoldable pub id_of : Str → Request → Str
unfolding header_get
id_of uuid r = let id = header_get r.header x_request_id in if is_empty id then uuid else id

-- The request that is handed down.
unfoldable pub with_id : Str → Request → Request
unfolding header_set
with_id id r = record r {
  context = record r.context { request_id = some id };
  header = header_set r.header x_request_id id;
}

unfoldable pub request_id : Str → Handler → Handler
unfolding id_of with_id
request_id uuid next r = let id = id_of uuid r in sets x_request_id id (next (with_id id r))

unfoldable pub request_id_from_context : Context → Str
request_id_from_context ctx = elim ctx.request_id [ none ↦ [] | some id ↦ id ]

-- The header of a request names the id, which is the client's if it sent one; the context and the
-- response name the same id, and every other header comes down as it was sent.
pub request_id-id_of :
    (takes : Response → Str → ℕ × Bool) (uuid : Str) (next : Handler) (r : Request) (w : Response)
    → (down : Request) × (w' : Response) × (serves takes (request_id uuid next r) w
        ≡ serves takes (next down) w')
      × (header_get down.header x_request_id ≡ id_of uuid r)
      × (request_id_from_context down.context ≡ id_of uuid r)
      × (header_get w'.header x_request_id ≡ id_of uuid r)
      × (is_empty (header_get r.header x_request_id) ≡ false
          → id_of uuid r ≡ header_get r.header x_request_id)
      × ((k : Str)
          → str_eq (canonical x_request_id) (canonical k) ≡ false
          → header_get down.header k ≡ header_get r.header k)
unfolding request_id request_id_from_context with_id serves id_of
request_id-id_of takes uuid next r w =
    let id = id_of uuid r in
    (
      with_id id r,
      record w { header = header_set w.header x_request_id id },
      refl,
      header_get-header_set_self r.header x_request_id id,
      refl,
      header_get-header_set_self w.header x_request_id id,
      λ e. rw e refl,
      λ k n. rw (header_get-header_set r.header k x_request_id id, n) refl,
    )

id_of-is_empty :
    (uuid : Str) (r : Request) → is_empty uuid ≡ false → is_empty (id_of uuid r) ≡ false
unfolding id_of
id_of-is_empty uuid r h = elim (Bool-cases (is_empty (header_get r.header x_request_id))) [
  | inl e ↦ rw e h
  | inr n ↦ rw n n
]

id_of-with_id : (uuid id : Str) (r : Request) → is_empty id ≡ false → id_of uuid (with_id id r) ≡ id
unfolding id_of with_id
id_of-with_id uuid id r h = rw (header_get-header_set_self r.header x_request_id id, h) refl

with_id-with_id : (id : Str) (r : Request) → with_id id (with_id id r) ≡ with_id id r
unfolding with_id
with_id-with_id id r = rw (header_set-header_set r.header x_request_id id) refl

-- Behind another one, the middleware keeps the id that the outer one gave, whatever UUID it would
-- make itself.
pub request_id-request_id :
    (takes : Response → Str → ℕ × Bool) (outer inner : Str) (next : Handler) (r : Request)
    (w : Response)
    → is_empty outer ≡ false
    → serves takes (request_id outer (request_id inner next) r) w
      ≡ serves takes (request_id outer next r) w
unfolding request_id serves
request_id-request_id takes outer inner next r w h =
    let id = id_of outer r in
    rw
      (
        id_of-with_id inner id r (id_of-is_empty outer r h),
        with_id-with_id id r,
        header_set-header_set w.header x_request_id id,
      )
      refl
