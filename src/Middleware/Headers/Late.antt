-- ===== src/Middleware/Headers/Late.antt =====
-- internal/middleware/headers.go: what headers that are written behind the handler come to.
use gobalancer.Common.{
  ℕ, ◌≡◌, refl, ◌∙◌, Bool, true, false, none, some, List, [], ◌∷◌, if◌then◌else◌, Str, is_empty,
}
use gobalancer.Http.{Header, Request, header_get, header_set, header_del}
use gobalancer.Http.Serving.{Serving, returns, sets, Handler, Response, serves, sent}
use gobalancer.Http.Serving.Laws.{serves-bind-some}
use gobalancer.Middleware.Headers.{
  HeaderRewriter, apply_adds, apply_removes, apply_sets, middleware, security, security_headers,
}

added : List (Str × Str) → Header → Header
unfolding header_get header_set
added [] h = h
added ((k, v) ∷ m) h = added m (if is_empty (header_get h k) then header_set h k v else h)

removed : List Str → Header → Header
unfolding header_del
removed [] h = h
removed (k ∷ ks) h = removed ks (header_del h k)

pub overridden : List (Str × Str) → Header → Header
unfolding header_set
overridden [] h = h
overridden ((k, v) ∷ m) h = overridden m (header_set h k v)

-- The header that the rules of a rewriter make of another one.
pub rewritten : HeaderRewriter → Header → Header
unfolding added removed overridden
rewritten h header = overridden h.sets (removed h.removes (added h.adds header))

module _ (takes : Response → Str → ℕ × Bool) where
  serves-apply_sets :
      (m : List (Str × Str)) (c : Serving (Unit {0})) (w : Response)
      → serves takes (apply_sets m c) w
        ≡ serves takes c (record w { header = overridden m w.header })
  unfolding apply_sets overridden serves
  serves-apply_sets [] c w = refl
  serves-apply_sets ((k, v) ∷ m) c w = serves-apply_sets m c _

  serves-apply_removes :
      (ks : List Str) (c : Serving (Unit {0})) (w : Response)
      → serves takes (apply_removes ks c) w
        ≡ serves takes c (record w { header = removed ks w.header })
  unfolding apply_removes removed serves
  serves-apply_removes [] c w = refl
  serves-apply_removes (k ∷ ks) c w = serves-apply_removes ks c _

  -- One rule of `adds`, on the answer of `Get`.
  add_if :
      (b : Bool) (k v : Str) (c : Serving (Unit {0})) (w : Response)
      → serves takes (if b then sets k v c else c) w
        ≡ serves takes c (record w { header = if b then header_set w.header k v else w.header })
  unfolding serves
  add_if true k v c w = refl
  add_if false k v c w = refl

  serves-apply_adds :
      (m : List (Str × Str)) (c : Serving (Unit {0})) (w : Response)
      → serves takes (apply_adds m c) w ≡ serves takes c (record w { header = added m w.header })
  unfolding apply_adds added serves
  serves-apply_adds [] c w = refl
  serves-apply_adds ((k, v) ∷ m) c w =
      add_if (is_empty (header_get w.header k)) k v (apply_adds m c) w ∙ serves-apply_adds m c _

  -- A header that is written behind the handler.
  abbrev Late : Response → Header → Response → Type 0
  Late plain header out =
      (out.body ≡ plain.body)
      × ((c : ℕ × Header) → plain.committed ≡ some c → sent out ≡ c)
      × (plain.committed ≡ none → sent out ≡ (200, header))

  with_header-Late : (w : Response) (header : Header) → Late w header (record w { header = header })
  unfolding sent
  with_header-Late w header = (refl, λ c e. rw e refl, λ e. rw e refl)

  -- Behind a handler that returns, the rules of a rewriter leave the body and, where the status went
  -- out, the status and header that the client got: they come too late. Only where nothing went out are they
  -- applied to the header that is sent with status 200.
  pub sent-middleware :
      (h : HeaderRewriter) (next : Handler) (r : Request) (w : Response)
      → (serves takes (next r) w).0 ≡ some tt
      → let plain = (serves takes (next r) w).1 in
        let out = (serves takes (middleware h next r) w).1 in
        (out.body ≡ plain.body)
        × ((c : ℕ × Header) → plain.committed ≡ some c → sent out ≡ c)
        × (plain.committed ≡ none → sent out ≡ (200, rewritten h plain.header))
  unfolding middleware serves rewritten
  sent-middleware h next r w e =
      let plain = (serves takes (next r) w).1 in
      let c = apply_adds h.adds (apply_removes h.removes (apply_sets h.sets (returns tt))) in
      let run : serves takes (middleware h next r) w
          ≡ (some tt, record plain { header = rewritten h plain.header }) =
        serves-bind-some takes (next r) (λ _. c) w e
        ∙ serves-apply_adds h.adds _ plain
        ∙ serves-apply_removes h.removes _ _
        ∙ serves-apply_sets h.sets (returns tt) _ in
      rw run (with_header-Late plain (rewritten h plain.header))

  -- Behind a handler that returns, the security headers are sent only where the handler sent nothing:
  -- else the client gets the status and the header that went out before.
  pub sent-security_headers :
      (next : Handler) (r : Request) (w : Response)
      → (serves takes (next r) w).0 ≡ some tt
      → let plain = (serves takes (next r) w).1 in
        let out = (serves takes (security_headers next r) w).1 in
        (out.body ≡ plain.body)
        × ((c : ℕ × Header) → plain.committed ≡ some c → sent out ≡ c)
        × (plain.committed ≡ none → sent out ≡ (200, overridden security plain.header))
  unfolding security_headers serves
  sent-security_headers next r w e =
      let plain = (serves takes (next r) w).1 in
      let run : serves takes (security_headers next r) w
          ≡ (some tt, record plain { header = overridden security plain.header }) =
        serves-bind-some takes (next r) (λ _. apply_sets security (returns tt)) w e
        ∙ serves-apply_sets security (returns tt) plain in
      rw run (with_header-Late plain (overridden security plain.header))
