-- ===== src/Middleware/Gzip/Roundtrip.antt =====
-- internal/middleware/gzip.go: the body that the client unpacks.

use gobalancer.Http.Serving.Invariants.{commit-body}
use gobalancer.Http.{Header, Request, header_get, header_set, header_del}
use gobalancer.Http.Serving.Laws.{serves-bind, continued}
use gobalancer.Middleware.Gzip.{
  Codec, GzipResponseWriter, write, write_header, gzip_writer, close, written, gzip_middleware,
  contains_str,
}
use gobalancer.Middleware.Gzip.Header.{Lengthless, continued-Packed}
use mathlib.Core.Path.{subst₂}
use gobalancer.Http.Serving.Whole.{
  takes_all, status_of, status_after, status_of-commit, status_of-send, sent-status_of, sent-send,
  send-takes_all, send_answer,
}
use gobalancer.Common.{
  ℕ, ◌≡◌, refl, sym, ap, subst, ◌∙◌, Bool, true, false, Option, none, some, List, [], ◌∷◌, ◌++◌,
  append-nil, append_assoc, of_some, length, Str, lit,
}
use gobalancer.Http.Serving.{
  Serving, returns, panics, gets, sets, deletes, writes_header, writes, emits, bind, wrapped,
  resume, Handler, Response, serves, Event, send, commit, sent, unsent,
}

-- A handler that does not read the response's header back.
abbrev pub Blind : {A : Type 0} → Serving A → Type 0
Blind (returns a) = Unit {0}
Blind panics = Unit {0}
Blind (gets k c) = ⊥
Blind (sets k v c) = Blind c
Blind (deletes k c) = Blind c
Blind (writes_header n c) = Blind c
Blind (writes s c) = (a : ℕ × Bool) → Blind (c a)
Blind (emits e c) = Blind c

module _ (codec : Codec) where
  unfoldable pub encode_all : List Str → codec.Coder → Str × codec.Coder
  encode_all [] z = ([], z)
  encode_all (b ∷ bs) z =
      let (out, z') = codec.encode z b in let (rest, last) = encode_all bs z' in (out ++ rest, last)

  abbrev pub joined : List Str → Str
  joined [] = []
  joined (b ∷ bs) = b ++ joined bs

  -- The reader gets back what was written.
  abbrev pub Lossless : Type 0
  Lossless =
      (bs : List Str)
      → let (out, z) = encode_all bs codec.reset in
        codec.decode (out ++ codec.close z) ≡ some (joined bs)

  encode_all-append :
      (bs : List Str) (b : Str) (z : codec.Coder)
      → encode_all (bs ++ b ∷ []) z ≡ (
        (encode_all bs z).0 ++ (codec.encode (encode_all bs z).1 b).0,
        (codec.encode (encode_all bs z).1 b).1,
      )
  unfolding encode_all
  encode_all-append [] b z = rw (append-nil (codec.encode z b).0) refl
  encode_all-append (a ∷ bs) b z =
      let (out, z') = codec.encode z a in
      rw
        (
          encode_all-append bs b z',
          append_assoc out (encode_all bs z').0 (codec.encode (encode_all bs z').1 b).0,
        )
        refl

  joined-append : (bs : List Str) (b : Str) → joined (bs ++ b ∷ []) ≡ joined bs ++ b
  joined-append [] b = append-nil b
  joined-append (a ∷ bs) b = rw (joined-append bs b, append_assoc a (joined bs) b) refl

module _ (codec : Codec) where
  -- The compressed response `w` beside the plain one `p`.
  record Twin (bs : List Str) (z : codec.Coder) (w p : Response) : Type 0 where
    encoded : encode_all codec bs codec.reset ≡ (w.body, z)
    plain : p.body ≡ joined codec bs
    same_status : status_of w ≡ status_of p

  abbrev coding : codec.Coder → GzipResponseWriter codec
  coding z = record { coder = z; failed = false }

  Twins :
      {A : Type 0}
      → Option (Option A × GzipResponseWriter codec) × Response
      → Option A × Response
      → Type 0
  Twins out plain =
      (z : codec.Coder) × (bs : List Str) × (out.0 ≡ some (plain.0, coding z))
      × Twin bs z out.1 plain.1

  send-Twin :
      (bs : List Str) (z : codec.Coder) (b : Str) (w p : Response)
      → Twin bs z w p
      → Twin
          (bs ++ b ∷ [])
          (codec.encode z b).1
          (send takes_all (codec.encode z b).0 w).1
          (send takes_all b p).1
  send-Twin bs z b w p t = record {
    encoded =
        encode_all-append codec bs b codec.reset
        ∙ rw (t.encoded, send-takes_all (codec.encode z b).0 w) refl;
    plain = send-takes_all b p ∙ rw (joined-append codec bs b, t.plain) refl;
    same_status = status_of-send _ _ w p t.same_status;
  }

  header-Twin :
      {bs : List Str} {z : codec.Coder} {w p : Response} (h j : Header) (e f : List Event)
      → Twin bs z w p
      → Twin bs z (record w { header = h; events = e }) (record p { header = j; events = f })
  unfolding status_of
  header-Twin h j e f t = record {
    encoded = t.encoded;
    plain = t.plain;
    same_status = t.same_status;
  }

  commit-Twin :
      {bs : List Str} {z : codec.Coder} {w p : Response} (n : ℕ) (h : Header)
      → Twin bs z w p
      → Twin bs z (commit n (record w { header = h })) (commit n p)
  commit-Twin {bs} {z} {w} {p} n h t =
      let u = header-Twin h p.header w.events p.events t in
      record {
        encoded = rw (commit-body n (record w { header = h })) u.encoded;
        plain = commit-body n p ∙ t.plain;
        same_status =
            status_of-commit n (record w { header = h })
            ∙ ap (status_after n) u.same_status
            ∙ sym (status_of-commit n p);
      }

  wrapped-Twins :
      {A : Type 0} (c : Serving A) (z : codec.Coder) (w p : Response) (bs : List Str)
      → Blind c
      → Twin bs z w p
      → Twins (serves takes_all (wrapped (gzip_writer codec) c (coding z)) w) (serves takes_all c p)
  unfolding serves Twins wrapped gzip_writer write write_header written bind
  wrapped-Twins (returns a) z w p bs h t = (z, bs, refl, t)
  wrapped-Twins panics z w p bs h t = (z, bs, refl, t)
  wrapped-Twins (gets k c) z w p bs h t = absurd h
  wrapped-Twins (sets k v c) z w p bs h t = wrapped-Twins c z _ _ bs h (header-Twin _ _ _ _ t)
  wrapped-Twins (deletes k c) z w p bs h t = wrapped-Twins c z _ _ bs h (header-Twin _ _ _ _ t)
  wrapped-Twins (writes_header n c) z w p bs h t =
      wrapped-Twins c z _ _ bs h (commit-Twin n.code _ t)
  wrapped-Twins (writes s c) z w p bs h t =
      let (out, z') = codec.encode z s in
      let run : serves takes_all (wrapped (gzip_writer codec) (writes s c) (coding z)) w
          ≡ serves takes_all (wrapped (gzip_writer codec) (c (length s, false)) (coding z'))
              (send takes_all out w).1 =
        ap
          (λ a.
            let (answer, g) = written codec s z' a in
            serves takes_all (wrapped (gzip_writer codec) (c answer) g) (send takes_all out w).1)
          (send_answer out w) in
      let plain : serves takes_all (writes s c) p
          ≡ serves takes_all (c (length s, false)) (send takes_all s p).1 =
        ap (λ a. serves takes_all (c a) (send takes_all s p).1) (send_answer s p) in
      subst₂ Twins (sym run) (sym plain)
        (wrapped-Twins (c (length s, false)) z' _ _ _ (h _) (send-Twin bs z s w p t))
  wrapped-Twins (emits e c) z w p bs h t = wrapped-Twins c z _ _ bs h (header-Twin _ _ _ _ t)

  serves-close :
      (o : Option (Unit {0})) (z : codec.Coder) (w : Response)
      → serves takes_all (close codec o (coding z)) w ≡ (o, (send takes_all (codec.close z) w).1)
  unfolding close serves resume
  serves-close none z w = refl
  serves-close (some u) z w = refl

  Unzipped : Option (Unit {0}) × Response → Option (Unit {0}) × Response → Type 0
  Unzipped zipped plain =
      (zipped.0 ≡ plain.0)
      × (codec.decode zipped.1.body ≡ some plain.1.body)
      × ((sent zipped.1).0 ≡ (sent plain.1).0)

  -- The end of a compressed response.
  closed :
      (out : Option (Option (Unit {0}) × GzipResponseWriter codec) × Response)
      (plain : Option (Unit {0}) × Response)
      → Lossless codec
      → Twins out plain
      → Unzipped (continued takes_all out (λ (o, g). close codec o g)) plain
  unfolding Twins continued Unzipped
  closed (none, w) plain lossless (z, bs, e, t) = absurd (cc (e))
  closed (some x, w) plain lossless (z, bs, e, t) =
      let run : serves takes_all (close codec x.0 x.1) w
          ≡ (plain.0, (send takes_all (codec.close z) w).1) =
        ap (λ y. serves takes_all (close codec y.0 y.1) w) (of_some e) ∙ serves-close plain.0 z w in
      rw run (
        refl,
        rw (send-takes_all (codec.close z) w, t.plain)
            (subst (λ x. codec.decode (x.0 ++ codec.close x.1) ≡ some (joined codec bs)) t.encoded
              (lossless bs)),
        sent-send (codec.close z) w
            ∙ sent-status_of w
            ∙ rw t.same_status (sym (sent-status_of plain.1)),
      )

  -- A handler that does not read back the response's header, nor touch its `Content-Encoding`, and that
  -- calls `WriteHeader` before the header goes out if it has set a `Content-Length`; a connection that takes every byte. What
  -- a client that accepts gzip unpacks is the body that a client without it gets, under the same status;
  -- and the header that goes out says that the body is gzip, and has no `Content-Length`.
  pub decode-gzip_middleware :
      (min_bytes : ℕ) (next : Handler) (r : Request) (header : Header)
      → Lossless codec
      → Blind (next r)
      → Lengthless false (next r)
      → contains_str (lit "gzip") (header_get r.header (lit "Accept-Encoding")) ≡ true
      → let (o, zipped) =
          serves takes_all (gzip_middleware codec min_bytes next r) (unsent header) in
        let (o', plain) = serves takes_all (next r) (unsent header) in
        (o ≡ o')
        × (codec.decode zipped.body ≡ some plain.body)
        × ((sent zipped).0 ≡ (sent plain).0)
        × (header_get (sent zipped).1 (lit "Content-Encoding") ≡ lit "gzip")
        × (header_get (sent zipped).1 (lit "Content-Length") ≡ [])
  unfolding gzip_middleware serves status_of encode_all Unzipped
  decode-gzip_middleware min_bytes next r header lossless blind lengthless accepts =
      let w = record (unsent header) {
        header =
            header_del (header_set header (lit "Content-Encoding") (lit "gzip"))
              (lit "Content-Length");
      } in
      let t : Twin [] codec.reset w (unsent header) = record {
        encoded = refl;
        plain = refl;
        same_status = refl;
      } in
      let zipped = serves takes_all (wrapped (gzip_writer codec) (next r) (coding codec.reset)) w in
      let (same, unpacked, status) =
        closed zipped (serves takes_all (next r) (unsent header)) lossless
          (wrapped-Twins (next r) codec.reset w (unsent header) [] blind t) in
      let (encoding, no_length) = continued-Packed takes_all codec (next r) header lengthless in
      rw
        (
          accepts,
          serves-bind takes_all (wrapped (gzip_writer codec) (next r) (coding codec.reset))
              (λ (o, g). close codec o g) w,
        )
        (same, unpacked, status, encoding, no_length)
