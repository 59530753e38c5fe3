-- ===== src/Middleware/Gzip/Header.antt =====
-- internal/middleware/gzip.go: the header of a compressed response.
use gobalancer.Common.{
  ℕ, ◌≡◌, refl, sym, subst, ◌∙◌, inl, inr, Bool, true, false, ◌||◌, Option, none, some, [], arith,
  Bool-cases, Str, lit, str_eq, str_eq_refl,
}
use gobalancer.Http.{
  canonical, Header, header_get, header_set, header_del, header_get-header_set,
  header_get-header_del, header_get-header_set_self,
}
use gobalancer.Http.Serving.{
  Serving, returns, panics, gets, sets, deletes, writes_header, writes, emits, bind, wrapped,
  resume, Response, serves, send, commit, sent, unsent, informational,
}
use gobalancer.Http.Serving.Laws.{continued}
use gobalancer.Middleware.Gzip.{
  Codec, GzipResponseWriter, write, write_header, gzip_writer, close, written,
}
use gobalancer.Http.Serving.Committed.{
  sent_committed, commit_informs, commit_first, send_first, send-sent, serves_committed,
}

abbrev pub content_encoding : Str
content_encoding = lit "Content-Encoding"

abbrev pub content_length : Str
content_length = lit "Content-Length"

abbrev same_key : Str → Str → Bool
same_key k j = str_eq (canonical k) (canonical j)

length_not_encoding : str_eq content_length content_encoding ≡ false
unfolding str_eq
length_not_encoding = refl

-- A handler that does not touch `Content-Encoding`, and sets a `Content-Length` only where a call of
-- `WriteHeader` follows before the header goes out; `lengthy` tells whether one has been set.
abbrev pub Lengthless : {A : Type 0} → Bool → Serving A → Type 0
Lengthless lengthy (returns a) = lengthy ≡ false
Lengthless lengthy panics = lengthy ≡ false
Lengthless lengthy (gets k c) = (v : Str) → Lengthless lengthy (c v)
Lengthless lengthy (sets k v c) =
    (same_key k content_encoding ≡ false) × Lengthless (lengthy || same_key k content_length) c
Lengthless lengthy (deletes k c) = (same_key k content_encoding ≡ false) × Lengthless lengthy c
Lengthless lengthy (writes_header n c) = informational n.code ≡ true → Lengthless false c
Lengthless lengthy (writes s c) = lengthy ≡ false
Lengthless lengthy (emits e c) = Lengthless lengthy c

-- What a client needs to unpack the body.
abbrev pub Packed : Header → Type 0
Packed h = (header_get h content_encoding ≡ lit "gzip") × (header_get h content_length ≡ [])

module _ (takes : Response → Str → ℕ × Bool) where
  module _ (codec : Codec) where
    -- A response that nothing went out of yet.
    record Fresh (lengthy : Bool) (w : Response) : Type 0 where
      nothing : w.committed ≡ none
      encoding : header_get w.header content_encoding ≡ lit "gzip"
      length : lengthy ≡ false → header_get w.header content_length ≡ []

    Fresh-Packed : (w : Response) → Fresh false w → Packed (sent w).1
    unfolding sent
    Fresh-Packed w f = rw f.nothing (f.encoding, f.length refl)

    gone-Packed :
        (w : Response) {c : ℕ × Header} → w.committed ≡ some c → Packed c.1 → Packed (sent w).1
    gone-Packed w e p = subst (λ x. Packed x.1) (sym (sent_committed takes w e)) p

    sets-Fresh :
        (b : Bool) (k v : Str) (w : Response)
        → same_key k content_encoding ≡ false
        → Fresh b w
        → Fresh (b || same_key k content_length) (record w { header = header_set w.header k v })
    sets-Fresh b k v w n f = record {
      nothing = f.nothing;
      encoding = header_get-header_set w.header content_encoding k v ∙ rw n f.encoding;
      length = λ e.
          header_get-header_set w.header content_length k v
          ∙ elim (Bool-cases (same_key k content_length)) [
            | inl y ↦ absurd (ground (arith, y, e))
            | inr m ↦ rw m (f.length (ground (arith, e, m)))
          ];
    }

    deletes-Fresh :
        (b : Bool) (k : Str) (w : Response)
        → same_key k content_encoding ≡ false
        → Fresh b w
        → Fresh b (record w { header = header_del w.header k })
    deletes-Fresh b k w n f = record {
      nothing = f.nothing;
      encoding = header_get-header_del w.header content_encoding k ∙ rw n f.encoding;
      length = λ e.
          header_get-header_del w.header content_length k
          ∙ elim (Bool-cases (same_key k content_length)) [
            | inl y ↦ rw y refl
            | inr m ↦ rw m (f.length e)
          ];
    }

    -- `WriteHeader` of the wrapper.
    shortened : Response → Response
    unfolding header_del
    shortened w = record w { header = header_del w.header content_length }

    shortened-Fresh : (b : Bool) (w : Response) → Fresh b w → Fresh false (shortened w)
    unfolding shortened
    shortened-Fresh b w f = record {
      nothing = f.nothing;
      encoding =
          header_get-header_del w.header content_encoding content_length
          ∙ rw length_not_encoding f.encoding;
      length = λ e.
          header_get-header_del w.header content_length content_length
          ∙ rw (str_eq_refl content_length) refl;
    }

    wrapped-Packed :
        {A : Type 0} (m : Serving A) (z : codec.Coder) (b : Bool) (w : Response)
        → Lengthless b m
        → Fresh b w
        → Packed
            (sent
              (serves takes
                (wrapped (gzip_writer codec) m (record { coder = z; failed = false }))
                w).1).1
    unfolding serves wrapped gzip_writer write write_header bind shortened
    wrapped-Packed (returns a) z b w l f = Fresh-Packed w (subst (λ x. Fresh x w) l f)
    wrapped-Packed panics z b w l f = Fresh-Packed w (subst (λ x. Fresh x w) l f)
    wrapped-Packed (gets k c) z b w l f = wrapped-Packed (c (header_get w.header k)) z b w (l _) f
    wrapped-Packed (sets k v c) z b w (n, l) f =
        wrapped-Packed c z (b || same_key k content_length) _ l (sets-Fresh b k v w n f)
    wrapped-Packed (deletes k c) z b w (n, l) f = wrapped-Packed c z b _ l (deletes-Fresh b k w n f)
    wrapped-Packed (writes_header n c) z b w l f =
        let w' : Response = shortened w in
        let f' : Fresh false w' = shortened-Fresh b w f in
        let g : GzipResponseWriter codec = record { coder = z; failed = false } in
        elim (Bool-cases (informational n.code)) [
          | inl y ↦
              let u : Response = record w' { informed = some n.code } in
              let fresh : Fresh false u = record {
                nothing = f'.nothing;
                encoding = f'.encoding;
                length = f'.length;
              } in
              subst (λ x. Packed (sent (serves takes (wrapped (gzip_writer codec) c g) x).1).1)
                (sym (commit_informs takes n.code w' f'.nothing y))
                (wrapped-Packed c z false u (l y) fresh)
          | inr m ↦
              gone-Packed _
                (serves_committed takes (wrapped (gzip_writer codec) c g) (commit n.code w')
                  (commit_first takes n.code w' f'.nothing m))
                (f'.encoding, f'.length refl)
        ]
    wrapped-Packed (writes s c) z b w l f =
        let (out, z') = codec.encode z s in
        let (answer, g) = written codec s z' (send takes out w).0 in
        gone-Packed _
          (serves_committed takes (wrapped (gzip_writer codec) (c answer) g) (send takes out w).1
            (send_first takes out w f.nothing))
          (f.encoding, f.length l)
    wrapped-Packed (emits x c) z b w l f =
        wrapped-Packed c z b _ l
          (record { nothing = f.nothing; encoding = f.encoding; length = f.length })

    ended : (o : Option (Unit {0})) (w : Response) → serves takes (resume o returns) w ≡ (o, w)
    unfolding resume serves
    ended none w = refl
    ended (some u) w = refl

    close-Packed :
        (failed : Bool) (o : Option (Unit {0})) (z : codec.Coder) (w : Response)
        → Packed (sent w).1
        → Packed (sent (serves takes (close codec o (record { coder = z; failed = failed })) w).1).1
    unfolding close serves
    close-Packed true o z w p = subst (λ x. Packed (sent x.1).1) (sym (ended o w)) p
    close-Packed false o z w p =
        let w' : Response = (send takes (codec.close z) w).1 in
        subst (λ x. Packed (sent x.1).1) (sym (ended o w'))
          (subst Packed (sym (send-sent takes (codec.close z) w)) p)

    closed-Packed :
        (out : Option (Option (Unit {0}) × GzipResponseWriter codec) × Response)
        → Packed (sent out.1).1
        → Packed (sent (continued takes out (λ (o, g). close codec o g)).1).1
    unfolding continued
    closed-Packed (none, w) p = p
    closed-Packed (some (o, g), w) p = close-Packed g.failed o g.coder w p

    -- The header of a response behind the compression.
    pub continued-Packed :
        (m : Serving (Unit {0})) (h : Header)
        → Lengthless false m
        → (let g : GzipResponseWriter codec = record { coder = codec.reset; failed = false } in
            let w : Response = record (unsent h) {
              header = header_del (header_set h content_encoding (lit "gzip")) content_length;
            } in
            Packed
              (sent
                (continued takes
                  (serves takes (wrapped (gzip_writer codec) m g) w)
                  (λ (o, g'). close codec o g')).1).1)
    unfolding shortened
    continued-Packed m h l =
        let w : Response = record (unsent h) {
          header = header_set h content_encoding (lit "gzip");
        } in
        let f : Fresh true w = record {
          nothing = refl;
          encoding = header_get-header_set_self h content_encoding (lit "gzip");
          length = λ e. absurd (cc (e));
        } in
        let g : GzipResponseWriter codec = record { coder = codec.reset; failed = false } in
        closed-Packed (serves takes (wrapped (gzip_writer codec) m g) (shortened w))
          (wrapped-Packed m codec.reset false (shortened w) l (shortened-Fresh true w f))
