-- ===== src/Http/Serving/Laws.antt =====
-- What a connection makes of handlers that are put together.
use gobalancer.Common.{ℕ, ◌≡◌, refl, ap, ◌∙◌, Bool, Option, none, some, [], ◌∷◌, ◌++◌, of_some, Str}
use gobalancer.Http.{header_get, header_set, header_del}
use gobalancer.Http.Serving.{
  Serving, returns, panics, gets, sets, deletes, writes_header, writes, emits, bind, Wrapper,
  wrapped, Response, Status, commit, send, serves,
}

-- A wrapper that hands both calls on and only changes itself.
pub record Forwards {W : Type 0} (wrapper : Wrapper W) : Type 0 where
  pub on_code : W → ℕ → W
  pub on_write : W → Str → ℕ × Bool → W
  pub forwards_code :
      (w : W) (n : Status) → wrapper.write_header w n ≡ writes_header n (returns (on_code w n.code))
  pub forwards_write :
      (w : W) (s : Str) → wrapper.write w s ≡ writes s (λ a. returns (a, on_write w s a))

module _ (takes : Response → Str → ℕ × Bool) where
  unfoldable pub continued :
      {A B : Type 0} → Option A × Response → (A → Serving B) → Option B × Response
  unfolding serves
  continued (none, w) f = (none, w)
  continued (some a, w) f = serves takes (f a) w

  pub serves-bind :
      {A B : Type 0} (m : Serving A) (f : A → Serving B) (w : Response)
      → serves takes (bind m f) w ≡ continued (serves takes m w) f
  unfolding serves bind continued
  serves-bind (returns a) f w = refl
  serves-bind panics f w = refl
  serves-bind (gets k c) f w = serves-bind (c (header_get w.header k)) f w
  serves-bind (sets k v c) f w = serves-bind c f _
  serves-bind (deletes k c) f w = serves-bind c f _
  serves-bind (writes_header n c) f w = serves-bind c f _
  serves-bind (writes s c) f w = serves-bind (c (send takes s w).0) f _
  serves-bind (emits e c) f w = serves-bind c f _

  continued-some :
      {A B : Type 0} (p : Option A × Response) (f : A → Serving B) {a : A}
      → p.0 ≡ some a
      → continued p f ≡ serves takes (f a) p.1
  unfolding continued
  continued-some (none, w) f e = absurd (cc (e))
  continued-some (some b, w) f {a} e = ap (λ x. serves takes (f x) w) (of_some e)

  -- Behind a call that returns, the rest runs on what it left.
  pub serves-bind-some :
      {A B : Type 0} (m : Serving A) (f : A → Serving B) (w : Response) {a : A}
      → (serves takes m w).0 ≡ some a
      → serves takes (bind m f) w ≡ serves takes (f a) (serves takes m w).1
  serves-bind-some m f w e = serves-bind m f w ∙ continued-some (serves takes m w) f e

  -- What a forwarding wrapper is at the end of a handler.
  unfoldable pub observed :
      {A W : Type 0} {wrapper : Wrapper W} → Forwards wrapper → Serving A → W → Response → W
  unfolding send commit
  observed fw (returns a) w r = w
  observed fw panics w r = w
  observed fw (gets k c) w r = observed fw (c (header_get r.header k)) w r
  observed fw (sets k v c) w r = observed fw c w (record r { header = header_set r.header k v })
  observed fw (deletes k c) w r = observed fw c w (record r { header = header_del r.header k })
  observed fw (writes_header n c) w r = observed fw c (fw.on_code w n.code) (commit n.code r)
  observed fw (writes s c) w r =
      let (a, r') = send takes s r in observed fw (c a) (fw.on_write w s a) r'
  observed fw (emits e c) w r = observed fw c w (record r { events = r.events ++ e ∷ [] })

  -- A handler behind a forwarding wrapper answers as it does without.
  pub serves-wrapped :
      {A W : Type 0} {wrapper : Wrapper W} (fw : Forwards wrapper) (c : Serving A) (w : W)
      (r : Response)
      → serves takes (wrapped wrapper c w) r
        ≡ (some ((serves takes c r).0, observed fw c w r), (serves takes c r).1)
  unfolding serves wrapped observed bind
  serves-wrapped fw (returns a) w r = refl
  serves-wrapped fw panics w r = refl
  serves-wrapped fw (gets k c) w r = serves-wrapped fw (c (header_get r.header k)) w r
  serves-wrapped fw (sets k v c) w r = serves-wrapped fw c w _
  serves-wrapped fw (deletes k c) w r = serves-wrapped fw c w _
  serves-wrapped fw (writes_header n c) w r = rw (fw.forwards_code w n) (serves-wrapped fw c _ _)
  serves-wrapped fw (writes s c) w r =
      rw (fw.forwards_write w s) (serves-wrapped fw (c (send takes s r).0) _ _)
  serves-wrapped fw (emits e c) w r = serves-wrapped fw c w _
