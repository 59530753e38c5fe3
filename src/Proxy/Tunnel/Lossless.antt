-- ===== src/Proxy/Tunnel/Lossless.antt =====
-- internal/proxy/tunnel.go: what arrives, and when `pipe` returns.
use gobalancer.Common.{
  ◌+◌, ◌≡◌, refl, ◌∙◌, inl, inr, Bool, true, false, ◌&&◌, ◌||◌, List, [], ◌∷◌, ◌++◌, append-nil,
  append_assoc, arith, if◌then◌else◌, Bool-cases, length, length-append, Str,
}
use gobalancer.Proxy.Tunnel.{
  Side, a, b, same_side, Copying, Tunnel, opened, Event, reads, ends, read_more, end_copy, cp, pipe,
  returned,
}

-- The bytes that one side sends up to its end, and whether it has one.
pub bytes_of : Side → List Event → Str
bytes_of s [] = []
bytes_of s (reads t bytes ∷ es) =
    let rest = bytes_of s es in if same_side t s then bytes ++ rest else rest
bytes_of s (ends t err ∷ es) = let rest = bytes_of s es in if same_side t s then [] else rest

pub has_end : Side → List Event → Bool
has_end s [] = false
has_end s (reads t bytes ∷ es) = has_end s es
has_end s (ends t err ∷ es) = same_side t s || has_end s es

-- A loop that has delivered `c`, with `rest` to come unless it has ended.
abbrev with_rest : Copying → Str → Str
with_rest c rest = c.delivered ++ (if c.ended then [] else rest)

with_rest-read_more :
    (bytes rest : Str) (c : Copying)
    → with_rest (read_more bytes c) rest ≡ with_rest c (bytes ++ rest)
unfolding read_more
with_rest-read_more bytes rest c = elim (Bool-cases c.ended) [
  | inl e ↦ simp e
  | inr n ↦ simp (n, append_assoc)
]

with_rest-end_copy :
    (k : Bool) (rest : Str) (c : Copying) → with_rest (end_copy k c) rest ≡ with_rest c []
unfolding end_copy
with_rest-end_copy k rest c = elim (Bool-cases c.ended) [ inl e ↦ simp e | inr n ↦ simp n ]

read_more-ended : (bytes : Str) (c : Copying) → (read_more bytes c).ended ≡ c.ended
unfolding read_more
read_more-ended bytes c = ground arith

end_copy-ended : (k : Bool) (c : Copying) → (end_copy k c).ended ≡ true
unfolding end_copy
end_copy-ended k c = ground arith

module _ (is_tcp : Side → Bool) where
  pipe-delivered :
      (es : List Event) (s : Side) (t : Tunnel)
      → ((pipe is_tcp es t).copying s).delivered ≡ with_rest (t.copying s) (bytes_of s es)
  unfolding pipe cp bytes_of
  pipe-delivered [] s t = ground (arith, append-nil (t.copying s).delivered)
  pipe-delivered (reads a bytes ∷ es) a t =
      pipe-delivered es a _ ∙ with_rest-read_more bytes _ (t.copying a)
  pipe-delivered (reads a bytes ∷ es) b t = pipe-delivered es b _
  pipe-delivered (reads b bytes ∷ es) a t = pipe-delivered es a _
  pipe-delivered (reads b bytes ∷ es) b t =
      pipe-delivered es b _ ∙ with_rest-read_more bytes _ (t.copying b)
  pipe-delivered (ends a err ∷ es) a t =
      pipe-delivered es a _ ∙ with_rest-end_copy _ _ (t.copying a)
  pipe-delivered (ends a err ∷ es) b t = pipe-delivered es b _
  pipe-delivered (ends b err ∷ es) a t = pipe-delivered es a _
  pipe-delivered (ends b err ∷ es) b t =
      pipe-delivered es b _ ∙ with_rest-end_copy _ _ (t.copying b)

  pipe-ended :
      (es : List Event) (s : Side) (t : Tunnel)
      → ((pipe is_tcp es t).copying s).ended ≡ ((t.copying s).ended || has_end s es)
  unfolding pipe cp has_end
  pipe-ended [] s t = ground arith
  pipe-ended (reads a bytes ∷ es) a t =
      pipe-ended es a _ ∙ rw (read_more-ended bytes (t.copying a)) refl
  pipe-ended (reads a bytes ∷ es) b t = pipe-ended es b _
  pipe-ended (reads b bytes ∷ es) a t = pipe-ended es a _
  pipe-ended (reads b bytes ∷ es) b t =
      pipe-ended es b _ ∙ rw (read_more-ended bytes (t.copying b)) refl
  pipe-ended (ends a err ∷ es) a t =
      pipe-ended es a _ ∙ ground (arith, end_copy-ended (is_tcp a) (t.copying a))
  pipe-ended (ends a err ∷ es) b t = pipe-ended es b _
  pipe-ended (ends b err ∷ es) a t = pipe-ended es a _
  pipe-ended (ends b err ∷ es) b t =
      pipe-ended es b _ ∙ ground (arith, end_copy-ended (is_tcp b) (t.copying b))

  -- What has been sent on `errc`: one message for each loop that has ended.
  abbrev Reported : Tunnel → Type 0
  Reported t =
      length t.errc
      ≡ (if (t.copying a).ended then 1 else 0) + (if (t.copying b).ended then 1 else 0)

  cp-Reported : (e : Event) (t : Tunnel) → Reported t → Reported (cp is_tcp e t)
  unfolding cp
  cp-Reported (reads a bytes) t r = rw (read_more-ended bytes (t.copying a)) r
  cp-Reported (reads b bytes) t r = rw (read_more-ended bytes (t.copying b)) r
  cp-Reported (ends a err) t r =
      ground (arith, r, end_copy-ended (is_tcp a) (t.copying a), length-append t.errc (err ∷ []))
  cp-Reported (ends b err) t r =
      ground (arith, r, end_copy-ended (is_tcp b) (t.copying b), length-append t.errc (err ∷ []))

  pipe-Reported : (es : List Event) (t : Tunnel) → Reported t → Reported (pipe is_tcp es t)
  unfolding pipe
  pipe-Reported [] t r = r
  pipe-Reported (e ∷ es) t r = pipe-Reported es (cp is_tcp e t) (cp-Reported e t r)

  -- Whatever the order of the events, each side gets the bytes that the other one sent before its end,
  -- in order, also those behind the end of the opposite direction; and `pipe` returns when both directions have
  -- ended, and not before.
  pub pipe-bytes_of :
      (es : List Event)
      → let t = pipe is_tcp es opened in
        ((s : Side) → (t.copying s).delivered ≡ bytes_of s es)
        × (returned t ≡ (has_end a es && has_end b es))
  unfolding returned
  pipe-bytes_of es = (
    λ s. pipe-delivered es s opened,
    ground (
      arith,
      pipe-Reported es opened (omega arith),
      pipe-ended es a opened,
      pipe-ended es b opened,
    ),
  )
