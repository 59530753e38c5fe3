-- ===== src/Routing/Shadow.antt =====
-- internal/routing/shadow.go. `Shadow` reads the body and starts a goroutine; what that does to the
-- shadow target, at a later time, is `mirror`.
use gobalancer.Common.{
  ◌*◌, ◌≡◌, refl, sym, ap, ◌∙◌, inl, inr, Bool, false, Option, none, some, [], ◌∷◌, ◌++◌,
  append-nil, append_assoc, arith, if◌then◌else◌, Bool-cases, ℤ, pos, second, Str, str_eq, lookup,
  insert,
}
use gobalancer.Http.{Request, Header}
use gobalancer.Http.Serving.{Serving}

-- ShadowTimeout, in nanoseconds.
abbrev pub shadow_timeout : ℤ
shadow_timeout = pos (5 * second)

-- An `io.Reader`: the bytes that are still to be read, and whether an error stands behind them
-- in place of the end.
pub record Body : Type 0 where
  pub bytes : Str
  pub broken : Bool

-- A request with its body, `none` where it is nil.
pub record Incoming : Type 0 where
  pub request : Request
  pub body : Option Body

-- What the goroutine holds on to; the request it reads when it runs.
pub record Mirroring : Type 0 where
  pub target_url : Str
  pub body_bytes : Str

-- `io.ReadAll`, whose error is dropped.
unfoldable pub read_all : Option Body → Str
read_all none = []
read_all (some b) = b.bytes

unfoldable pub rewound : Option Body → Option Body
rewound none = none
rewound (some b) = some (record { bytes = b.bytes; broken = false })

unfoldable pub shadow : Str → Incoming → Mirroring × Incoming
unfolding read_all rewound
shadow target_url r = (
  record { target_url = target_url; body_bytes = read_all r.body },
  record r { body = rewound r.body },
)

-- The request that is sent, with `timeout` for its context.
pub record Mirrored : Type 0 where
  pub method : Str
  pub url : Str
  pub header : Header
  pub body : Str
  pub timeout : ℤ

-- `for k, vs := range r.Header { clone.Header[k] = vs }`
unfoldable pub copy_header : Header → Header → Header
unfolding insert
copy_header [] clone = clone
copy_header ((k, v) ∷ h) clone = copy_header h (insert k v clone)

-- `request_uri` is `URL.RequestURI`; `creates` tells whether `NewRequestWithContext` accepts a
-- method and a URL.
module _ (request_uri : Request → Str) (creates : Str → Str → Bool) where
  -- The goroutine with the request as it is when it runs; `none` is the error. The response is
  -- read and dropped.
  unfoldable pub mirror : Mirroring → Request → Option Mirrored
  unfolding copy_header
  mirror m r =
      let url = m.target_url ++ request_uri r in
      if creates r.method url
      then some (record {
        method = r.method;
        url = url;
        header = copy_header r.header [];
        body = m.body_bytes;
        timeout = shadow_timeout;
      })
      else none

-- A handler that reads the body is given it with the request.
module _ (shadow_url : Str) (next : Incoming → Serving (Unit {0})) where
  unfoldable pub shadow_middleware : Incoming → Mirroring × Serving (Unit {0})
  unfolding shadow
  shadow_middleware r = let (m, r') = shadow shadow_url r in (m, next r')

-- No key of the header stands in the map, or twice in the header.
abbrev New : Header → Header → Type 0
New [] m = Unit
New ((k, v) ∷ h) m = (lookup k m ≡ none) × New h (insert k v m)

insert-new : (k v : Str) (m : Header) → lookup k m ≡ none → insert k v m ≡ m ++ (k, v) ∷ []
unfolding lookup insert
insert-new k v [] n = refl
insert-new k v ((j, w) ∷ m) n = elim (Bool-cases (str_eq j k)) [
  | inl y ↦ absurd (ground (arith, y, n))
  | inr d ↦ rw d (ap (◌∷◌ (j, w)) (insert-new k v m (ground (arith, d, n))))
]

-- The loop over the header makes a copy of it, behind what is in the map.
pub copy_header_lem : (h clone : Header) → New h clone → copy_header h clone ≡ clone ++ h
unfolding copy_header
copy_header_lem [] clone n = sym (append-nil clone)
copy_header_lem ((k, v) ∷ h) clone (n, more) =
    copy_header_lem h (insert k v clone) more
    ∙ ap (λ m. m ++ h) (insert-new k v clone n)
    ∙ append_assoc clone ((k, v) ∷ []) h
