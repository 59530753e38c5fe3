-- ===== src/Http.antt =====
-- The requests that the handlers read: what they use of `net/http` and `net`.
pub mod HostPort
pub mod Serving
use gobalancer.Common.{
  ℕ, ◌+◌, ◌-◌, ◌*◌, ◌%◌, ◌≡◌, refl, Bool, true, ◌&&◌, ◌||◌, Option, none, some, List, [], ◌∷◌,
  arith, leb, ◌==◌, if◌then◌else◌, Str, lit, str_eq, str_eq_refl, contains, lookup, insert, remove,
  lookup-insert, insert-insert, lookup-remove,
}

abbrev between : ℕ → ℕ → ℕ → Bool
between lo hi c = leb lo c && leb c hi

is_lower : ℕ → Bool
is_lower c = between b'a' b'z' c

is_upper : ℕ → Bool
is_upper c = between b'A' b'Z' c

is_token : ℕ → Bool
unfolding is_lower is_upper contains
is_token c = is_lower c || is_upper c || between b'0' b'9' c || contains c (lit "!#$%&'*+-.^_`|~")

all_tokens : Str → Bool
unfolding is_token
all_tokens [] = true
all_tokens (c ∷ s) = is_token c && all_tokens s

to_upper : ℕ → ℕ
unfolding is_lower
to_upper c = if is_lower c then c - 32 else c

to_lower : ℕ → ℕ
unfolding is_upper
to_lower c = if is_upper c then c + 32 else c

-- The flag is set at the first letter and after a hyphen.
canonical_from : Bool → Str → Str
canonical_from up [] = []
canonical_from up (c ∷ s) = (if up then to_upper c else to_lower c) ∷ canonical_from (c == b'-') s

-- `http.CanonicalHeaderKey`
unfoldable pub canonical : Str → Str
unfolding all_tokens to_upper to_lower canonical_from
canonical s = if all_tokens s then canonical_from true s else s

-- A header holds the first value of each key, under its canonical spelling.
abbrev pub Header : Type 0
Header = List (Str × Str)

abbrev or_empty : Option Str → Str
or_empty none = []
or_empty (some v) = v

-- `Header.Get`, the empty string for a missing key.
unfoldable pub header_get : Header → Str → Str
unfolding lookup canonical
header_get h k = or_empty (lookup (canonical k) h)

unfoldable pub header_set : Header → Str → Str → Header
unfolding insert canonical
header_set h k v = insert (canonical k) v h

unfoldable pub header_del : Header → Str → Header
unfolding remove canonical
header_del h k = remove (canonical k) h

-- What handlers hand down with a request, as values of its context.
pub record Context : Type 0 where
  pub request_id : Option Str
  pub backend : Option ℕ

pub record Request : Type 0 where
  pub method : Str
  pub host : Str
  pub url_scheme : Str
  pub url_host : Str
  pub url_path : Str
  pub url_query : Str
  pub header : Header
  pub remote_addr : Str
  pub tls : Bool  -- r.TLS != nil
  pub context : Context

-- What `Set` wrote is what `Get` reads, under any spelling of the key; other keys keep their value.
pub header_get-header_set :
    (h : Header) (j k v : Str)
    → header_get (header_set h k v) j
      ≡ (if str_eq (canonical k) (canonical j) then v else header_get h j)
unfolding header_get header_set
header_get-header_set h j k v = ground (arith, lookup-insert (canonical k) (canonical j) v h)

pub header_get-header_set_self : (h : Header) (k v : Str) → header_get (header_set h k v) k ≡ v
header_get-header_set_self h k v =
    rw (header_get-header_set h k k v, str_eq_refl (canonical k)) refl

pub header_set-header_set :
    (h : Header) (k v : Str) → header_set (header_set h k v) k v ≡ header_set h k v
unfolding header_set
header_set-header_set h k v = insert-insert (canonical k) v h

pub header_get-header_del :
    (h : Header) (j k : Str)
    → header_get (header_del h k) j
      ≡ (if str_eq (canonical k) (canonical j) then [] else header_get h j)
unfolding header_get header_del
header_get-header_del h j k = ground (arith, lookup-remove (canonical k) (canonical j) h)
