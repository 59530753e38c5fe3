-- ===== src/Proxy/Director.antt =====
-- internal/proxy/http.go: what the proxy makes of a request on its way to a backend.
use gobalancer.Common.{
  ◌≡◌, refl, ◌∙◌, Bool, false, not, ◌&&◌, ◌||◌, Option, none, some, [], ◌∷◌, ◌++◌, ◌==◌,
  if◌then◌else◌, drop, Str, lit, str_eq, is_empty,
}
use gobalancer.Backend.{Url}
use gobalancer.Http.{Request, Header, header_get, header_set, header_get-header_set, canonical}
use gobalancer.Http.HostPort.{split_host_port}

abbrev ends_in_slash : Str → Bool
ends_in_slash [] = false
ends_in_slash (c ∷ []) = c == b'/'
ends_in_slash (c ∷ d ∷ s) = ends_in_slash (d ∷ s)

abbrev starts_with_slash : Str → Bool
starts_with_slash [] = false
starts_with_slash (c ∷ s) = c == b'/'

unfoldable pub single_joining_slash : Str → Str → Str
single_joining_slash a b =
    if ends_in_slash a && starts_with_slash b
    then a ++ drop 1 b
    else if not (ends_in_slash a) && not (starts_with_slash b)
    then (if is_empty b then a else a ++ b'/' ∷ b)
    else a ++ b

unfoldable pub scheme : Request → Str
scheme r = if r.tls then lit "https" else lit "http"

abbrev host_or : Str → Option (Str × Str) → Str
host_or addr none = addr
host_or addr (some (host, port)) = host

-- The value of `X-Forwarded-For` behind the proxy.
unfoldable pub forwarded_for : Request → Str
unfolding split_host_port header_get
forwarded_for r =
    let client_ip = host_or r.remote_addr (split_host_port r.remote_addr) in
    let prior = header_get r.header (lit "X-Forwarded-For") in
    if is_empty prior then client_ip else prior ++ lit ", " ++ client_ip

unfoldable pub director : Url → Request → Request
unfolding single_joining_slash scheme forwarded_for header_set
director target r = record r {
  url_scheme = target.scheme;
  url_host = target.host;
  url_path = single_joining_slash target.path r.url_path;
  url_query =
      if is_empty target.raw_query || is_empty r.url_query
      then target.raw_query ++ r.url_query
      else target.raw_query ++ b'&' ∷ r.url_query;
  host = target.host;
  header =
      header_set (header_set r.header (lit "X-Forwarded-For") (forwarded_for r))
        (lit "X-Forwarded-Proto") (scheme r);
}

abbrev pub xff : Str
xff = lit "X-Forwarded-For"

abbrev pub xfp : Str
xfp = lit "X-Forwarded-Proto"

-- A request that is sent on names the client behind the addresses that it came with, and the scheme;
-- its other headers are as they came.
pub header_get-director :
    (target : Url) (r : Request)
    → (header_get (director target r).header xff ≡ forwarded_for r)
      × (header_get (director target r).header xfp ≡ scheme r)
      × ((k : Str)
          → str_eq (canonical xff) (canonical k) ≡ false
          → str_eq (canonical xfp) (canonical k) ≡ false
          → header_get (director target r).header k ≡ header_get r.header k)
unfolding director canonical str_eq
header_get-director target r =
    let h : Header = header_set r.header xff (forwarded_for r) in
    (
      header_get-header_set h xff xfp (scheme r)
          ∙ header_get-header_set r.header xff xff (forwarded_for r),
      header_get-header_set h xfp xfp (scheme r),
      λ k n m.
          header_get-header_set h k xfp (scheme r)
          ∙ rw m (header_get-header_set r.header k xff (forwarded_for r) ∙ rw n refl),
    )
