-- ===== src/Routing/Host.antt =====
-- internal/routing/host.go
use gobalancer.Common.{
  ℕ, ◌≡◌, refl, ap, ◌∙◌, Bool, true, false, not, Option, none, some, List, [], ◌∷◌, ◌++◌, arith,
  ◌==◌, if◌then◌else◌, length, take, Str, last_index_byte, contains, last_index_byte-none, lookup,
  insert,
}
use gobalancer.Http.{Request}

pub record HostRouter : Type 0 where
  pub rules : List (Str × Str)

unfoldable pub new_host_router : HostRouter
new_host_router = record { rules = [] }

unfoldable pub add : Str → Str → HostRouter → HostRouter
unfolding insert
add host pool h = record { rules = insert host pool h.rules }

-- `host[len(host)-1] != ']'`, false for the empty string.
unfoldable pub not_bracketed : Str → Bool
not_bracketed [] = false
not_bracketed (c ∷ []) = not (c == b']')
not_bracketed (c ∷ d ∷ s) = not_bracketed (d ∷ s)

abbrev cut : Str → Option ℕ → Str
cut host none = host
cut host (some j) = take j host

unfoldable pub bare_host : Str → Str
unfolding not_bracketed last_index_byte
bare_host host = if not_bracketed host then cut host (last_index_byte b':' host) else host

unfoldable pub find : Request → HostRouter → Option Str
unfolding bare_host lookup
find r h = lookup (bare_host r.host) h.rules

last_index_byte-append :
    (c : ℕ) (s t : Str) → contains c t ≡ false → last_index_byte c (s ++ c ∷ t) ≡ some (length s)
unfolding last_index_byte
last_index_byte-append c [] t n = rw (last_index_byte-none c t n) (ground arith)
last_index_byte-append c (x ∷ s) t n = rw (last_index_byte-append c s t n) refl

not_bracketed-end : (c : ℕ) (t : Str) → contains b']' (c ∷ t) ≡ false → not_bracketed (c ∷ t) ≡ true
unfolding not_bracketed contains
not_bracketed-end c [] n = ground arith
not_bracketed-end c (d ∷ t) n = not_bracketed-end d t (ground arith)

not_bracketed-append : (s t : Str) (c : ℕ) → not_bracketed (s ++ c ∷ t) ≡ not_bracketed (c ∷ t)
unfolding not_bracketed
not_bracketed-append [] t c = refl
not_bracketed-append (x ∷ []) t c = refl
not_bracketed-append (x ∷ y ∷ s) t c = not_bracketed-append (y ∷ s) t c

take_before : (s t : Str) → take (length s) (s ++ t) ≡ s
take_before [] t = refl
take_before (x ∷ s) t = ap (λ l. x ∷ l) (take_before s t)

-- A host that comes with a port, of any form, is looked up without it.
pub bare_host-port :
    (host port : Str)
    → contains b':' port ≡ false
    → contains b']' port ≡ false
    → bare_host (host ++ b':' ∷ port) ≡ host
unfolding bare_host
bare_host-port host port n m =
    let open_end : not_bracketed (host ++ b':' ∷ port) ≡ true =
      not_bracketed-append host port b':' ∙ not_bracketed-end b':' port (unfold contains in m) in
    rw (open_end, last_index_byte-append b':' host port n) (take_before host (b':' ∷ port))
