-- ===== src/Middleware/Headers.antt =====
-- internal/middleware/headers.go. A map is the list of its entries in the order of the iteration.
pub mod Late
use gobalancer.Common.{◌+◌, ◌-◌, List, [], ◌∷◌, ◌++◌, if◌then◌else◌, Str, lit, is_empty, insert}
use gobalancer.Http.Serving.{Serving, returns, gets, sets, deletes, bind, Handler}

pub record HeaderRewriter : Type 0 where
  pub adds : List (Str × Str)
  pub removes : List Str
  pub sets : List (Str × Str)

unfoldable pub new_header_rewriter : HeaderRewriter
new_header_rewriter = record { adds = []; removes = []; sets = [] }

unfoldable pub add : Str → Str → HeaderRewriter → HeaderRewriter
unfolding insert
add name value h = record h { adds = insert name value h.adds }

unfoldable pub remove_name : Str → HeaderRewriter → HeaderRewriter
remove_name name h = record h { removes = h.removes ++ name ∷ [] }

unfoldable pub set : Str → Str → HeaderRewriter → HeaderRewriter
unfolding insert
set name value h = record h { sets = insert name value h.sets }

unfoldable pub apply_adds : List (Str × Str) → Serving (Unit {0}) → Serving (Unit {0})
apply_adds [] c = c
apply_adds ((k, v) ∷ m) c =
    let rest = apply_adds m c in
    gets k (λ current. if is_empty current then sets k v rest else rest)

unfoldable pub apply_removes : List Str → Serving (Unit {0}) → Serving (Unit {0})
apply_removes [] c = c
apply_removes (k ∷ ks) c = deletes k (apply_removes ks c)

unfoldable pub apply_sets : List (Str × Str) → Serving (Unit {0}) → Serving (Unit {0})
apply_sets [] c = c
apply_sets ((k, v) ∷ m) c = sets k v (apply_sets m c)

unfoldable pub middleware : HeaderRewriter → Handler → Handler
unfolding bind apply_adds apply_removes apply_sets
middleware h next r =
    bind (next r)
      (λ _. apply_adds h.adds (apply_removes h.removes (apply_sets h.sets (returns tt))))

abbrev pub security : List (Str × Str)
security =
    (lit "Strict-Transport-Security", lit "max-age=63072000; includeSubDomains")
    ∷ (lit "X-Frame-Options", lit "DENY")
    ∷ (lit "X-Content-Type-Options", lit "nosniff")
    ∷ (lit "Referrer-Policy", lit "strict-origin-when-cross-origin")
    ∷ []

unfoldable pub security_headers : Handler → Handler
unfolding bind apply_sets
security_headers next r = bind (next r) (λ _. apply_sets security (returns tt))
