-- ===== src/Examples/Routing.antt =====
-- Tables of routes, and the tokens of a client.
use gobalancer.Common.{
  ℕ, ◌+◌, ◌/◌, ◌≤◌, min, String, ◌≡◌, refl, ◌⊎◌, none, some, List, [], ◌∷◌, arith, if◌then◌else◌,
  length, take, ℤ, pos, pos_part, Str, lit, str_eq,
}
use gobalancer.Http.{Request}
use gobalancer.Routing.Trie.{PathTrie, empty_node, new_path_trie, segments, add_segments, find}
use gobalancer.Routing.Trie
use gobalancer.Routing.Trie.Prefix.{pool_at, same_segments, pool_at-add_segments}
use gobalancer.Routing.Trie.Match.{Longest, find-Longest}
use gobalancer.Routing.HeaderRules.{HeaderRouter}
use gobalancer.Middleware.RateLimit.{new_rate_limiter}
use gobalancer.Middleware.RateLimit.Tokens.{Moderate, passed}
use gobalancer.Middleware.RateLimit.Clients.{answers_to, gains_from_first, passed-answers_to}
use gobalancer.Examples.Data.{request}

abbrev routes : PathTrie
unfolding Trie.add new_path_trie
routes = Trie.add (lit "/api/v1/") (lit "v1") (Trie.add (lit "/api") (lit "api") new_path_trie)

abbrev to_path : String → Request
to_path path = record (request "10.0.0.1") { url_path = lit path }

deepest_route : find (to_path "/api/v1/users") routes ≡ some (lit "v1")
unfolding find routes Trie.walk Trie.find_child str_eq
deepest_route = refl

shorter_route : find (to_path "/api//v2") routes ≡ some (lit "api")
unfolding find routes Trie.walk Trie.find_child str_eq
shorter_route = refl

no_route : find (to_path "/") routes ≡ none
unfolding find routes Trie.walk Trie.find_child str_eq
no_route = refl

pool_at-add_segments_example :
    pool_at (lit "a" ∷ []) (add_segments (lit "a" ∷ lit "b" ∷ []) (lit "p") empty_node) ≡ (
      if same_segments (lit "a" ∷ lit "b" ∷ []) (lit "a" ∷ [])
      then lit "p"
      else pool_at (lit "a" ∷ []) empty_node)
pool_at-add_segments_example =
    pool_at-add_segments (lit "a" ∷ lit "b" ∷ []) (lit "a" ∷ []) (lit "p") empty_node

find-Longest_example :
    ((pool : Str) × (find (to_path "/api/v1/users") routes ≡ some pool)
      × Longest (segments (to_path "/api/v1/users").url_path) routes.root pool)
    ⊎ ((find (to_path "/api/v1/users") routes ≡ none)
        × ((j : ℕ)
            → j ≤ length (segments (to_path "/api/v1/users").url_path)
            → pool_at (take j (segments (to_path "/api/v1/users").url_path)) routes.root ≡ []))
find-Longest_example = find-Longest (to_path "/api/v1/users") routes

abbrev beta : HeaderRouter
beta = record {
  rules =
      (record { header = lit "X-Version"; value = lit "beta"; matches = none; pool = lit "beta" })
      ∷ [];
}

-- One token per second, and at most a hundred.
abbrev per_second : ℤ → ℤ
per_second d = pos (min (pos_part d / 1000000000) 100)

per_second-Moderate : Moderate per_second 5
per_second-Moderate d = omega arith

-- The calls of two clients.
abbrev mixed : List (ℤ × Str)
mixed = (pos 1, lit "a") ∷ (pos 2, lit "b") ∷ (pos 2000000001, lit "a") ∷ []

passed-answers_to_example :
    passed (answers_to per_second (lit "a") mixed (new_rate_limiter (pos 5)))
    ≤ 5 + gains_from_first per_second (pos 1 ∷ pos 2000000001 ∷ [])
unfolding str_eq
passed-answers_to_example = passed-answers_to per_second (lit "a") 5 mixed per_second-Moderate
