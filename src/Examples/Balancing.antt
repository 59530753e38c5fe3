-- ===== src/Examples/Balancing.antt =====
-- The selectors on a list of three backends.
use gobalancer.Common.{
  ℕ, ◌*◌, ◌≡◌, refl, ◌≢◌, ◌⊎◌, none, some, [], ◌∷◌, Memᴰ, arith, length, All, count, pos, negsuc,
  ◌≤ℤ◌, max_int64, Str, lit, str_eq, lookup,
}
use gobalancer.Backend.{Ref, active_conns}
use gobalancer.Http.{Request}
use gobalancer.Http
use gobalancer.Balancer.{chosen, nothing, no_backends, picks}
use gobalancer.Balancer.RoundRobin.{RoundRobin, Outcome, run_fair, next_total}
use gobalancer.Balancer.RoundRobin
use gobalancer.Balancer.WeightedRoundRobin.{slot_count, expand}
use gobalancer.Balancer.WeightedRoundRobin
use gobalancer.Balancer.WeightedRoundRobin.Shares.{at_slot, run_shares}
use gobalancer.Balancer.LeastConnections.{Least, next-Least}
use gobalancer.Balancer.LeastConnections
use gobalancer.Balancer.P2c.{Rand, Lighter, next-Lighter}
use gobalancer.Balancer.P2c
use gobalancer.Balancer.IpHash.{client_ip, forwarded, fnv32a}
use gobalancer.Balancer.ConsistentHash.{ConsistentHash, build}
use gobalancer.Balancer.ConsistentHash
use gobalancer.Balancer.ConsistentHash.Search.{Nearest}
use gobalancer.Balancer.ConsistentHash.Remap.{remap_minimal, next-Nearest}
use gobalancer.Examples.Data.{heap, refs, request}

abbrev three_nodes : ConsistentHash
three_nodes = record { ring = []; node_map = λ _. none; virtual_nodes = pos 3 }

abbrev one_key : ConsistentHash
one_key = record { ring = 7 ∷ []; node_map = λ _. some 0; virtual_nodes = pos 1 }

abbrev client : Request
client = request "10.0.0.9"

remap_minimal_example :
    ((ConsistentHash.next heap client (build heap refs three_nodes) []).0 ≡ chosen 2)
    ⊎ ((ConsistentHash.next heap client (build heap refs three_nodes) []).0
        ≡ (ConsistentHash.next heap client (build heap (0 ∷ 1 ∷ []) three_nodes) []).0)
remap_minimal_example = remap_minimal heap 2 three_nodes (0 ∷ 1 ∷ []) 2 client [] [] refl

next-Nearest_example :
    (c : Ref) × (k : ℕ) × Memᴰ c refs
    × Nearest (build heap refs three_nodes).ring (fnv32a (client_ip client)) k
    × ((build heap refs three_nodes).node_map k ≡ some c)
    × ((ConsistentHash.next heap client (build heap refs three_nodes) []).0 ≡ chosen c)
next-Nearest_example = next-Nearest heap 2 three_nodes (0 ∷ 1 ∷ []) 2 client [] refl

run_fair_example : picks 1 (RoundRobin.run 3 (record { counter = pos 4 }) refs) ≡ 1
run_fair_example = run_fair 4 refs 1 (λ e. cc e) (omega arith)

next_total_example :
    Outcome
      (negsuc 9223372036854775807)
      refs
      (RoundRobin.next (record { counter = negsuc 9223372036854775807 }) refs).0
next_total_example =
    next_total (record { counter = negsuc 9223372036854775807 }) refs (omega arith, omega arith)

run_shares_example :
    picks 1
      (WeightedRoundRobin.run (length (expand heap (0 ∷ 1 ∷ []))) heap (at_slot [] 5) (0 ∷ 1 ∷ []))
    ≡ slot_count heap 1 * count 1 (0 ∷ 1 ∷ [])
unfolding expand
run_shares_example = run_shares heap 5 (0 ∷ 1 ∷ []) 1 (refl, (refl, tt)) (omega arith)

next-Least_example :
    ((refs ≡ []) × (LeastConnections.next heap refs ≡ no_backends))
    ⊎ ((r : Ref) × (LeastConnections.next heap refs ≡ chosen r) × Least heap refs max_int64 r)
    ⊎ ((LeastConnections.next heap refs ≡ nothing)
        × All (λ q. max_int64 ≤ℤ active_conns heap q) refs)
next-Least_example = next-Least heap refs

abbrev zeros : Rand
zeros = record { State = Unit; intn = λ s _. (0, s); intn-lt = λ _ n h. h }

next-Lighter_example : Lighter heap refs (P2c.next zeros heap tt refs).0
next-Lighter_example = next-Lighter zeros heap tt refs (omega arith)

not_empty : (x : ℕ) (s t : Str) → s ≡ x ∷ t → s ≢ []
not_empty x s t e = λ n. cc (e, n)

client_sent : forwarded client ≡ lit "10.0.0.9"
unfolding Http.header_get lookup Http.canonical str_eq
client_sent = refl
