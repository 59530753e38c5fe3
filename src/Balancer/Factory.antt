-- ===== src/Balancer/Factory.antt =====
-- internal/balancer/factory.go, and selector.go's interface as the algorithm that a selector runs.
use gobalancer.Common.{Option, none, some, List, if◌then◌else◌, pos, Str, lit, str_eq}
use gobalancer.Backend.{Heap, Ref}
use gobalancer.Http.{Request}
use gobalancer.Balancer.{Choice}
use gobalancer.Balancer.RoundRobin.{RoundRobin, new_round_robin}
use gobalancer.Balancer.RoundRobin
use gobalancer.Balancer.WeightedRoundRobin.{WeightedRoundRobin, new_weighted}
use gobalancer.Balancer.WeightedRoundRobin
use gobalancer.Balancer.LeastConnections
use gobalancer.Balancer.IpHash
use gobalancer.Balancer.ConsistentHash.{ConsistentHash, new_consistent_hash, default_virtual_nodes}
use gobalancer.Balancer.ConsistentHash
use gobalancer.Balancer.P2c.{Rand}
use gobalancer.Balancer.P2c

module _ (rand : Rand) where
  open rand use {State}

  -- The values behind the interface `Selector`.
  pub data Selector : Type 0 where
    round_robin : RoundRobin → Selector
    weighted : WeightedRoundRobin → Selector
    least_connections : Selector
    ip_hash : Selector
    consistent_hash : ConsistentHash → Selector
    p2c : State → Selector

  unfoldable pub select_next : Selector → Heap → Request → List Ref → Choice × Selector
  select_next (round_robin s) h r bs = let (c, s') = RoundRobin.next s bs in (c, round_robin s')
  select_next (weighted s) h r bs = let (c, s') = WeightedRoundRobin.next h s bs in (c, weighted s')
  select_next least_connections h r bs = (LeastConnections.next h bs, least_connections)
  select_next ip_hash h r bs = (IpHash.next r bs, ip_hash)
  select_next (consistent_hash s) h r bs =
      let (c, s') = ConsistentHash.next h r s bs in (c, consistent_hash s')
  select_next (p2c s) h r bs = let (c, s') = P2c.next rand h s bs in (c, p2c s')

  -- `seeded` is `rand.New(rand.NewSource(42))`; `none` is the error of an unknown name.
  unfoldable pub new_selector : State → Str → Option Selector
  new_selector seeded algorithm =
      if str_eq algorithm (lit "round_robin")
      then some (round_robin new_round_robin)
      else if str_eq algorithm (lit "weighted_round_robin")
      then some (weighted new_weighted)
      else if str_eq algorithm (lit "least_connections")
      then some least_connections
      else if str_eq algorithm (lit "ip_hash")
      then some ip_hash
      else if str_eq algorithm (lit "consistent_hash")
      then some (consistent_hash (new_consistent_hash (pos default_virtual_nodes)))
      else if str_eq algorithm (lit "p2c")
      then some (p2c seeded)
      else none
