-- ===== src/Main.antt =====
-- cmd/gobalancer/main.go: from the configuration to the proxy that serves, and how the program ends.
pub mod Startup
use gobalancer.Common.{
  ℕ, ◌⊎◌, inl, inr, Bool, Option, none, some, List, [], ◌∷◌, if◌then◌else◌, Str,
}
use gobalancer.Backend.{Heap, Ref, Url, alloc}
use gobalancer.Backend
use gobalancer.Pool.{new_pool}
use gobalancer.Config.{Config, PoolConfig, BackendConfig, Libraries, load}
use gobalancer.Balancer.RoundRobin.{new_round_robin}
use gobalancer.Proxy.Dispatch.{Proxy, new_http_proxy}
use gobalancer.Proxy.Dispatch.Fairness.{round_robin}

-- The exit with status 1, a run-time panic, or a server that runs.
pub data Started : Type 0 where
  exited : Started
  crashed : Started
  running : Proxy round_robin → Started

unfoldable pub with_backends : Option (List Ref × Heap) → Started
unfolding new_round_robin new_http_proxy
with_backends none = exited
with_backends (some (backends, h)) =
    running (new_http_proxy round_robin h (new_pool backends) new_round_robin)

module _ (parse : Str → Option Url) where
  -- The loop over the configured backends; `none` is the first one that fails.
  unfoldable pub create_backends : List BackendConfig → Heap → Option (List Ref × Heap)
  unfolding Backend.new alloc
  create_backends [] h = some ([], h)
  create_backends (bc ∷ bcs) h = elim (Backend.new parse bc.id bc.addr bc.weight) [
    | none ↦ none
    | some b ↦
        let (r, h') = alloc h b in
        elim (create_backends bcs h') [ none ↦ none | some (rs, h'') ↦ some (r ∷ rs, h'') ]
  ]

  -- `cfg.Pools[0]`, the only pool that is used; its algorithm is not read.
  unfoldable pub build : List PoolConfig → Heap → Started
  unfolding create_backends with_backends
  build [] h = crashed
  build (pool_cfg ∷ _) h = with_backends (create_backends pool_cfg.backends h)

  unfoldable pub with_config : Str ⊎ Config → Heap → Started
  unfolding build
  with_config (inl err) h = exited
  with_config (inr cfg) h = build cfg.pools h

  unfoldable pub start : Libraries → Str → Heap → Started
  unfolding load with_config
  start libraries cfg_path h = with_config (load libraries cfg_path) h

-- What the `select` gets: the signal, and then what `Shutdown` returns; or what the server returned.
pub data Ending : Type 0 where
  signalled : (shutdown_failed : Bool) → Ending
  server_closed : Ending
  server_failed : Ending

unfoldable pub exit_status : Ending → ℕ
exit_status (signalled shutdown_failed) = if shutdown_failed then 1 else 0
exit_status server_closed = 0
exit_status server_failed = 1
