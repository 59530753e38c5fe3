-- ===== src/Examples/Starting.antt =====
-- A configuration with two backends, from the file to the requests.
use gobalancer.Common.{
  ◌+◌, String, ◌≡◌, refl, ◌≢◌, ◌↔◌, ◌⊎◌, inl, inr, Bool, true, false, Option, none, some, List, [],
  ◌∷◌, arith, ◌==◌, if◌then◌else◌, get_elem?, pos, Str, lit,
}
use gobalancer.Backend.{Health, Url}
use gobalancer.Balancer.P2c.{Rand}
use gobalancer.Balancer.Factory.{new_selector}
use gobalancer.Balancer.RoundRobin.{new_round_robin}
use gobalancer.Config.{
  Config, PoolConfig, BackendConfig, FieldError, Libraries, load, config_tags, at_least_one, one_of,
  algorithms,
}
use gobalancer.Config.Algorithms.{ReadsTags, new_selector-algorithms}
use gobalancer.Proxy.Dispatch.{Proxy, new_http_proxy}
use gobalancer.Proxy.Dispatch.Fairness.{round_robin, serve_all, received}
use gobalancer.Main.{running, start}
use gobalancer.Pool.{new_pool, healthy}
use gobalancer.Main.Startup.{MadeFrom, Parses, Serves, start-Serves, Serves-fair}
use gobalancer.Admin.Reload.{reload, new_config_reloader, load_config, reload-config_tags}
use gobalancer.Examples.Data.{heap, request}

abbrev entry : String → BackendConfig
entry id = record { id = lit id; addr = lit "http://10.0.0.7:80"; weight = pos 0 }

abbrev pool_of_two : PoolConfig
pool_of_two = record {
  name = lit "main";
  algorithm = lit "p2c";
  backends = entry "a" ∷ entry "b" ∷ [];
  routes = [];
  health = record {
    interval = pos 0;
    timeout = pos 0;
    path = [];
    failure_threshold = pos 3;
    success_threshold = pos 2;
    mode = lit "http";
    passive_window = pos 0;
    passive_error_rate = record { numerator = pos 1; denominator = 2 };
  };
}

abbrev two_backends : Config
two_backends = record {
  server = record {
    addr = lit ":8080";
    read_timeout = pos 0;
    write_timeout = pos 0;
    idle_timeout = pos 0;
    tls = none;
  };
  pools = pool_of_two ∷ [];
  admin = record { addr = lit ":9001" };
  metrics = record { enabled = true; path = lit "/metrics" };
  logging = record { level = lit "info"; format = lit "json" };
}

abbrev any_url : Str → Bool
any_url s = true

abbrev parsed : Str → Option Url
parsed s = some (record { scheme = lit "http"; host = s; path = []; raw_query = [] })

parses : Parses any_url parsed
parses s e = (record { scheme = lit "http"; host = s; path = []; raw_query = [] }, refl)

-- A validator that reports one field.
abbrev refusal : Bool → List FieldError
refusal true = []
refusal false = record { field = lit "Config"; tag = lit "required" } ∷ []

abbrev libraries : Libraries
libraries = record {
  Settings = Unit;
  read_in_config = λ path defaults. inr tt;
  unmarshal = λ settings. inr two_backends;
  struct = λ cfg. refusal (config_tags any_url cfg);
}

reads_tags : ReadsTags any_url libraries
reads_tags cfg e = go (config_tags any_url cfg) refl e
  where
    go : (t : Bool) → config_tags any_url cfg ≡ t → refusal t ≡ [] → config_tags any_url cfg ≡ true
    go true k e = k
    go false k e = absurd (cc (e))

start-Serves_example :
    (pool_cfg : PoolConfig) × (p : Proxy round_robin) × (get_elem? two_backends.pools 0
      ≡ some pool_cfg)
    × (at_least_one pool_cfg.backends ≡ true)
    × (start parsed libraries (lit "config.yaml") heap ≡ running p)
    × Serves pool_cfg heap.next p
unfolding load config_tags
start-Serves_example =
    start-Serves any_url parsed parses libraries reads_tags (lit "config.yaml") two_backends heap
      refl

reload-config_tags_example :
    let r = new_config_reloader two_backends in
    ((err : Str) × (load libraries (lit "config.yaml") ≡ inl err)
      × (reload libraries (lit "config.yaml") r ≡ (some err, r)))
    ⊎ ((cfg : Config) × (load libraries (lit "config.yaml") ≡ inr cfg)
        × (reload libraries (lit "config.yaml") r ≡ (none, new_config_reloader cfg))
        × (load_config (reload libraries (lit "config.yaml") r).1 ≡ cfg)
        × (config_tags any_url cfg ≡ true))
reload-config_tags_example =
    reload-config_tags any_url libraries (lit "config.yaml") (new_config_reloader two_backends)
      reads_tags

-- What the program serves with.
abbrev started : Proxy round_robin
started =
    new_http_proxy round_robin
      (record {
        next = 2;
        cell = λ q. record {
          id = if q == 0 then lit "a" else lit "b";
          url = record { scheme = lit "http"; host = lit "10.0.0.7:80"; path = []; raw_query = [] };
          weight = pos 1;
          active_conns = pos 0;
          health = Health.healthy;
        };
      })
      (new_pool (0 ∷ 1 ∷ [])) new_round_robin

started-Serves : Serves pool_of_two 0 started
unfolding MadeFrom new_http_proxy healthy
started-Serves = record {
  members = refl;
  made_from = (
    record { same_id = refl; up = refl; idle = refl; weighted = refl },
    (record { same_id = refl; up = refl; idle = refl; weighted = refl }, tt),
  );
  all_healthy = refl;
  counter = refl;
  quiet = refl;
}

Serves-fair_example :
    received (0 + 1) (serve_all round_robin (request "10.0.0.1" ∷ request "10.0.0.1" ∷ []) started)
    ≡ 1
Serves-fair_example =
    Serves-fair pool_of_two 0 1 started (request "10.0.0.1" ∷ request "10.0.0.1" ∷ [])
      started-Serves (omega arith) refl (omega arith)

abbrev lowest : Rand
lowest = record { State = Unit; intn = λ s n. (0, s); intn-lt = λ s n h. h }

new_selector-algorithms_example :
    (one_of (lit "ip_hash") algorithms ≡ true) ↔ (new_selector lowest tt (lit "ip_hash") ≢ none)
new_selector-algorithms_example = new_selector-algorithms lowest tt (lit "ip_hash")
