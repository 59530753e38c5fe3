-- ===== src/Examples/Proxying.antt =====
-- Requests through the proxy, to the backend with the fewest connections.
use gobalancer.Common.{◌≡◌, refl, true, List, [], ◌∷◌, Memᴰ, arith, pos, lit}
use gobalancer.Backend.{Backend, Ref, healthy, is_healthy, Url}
use gobalancer.Pool.{Pool, new_pool}
use gobalancer.Pool
use gobalancer.Http.{Request}
use gobalancer.Balancer.LeastConnections
use gobalancer.Proxy.Director.{director}
use gobalancer.Proxy.Dispatch.{with_backend, Proxy, serve_http, Step, arrives, ends, run}
use gobalancer.Proxy.Dispatch.Accounting.{Accounted, run-Accounted}
use gobalancer.Proxy.Dispatch.Members.{
  least_connections, least_connections-PicksMembers, serve_http-healthy,
}
use gobalancer.Examples.Data.{request}

abbrev server : Url
server = record { scheme = lit "http"; host = lit "10.0.0.1:80"; path = []; raw_query = [] }

abbrev pub idle : Ref → Backend
idle _ = record {
  id = lit "a";
  url = server;
  weight = pos 1;
  active_conns = pos 0;
  health = healthy;
}

abbrev pub quiet : Proxy least_connections
quiet = record {
  pool = new_pool (0 ∷ 1 ∷ []);
  selector = tt;
  heap = record { next = 2; cell = idle };
  in_flight = [];
}

abbrev pub client : Request
client = request "10.0.0.9"

-- Two requests, of which the first ends.
abbrev pub two_requests : List (Step least_connections)
two_requests = arrives client ∷ arrives client ∷ ends 1 ∷ []

served_by : (run least_connections two_requests quiet).in_flight ≡ 1 ∷ []
unfolding run Pool.healthy LeastConnections.next
served_by = refl

run-Accounted_example :
    Accounted
      (run least_connections two_requests quiet).heap
      (run least_connections two_requests quiet).in_flight
run-Accounted_example =
    run-Accounted least_connections two_requests quiet (omega arith) refl (λ q. refl)

serve_http-healthy_example : (is_healthy quiet.heap 0 ≡ true) × Memᴰ 0 quiet.pool.backends
unfolding serve_http Pool.healthy LeastConnections.next
serve_http-healthy_example =
    serve_http-healthy least_connections client (director server (with_backend 0 client)) 0 quiet
      least_connections-PicksMembers refl
