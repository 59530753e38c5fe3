-- ===== src/Examples/Tunnelling.antt =====
-- TCP connections, a tunnel, a drain under load and certificates that change.
use mathlib.Core.Option
use gobalancer.Common.{
  ◌*◌, ◌≤◌, ◌≡◌, refl, true, false, ◌&&◌, none, some, List, [], ◌∷◌, arith, count, pos, second, lit,
}
use gobalancer.Backend.{Ref, active_conns}
use gobalancer.Pool.{new_pool}
use gobalancer.Proxy.Dispatch.{run}
use gobalancer.Proxy.Dispatch.Accounting.{Accounted}
use gobalancer.Proxy.Dispatch.Members.{least_connections, least_connections-PicksMembers}
use gobalancer.Proxy.Tcp.{
  TcpProxy, accepting, returned, accepts, accept_fails, handler_returns, waits,
}
use gobalancer.Proxy.Tcp
use gobalancer.Proxy.Tcp.Shutdown.{run-Drained}
use gobalancer.Proxy.Tunnel.{Side, a, b, Event, reads, opened, pipe, eof}
use gobalancer.Proxy.Tunnel
use gobalancer.Proxy.Tunnel.Lossless.{bytes_of, has_end, pipe-bytes_of}
use gobalancer.Admin.Drain.{drain}
use gobalancer.Admin.Drain.Running.{run-drain}
use gobalancer.Tls.Termination.{
  TerminationListener, store_cert, accept, served, new_termination_listener,
}
use gobalancer.Tls.Watcher.{CertReloader, changed, watcher_error, cancelled, watch}
use gobalancer.Tls.Watcher
use gobalancer.Tls.Termination.{reads_config_pointer}
use gobalancer.Tls.Watcher.Reloads.{loads, last_of, served-watch}
use gobalancer.Examples.Proxying.{idle, quiet, two_requests}

abbrev listening : TcpProxy
listening = record {
  pool = new_pool (0 ∷ 1 ∷ []);
  dial_timeout = pos (10 * second);
  heap = record { next = 2; cell = idle };
  handlers = [];
  phase = accepting;
}

-- Two connections, the end of the context, and the handlers' returns.
abbrev shutdown : List Tcp.Step
shutdown =
    accepts
    ∷ accepts
    ∷ accept_fails true
    ∷ waits
    ∷ handler_returns 1
    ∷ handler_returns 0
    ∷ waits
    ∷ []

first_backend_twice : (Tcp.run (accepts ∷ accepts ∷ []) listening).handlers ≡ 0 ∷ 0 ∷ []
unfolding Tcp.run Tcp.handle_conn
first_backend_twice = refl

returns_nil : (Tcp.run shutdown listening).phase ≡ returned
unfolding Tcp.run Tcp.handle_conn
returns_nil = refl

run-Drained_example :
    let q = Tcp.run shutdown listening in
    Accounted q.heap q.handlers
    × (q.phase ≡ returned → (q.handlers ≡ []) × ((r : Ref) → active_conns q.heap r ≡ pos 0))
run-Drained_example = run-Drained shutdown listening (omega arith) refl refl (λ q. refl)

-- Bytes behind the end of the other direction.
abbrev half_closed : List Event
half_closed =
    reads a (lit "GET")
    ∷ Event.ends a (some eof)
    ∷ reads b (lit "OK")
    ∷ reads b (lit "!")
    ∷ Event.ends b none
    ∷ []

pipe-bytes_of_example :
    let t = pipe (λ s. true) half_closed opened in
    ((s : Side) → (t.copying s).delivered ≡ bytes_of s half_closed)
    × (Tunnel.returned t ≡ (has_end a half_closed && has_end b half_closed))
pipe-bytes_of_example = pipe-bytes_of (λ s. true) half_closed

run-drain_example :
    let p = run least_connections two_requests quiet in
    count 1
      (run least_connections two_requests (record p { heap = (drain 1 [] p.heap).1 })).in_flight
    ≤ count 1 p.in_flight
run-drain_example =
    run-drain least_connections 1 [] two_requests (run least_connections two_requests quiet)
      least_connections-PicksMembers

abbrev both : CertReloader
both = record { cert_file = lit "cert.pem"; key_file = lit "key.pem" }

abbrev new_listener : TerminationListener
new_listener = record { cfg = record { source = reads_config_pointer; min_version = 771 } }

abbrev changes : List Watcher.Event
changes =
    changed (record { write = true; create = false }) (some (lit "second"))
    ∷ watcher_error
    ∷ changed (record { write = true; create = false }) none
    ∷ cancelled
    ∷ []

served-watch_example :
    Option.map served (accept false (watch true (λ f. true) both changes new_listener).1)
    ≡ some (last_of none (loads changes))
unfolding new_termination_listener store_cert
served-watch_example = served-watch (lit "first") new_listener both (λ f. true) changes refl refl
