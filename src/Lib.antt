-- ===== src/Lib.antt =====
-- A load balancer for HTTP and TCP: a pool of backends, selectors that pick one of its members for a
-- request, circuit breakers and health checkers that take failing backends out, handlers around the
-- proxy, and the peek at a TLS handshake for routing by server name.
--
-- Common is shared: Booleans and case splits (Tests), lists (Lists), `int`, `int64` and durations
--   with their wrap-around (Int), strings as lists of bytes (Strings), maps (Dict).
-- Backend, Pool: internal/backend. A backend is an object on a heap, a pool a list of references
--   (Contents: as the list of what they point to).
-- Http: what the code uses of net/http and net: header keys, `SplitHostPort`, a request. In Serving
--   a handler is the tree of the calls that it makes on its ResponseWriter, a struct that embeds one
--   is a `Wrapper`, and `serves` is the connection that carries the calls out.
-- Balancer: internal/balancer, a module per algorithm with its function `next`, which is `Next`.
--   A choice is a backend, a nil backend, the error `ErrNoBackends`, or a panic.
-- CircuitBreaker: internal/circuitbreaker; Breaker is `Breaker`, Registry is `Registry`.
-- Health: internal/health; StateMachine is `StateMachine`, Passive is `PassiveChecker`, Checker is
--   `Checker` (Loop: `Run`), with their counters as fields; Grpc is `probeGRPC`.
-- Tls: internal/tls; Sni is `extractSNI`, Peek is `PeekSNI` and `bufConn`, Termination is
--   `TerminationListener`, Watcher is `CertReloader`, Mtls is `MTLSConfig`.
-- Proxy: internal/proxy. Director is `director`; Dispatch is `ServeHTTP`, which asks the pool for its
--   healthy members and a selector for one of them, and counts the connection (Fairness: with the
--   round robin; Shedding: a backend that is not healthy); Middleware is `Chain` and the recording
--   writer; Tcp is `TCPProxy`, Tunnel is `pipe` and `tunnel`, Transport is `Transport` and the
--   servers' settings.
-- Routing: internal/routing; Trie is `PathTrie` (Prefix: `Add`, Match: `Match`), Host is `HostRouter`,
--   HeaderRules is `HeaderRouter`, Canary is `CanaryRouter`, Shadow is `Shadow`.
-- Admin: internal/admin; a function per handler of server.go, with the decoded body as its argument,
--   Routes is the mux of `New`, Drain is `Drainer`, Reload is `ConfigReloader`.
-- Middleware: internal/middleware; RateLimit is the token bucket `RateLimiter`, Logger `AccessLogger`,
--   RequestId `RequestID`, Headers `HeaderRewriter`, Gzip `GzipMiddleware`.
-- Metrics: internal/metrics, where a metric's changes are events that a handler leaves behind.
-- Config: config/config.go, `Load` and what the tags of its fields ask. Main: cmd/gobalancer/main.go,
--   from a configuration to the proxy.
-- Examples: tests, and the properties at concrete inputs.
--
-- State is passed explicitly. What Go does under a lock or in one call is one step, and a run is a
-- sequence of steps with their times as arguments, so that interleavings of the atomics inside a
-- call are not covered. `sort.Search` runs on the length of the slice as fuel and the loop over the
-- TLS extensions on one more than the length of the record; that this is enough is part of the
-- theorems that use them. Random numbers, floating-point rates, URLs, the HTTP client, the dialler,
-- the compressor, viper, the validator, UUIDs and the loading of key pairs are parameters. A handler
-- that calls WriteHeader with a status below 100 or above 999 is one that panics there. A header
-- holds one value for each key, and a connection takes of a write what its parameter says.
--
-- Not modelled: the timeouts of http.TimeoutHandler; latencies; httputil.ReverseProxy, the TLS
-- handshake, Prometheus, flags and signals, which are other libraries or the system.
mod Common
pub mod Backend
pub mod Pool
pub mod Http
pub mod Balancer
pub mod CircuitBreaker
pub mod Tls
pub mod Health
pub mod Routing
pub mod Middleware
pub mod Proxy
pub mod Metrics
pub mod Config
pub mod Main
pub mod Admin
mod Examples
