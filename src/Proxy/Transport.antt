-- ===== src/Proxy/Transport.antt =====
-- internal/proxy/transport.go, and the transport and server that internal/proxy/http.go sets up.
-- Durations and times are nanoseconds.
use gobalancer.Common.{
  ◌*◌, ◌≡◌, refl, Bool, false, Option, none, some, ◌++◌, if◌then◌else◌, ℤ, pos, ◌+ℤ◌, ltb_ℤ, second,
  Str, lit,
}

pub record TransportConfig : Type 0 where
  pub dial_timeout : ℤ
  pub keep_alive : ℤ
  pub max_idle_conns : ℤ
  pub max_idle_conns_per_host : ℤ
  pub idle_conn_timeout : ℤ
  pub tls_handshake_timeout : ℤ
  pub response_header_timeout : ℤ
  pub insecure_skip_verify : Bool

unfoldable pub default_transport_config : TransportConfig
default_transport_config = record {
  dial_timeout = pos (10 * second);
  keep_alive = pos (30 * second);
  max_idle_conns = pos 200;
  max_idle_conns_per_host = pos 20;
  idle_conn_timeout = pos (90 * second);
  tls_handshake_timeout = pos (10 * second);
  response_header_timeout = pos (30 * second);
  insecure_skip_verify = false;
}

-- What is set of a `net.Dialer` and of an `http.Transport`.
pub record Dialer : Type 0 where
  pub timeout : ℤ
  pub keep_alive : ℤ

pub record Transport : Type 0 where
  pub dialer : Dialer
  pub max_idle_conns : ℤ
  pub max_idle_conns_per_host : ℤ
  pub idle_conn_timeout : ℤ
  pub tls_handshake_timeout : ℤ
  pub response_header_timeout : ℤ
  pub insecure_skip_verify : Bool

unfoldable pub new_transport : TransportConfig → Transport
new_transport cfg = record {
  dialer = record { timeout = cfg.dial_timeout; keep_alive = cfg.keep_alive };
  max_idle_conns = cfg.max_idle_conns;
  max_idle_conns_per_host = cfg.max_idle_conns_per_host;
  idle_conn_timeout = cfg.idle_conn_timeout;
  tls_handshake_timeout = cfg.tls_handshake_timeout;
  response_header_timeout = cfg.response_header_timeout;
  insecure_skip_verify = cfg.insecure_skip_verify;
}

-- The transport of `NewHTTPProxy`.
unfoldable pub http_proxy_transport : Transport
http_proxy_transport = record {
  dialer = record { timeout = pos (10 * second); keep_alive = pos (30 * second) };
  max_idle_conns = pos 200;
  max_idle_conns_per_host = pos 20;
  idle_conn_timeout = pos (90 * second);
  tls_handshake_timeout = pos (10 * second);
  response_header_timeout = pos (30 * second);
  insecure_skip_verify = false;
}

-- The transport of the proxy is the one of the default configuration.
http_proxy_transport_default : http_proxy_transport ≡ new_transport default_transport_config
unfolding http_proxy_transport new_transport default_transport_config
http_proxy_transport_default = refl

-- The settings of the server that `NewHTTPServer` makes, but its handler.
pub record HttpServer : Type 0 where
  pub addr : Str
  pub read_timeout : ℤ
  pub write_timeout : ℤ
  pub idle_timeout : ℤ

unfoldable pub new_http_server : Str → ℤ → ℤ → ℤ → HttpServer
new_http_server addr read_timeout write_timeout idle_timeout = record {
  addr = addr;
  read_timeout = read_timeout;
  write_timeout = write_timeout;
  idle_timeout = idle_timeout;
}

-- What the `select` of `ListenAndServe` gets: the end of the context, with what `Shutdown` returns; or
-- what the server returned, `none` for nil.
pub data ServerEnd : Type 0 where
  context_done : (shutdown : Option Str) → ServerEnd
  server_closed : ServerEnd
  server_returned : Option Str → ServerEnd

unfoldable pub listen_and_serve : ServerEnd → Option Str
listen_and_serve (context_done shutdown) = shutdown
listen_and_serve server_closed = none
listen_and_serve (server_returned none) = none
listen_and_serve (server_returned (some err)) = some (lit "http server: " ++ err)

-- The deadlines of the connection inside; `none` is no deadline.
pub record Conn : Type 0 where
  pub read_by : Option ℤ
  pub write_by : Option ℤ

pub record DeadlineConn : Type 0 where
  pub conn : Conn
  pub read_deadline : ℤ
  pub write_deadline : ℤ

-- The deadlines under which `Read` and `Write` call the connection inside, at a time.
unfoldable pub read : ℤ → DeadlineConn → DeadlineConn
read now d =
    if ltb_ℤ (pos 0) d.read_deadline
    then record d { conn = record d.conn { read_by = some (now +ℤ d.read_deadline) } }
    else d

unfoldable pub write : ℤ → DeadlineConn → DeadlineConn
write now d =
    if ltb_ℤ (pos 0) d.write_deadline
    then record d { conn = record d.conn { write_by = some (now +ℤ d.write_deadline) } }
    else d
