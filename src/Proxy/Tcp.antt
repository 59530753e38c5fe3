-- ===== src/Proxy/Tcp.antt =====
-- internal/proxy/tcp.go. A handler runs from the connection that it is given to its return, when the
-- dial has failed or the tunnel has ended; the deferred `DecConns` is part of its return.
pub mod Shutdown
use gobalancer.Common.{
  ℕ, ◌*◌, Bool, Option, none, some, List, [], ◌∷◌, if◌then◌else◌, get_elem?, ℤ, pos, eq_ℤ, second,
  Str,
}
use gobalancer.Backend.{Heap, Ref, inc_conns, dec_conns}
use gobalancer.Pool.{Pool, healthy}
use gobalancer.Proxy.Dispatch.{remove_at}

-- `Serve` accepts; waits for the handlers; has returned nil; has returned an error.
pub data Phase : Type 0 where
  accepting waiting returned failed : Phase

pub record TcpProxy : Type 0 where
  pub pool : Pool
  pub dial_timeout : ℤ
  pub heap : Heap
  pub handlers : List Ref  -- the backends of the handlers that run: `wg` counts them
  pub phase : Phase

-- `none` is the error of `Listen`.
unfoldable pub new_tcp_proxy : Bool → Pool → ℤ → Heap → Option TcpProxy
new_tcp_proxy listens pool dial_timeout h =
    if listens
    then some (record {
      pool = pool;
      dial_timeout = if eq_ℤ dial_timeout (pos 0) then pos (10 * second) else dial_timeout;
      heap = h;
      handlers = [];
      phase = accepting;
    })
    else none

-- `backends[0]`, and the address that is dialled; without a backend the handler returns at once.
unfoldable pub handle_first : List Ref → TcpProxy → Option Str × TcpProxy
unfolding inc_conns
handle_first [] p = (none, p)
handle_first (b ∷ _) p = (
  some (p.heap.cell b).url.host,
  record p { heap = inc_conns p.heap b; handlers = b ∷ p.handlers },
)

unfoldable pub handle_conn : TcpProxy → Option Str × TcpProxy
unfolding handle_first healthy
handle_conn p = handle_first (healthy p.heap p.pool) p

unfoldable pub return_at : ℕ → Option Ref → TcpProxy → TcpProxy
unfolding dec_conns remove_at
return_at i none p = p
return_at i (some b) p = record p { heap = dec_conns p.heap b; handlers = remove_at i p.handlers }

-- The error of `Accept`.
unfoldable pub accept_error : Bool → TcpProxy → TcpProxy
accept_error ctx_done p = record p { phase = if ctx_done then waiting else failed }

-- `wg.Wait`, which ends when no handler runs.
abbrev pub wait : List Ref → TcpProxy → TcpProxy
wait [] p = record p { phase = returned }
wait (_ ∷ _) p = p

pub data Step : Type 0 where
  accepts : Step
  accept_fails : (ctx_done : Bool) → Step
  handler_returns : ℕ → Step
  waits : Step

abbrev pub in_loop : Phase → (TcpProxy → TcpProxy) → TcpProxy → TcpProxy
in_loop accepting f p = f p
in_loop waiting f p = p
in_loop returned f p = p
in_loop failed f p = p

abbrev pub in_wait : Phase → TcpProxy → TcpProxy
in_wait waiting p = wait p.handlers p
in_wait accepting p = p
in_wait returned p = p
in_wait failed p = p

-- `Serve`, one event at a time.
unfoldable pub step : Step → TcpProxy → TcpProxy
unfolding handle_conn accept_error return_at
step accepts p = in_loop p.phase (λ q. (handle_conn q).1) p
step (accept_fails ctx_done) p = in_loop p.phase (accept_error ctx_done) p
step (handler_returns i) p = return_at i (get_elem? p.handlers i) p
step waits p = in_wait p.phase p

unfoldable pub run : List Step → TcpProxy → TcpProxy
unfolding step
run [] p = p
run (e ∷ es) p = run es (step e p)
