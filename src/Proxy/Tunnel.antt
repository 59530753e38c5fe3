-- ===== src/Proxy/Tunnel.antt =====
-- internal/proxy/tunnel.go, and `tunnel` of internal/proxy/tcp.go: two loops that copy between two
-- connections, as the sequence of what they read.
pub mod Lossless
use gobalancer.Common.{
  ◌+◌, Bool, true, false, not, Option, none, some, List, [], ◌∷◌, ◌++◌, leb, if◌then◌else◌, length,
  Str,
}

-- An error of `io.Copy`; a `net.Error` says whether it is a timeout.
pub data CopyError : Type 0 where
  eof : CopyError
  net_error : (timeout : Bool) → CopyError
  other : CopyError

-- `none` is `nil`.
unfoldable pub is_conn_closed : Option CopyError → Bool
is_conn_closed none = true
is_conn_closed (some eof) = true
is_conn_closed (some (net_error timeout)) = not timeout
is_conn_closed (some other) = false

pub data Side : Type 0 where
  a b : Side

abbrev pub same_side : Side → Side → Bool
same_side a a = true
same_side b b = true
same_side _ _ = false

-- The loop that reads from one side and writes to the other.
pub record Copying : Type 0 where
  pub delivered : Str
  pub ended : Bool
  pub half_closed : Bool  -- `CloseWrite` was called on the other side

-- `errc` holds what the loops that have ended sent; `crashed` is a panic.
pub record Tunnel : Type 0 where
  pub copying : Side → Copying
  pub errc : List (Option CopyError)
  pub crashed : Bool

abbrev pub opened : Tunnel
opened = record {
  copying = λ s. record { delivered = []; ended = false; half_closed = false };
  errc = [];
  crashed = false;
}

abbrev pub change : Side → Copying → (Side → Copying) → Side → Copying
change s c f t = if same_side t s then c else f t

pub data Event : Type 0 where
  reads : Side → Str → Event
  ends : Side → Option CopyError → Event

-- What is read is written on; a loop that has ended reads no more.
unfoldable pub read_more : Str → Copying → Copying
read_more bytes c = if c.ended then c else record c { delivered = c.delivered ++ bytes }

unfoldable pub end_copy : Bool → Copying → Copying
end_copy tcp c = if c.ended then c else record c { ended = true; half_closed = tcp }

module _ (is_tcp : Side → Bool) where
  -- `cp` of `pipe`: the other side is half closed if it is a TCP connection.
  unfoldable pub cp : Event → Tunnel → Tunnel
  unfolding read_more end_copy
  cp (reads s bytes) t = record t { copying = change s (read_more bytes (t.copying s)) t.copying }
  cp (ends s err) t = record t {
    copying = change s (end_copy (is_tcp s) (t.copying s)) t.copying;
    errc = if (t.copying s).ended then t.errc else t.errc ++ err ∷ [];
  }

  unfoldable pub pipe : List Event → Tunnel → Tunnel
  unfolding cp
  pipe [] t = t
  pipe (e ∷ es) t = pipe es (cp e t)

  -- `copy` of `tunnel`, which half closes without asking: a panic unless the other side is a TCP
  -- connection.
  unfoldable pub copy : Event → Tunnel → Tunnel
  unfolding cp
  copy (reads s bytes) t = cp (reads s bytes) t
  copy (ends s err) t = if is_tcp s then cp (ends s err) t else record t { crashed = true }

  unfoldable pub tunnel : List Event → Tunnel → Tunnel
  unfolding copy
  tunnel [] t = t
  tunnel (e ∷ es) t = let rest = tunnel es (copy e t) in if t.crashed then t else rest

-- The second receive ends the call.
unfoldable pub returned : Tunnel → Bool
returned t = leb 2 (length t.errc)
