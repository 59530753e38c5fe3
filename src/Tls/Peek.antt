-- ===== src/Tls/Peek.antt =====
-- internal/tls/passthrough.go: `PeekSNI` and the connection that replays what it has read.
use gobalancer.Common.{
  ℕ, min, ◌≡◌, refl, sym, ap, ◌∙◌, Bool, true, false, List, [], ◌∷◌, ◌++◌, append_assoc,
  if◌then◌else◌, take, drop, take-append-drop,
}
use gobalancer.Tls.Sni.{Parsed, extract_sni}

-- What `conn.Read` reports beside the bytes.
pub data ReadError : Type 0 where
  no_error eof failed : ReadError

-- A connection is the bytes that are still to come; one read takes some of them.
abbrev pub Conn : Type 0
Conn = List ℕ

pub record BufConn : Type 0 where
  pub replay : List ℕ
  pub conn : Conn

pub data Peeked : Type 0 where
  error : Peeked
  peeked : Parsed → BufConn → Peeked

-- `conn.Read` into a buffer of `size` bytes, when `arrived` bytes are there.
abbrev pub conn_read : ℕ → ℕ → Conn → List ℕ × Conn
conn_read size arrived conn = (take (min size arrived) conn, drop (min size arrived) conn)

abbrev peek_buffer : ℕ
peek_buffer = 4096

peek_with : ReadError → List ℕ → Conn → Peeked
unfolding extract_sni
peek_with failed bytes conn = error
peek_with no_error bytes conn = peeked (extract_sni bytes) (record { replay = bytes; conn = conn })
peek_with eof bytes conn = peeked (extract_sni bytes) (record { replay = bytes; conn = conn })

unfoldable pub peek_sni : ReadError → ℕ → Conn → Peeked
unfolding peek_with
peek_sni err arrived conn =
    let (bytes, rest) = conn_read peek_buffer arrived conn in peek_with err bytes rest

is_empty_reader : List ℕ → Bool
is_empty_reader [] = true
is_empty_reader (_ ∷ _) = false

unfoldable pub buf_read : ℕ → ℕ → BufConn → List ℕ × BufConn
unfolding is_empty_reader
buf_read size arrived c =
    let (bytes, rest) = conn_read size arrived c.conn in
    if is_empty_reader c.replay
    then (bytes, record c { conn = rest })
    else (take size c.replay, record c { replay = drop size c.replay })

-- The bytes of a series of reads, and the connection behind them.
unfoldable pub buf_reads : List (ℕ × ℕ) → BufConn → List ℕ × BufConn
buf_reads [] c = ([], c)
buf_reads ((size, arrived) ∷ more) c =
    let (bytes, c') = buf_read size arrived c in
    let (bytes', c'') = buf_reads more c' in (bytes ++ bytes', c'')

abbrev pub to_come : BufConn → List ℕ
to_come c = c.replay ++ c.conn

-- One read takes bytes off the replay buffer, or off the connection when that is empty.
read_replay :
    (size arrived : ℕ) (xs conn : List ℕ)
    → (let (bytes, c) = buf_read size arrived (record { replay = xs; conn = conn }) in
        bytes ++ to_come c)
      ≡ xs ++ conn
unfolding buf_read is_empty_reader
read_replay size arrived [] conn = take-append-drop (min size arrived) conn
read_replay size arrived (x ∷ xs) conn =
    sym (append_assoc (take size (x ∷ xs)) (drop size (x ∷ xs)) conn)
    ∙ ap (λ l. l ++ conn) (take-append-drop size (x ∷ xs))

-- Whatever the sizes of the reads, the bytes read and those to come are the bytes that were to come.
pub buf_reads_lossless :
    (reads : List (ℕ × ℕ)) (c : BufConn)
    → (buf_reads reads c).0 ++ to_come (buf_reads reads c).1 ≡ to_come c
unfolding buf_reads
buf_reads_lossless [] c = refl
buf_reads_lossless ((size, arrived) ∷ more) c =
    let (bytes, c') = buf_read size arrived c in
    let (bytes', c'') = buf_reads more c' in
    append_assoc bytes bytes' (to_come c'')
    ∙ ap (λ l. bytes ++ l) (buf_reads_lossless more c')
    ∙ read_replay size arrived c.replay c.conn
