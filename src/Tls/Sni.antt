-- ===== src/Tls/Sni.antt =====
-- internal/tls/passthrough.go: `extractSNI`, stage by stage. A byte that the record does not have
-- is a run-time panic.
pub mod Safety
pub mod Hello
use gobalancer.Common.{
  ℕ, zero, suc, ◌+◌, ◌*◌, not, ◌&&◌, none, some, List, [], ltb, leb, ◌==◌, if◌then◌else◌, length,
  get_elem?, take, drop, Str,
}

-- The name (empty for none), a panic, or a loop that has not ended.
pub data Parsed : Type 0 where
  found : Str → Parsed
  panic : Parsed
  no_fuel : Parsed

-- `data[i]`, handed to the rest of the code.
abbrev pub read : List ℕ → ℕ → (ℕ → Parsed) → Parsed
read bytes i k = elim (get_elem? bytes i) [ none ↦ panic | some c ↦ k c ]

-- `uint16(hi)<<8 | uint16(lo)`, the sum for two bytes.
abbrev pub u16 : ℕ → ℕ → ℕ
u16 hi lo = hi * 256 + lo

-- The name in an SNI extension whose body begins at `off`, or the loop's next round.
unfoldable pub server_name : List ℕ → ℕ → ℕ → Parsed → Parsed
server_name bytes off ext_len rest =
    if ltb ext_len 5
    then found []
    else read bytes (off + 3) λ hi. read bytes (off + 4) λ lo.
      if leb (off + 5 + u16 hi lo) (length bytes)
      then found (take (u16 hi lo) (drop (off + 5) bytes))
      else rest

-- One extension, with its type and length; `rest` is the loop's next round.
unfoldable pub extension : List ℕ → ℕ → ℕ → ℕ → Parsed → Parsed
unfolding server_name
extension bytes off ext_type ext_len rest =
    if ext_type == 0 && leb (off + ext_len) (length bytes)
    then server_name bytes off ext_len rest
    else rest

-- The loop over the extensions. Each round moves `off` on by four at least.
unfoldable pub extensions : ℕ → List ℕ → ℕ → ℕ → Parsed
unfolding extension
extensions zero bytes off end = no_fuel
extensions (suc fuel) bytes off end =
    if not (leb (off + 4) end && leb (off + 4) (length bytes))
    then found []
    else read bytes off λ t. read bytes (off + 1) λ t'. read bytes (off + 2) λ n.
      read bytes (off + 3) λ n'.
        extension bytes (off + 4) (u16 t t') (u16 n n')
          (extensions fuel bytes (off + 4 + u16 n n') end)

unfoldable pub extension_block : List ℕ → ℕ → Parsed
unfolding extensions
extension_block bytes off =
    if ltb (length bytes) (off + 2)
    then found []
    else read bytes off λ hi.
      read bytes (off + 1)
        λ lo. extensions (suc (length bytes)) bytes (off + 2) (off + 2 + u16 hi lo)

unfoldable pub compression : List ℕ → ℕ → Parsed
unfolding extension_block
compression bytes off =
    if ltb (length bytes) (off + 1)
    then found []
    else read bytes off λ n. extension_block bytes (off + 1 + n)

unfoldable pub ciphers : List ℕ → ℕ → Parsed
unfolding compression
ciphers bytes off =
    if ltb (length bytes) (off + 2)
    then found []
    else read bytes off λ hi. read bytes (off + 1) λ lo. compression bytes (off + 2 + u16 hi lo)

-- Version and random are skipped.
unfoldable pub session : List ℕ → ℕ → Parsed
unfolding ciphers
session bytes off =
    if ltb (length bytes) (off + 35)
    then found []
    else read bytes (off + 34) λ n. ciphers bytes (off + 35 + n)

unfoldable pub handshake : List ℕ → Parsed
unfolding session
handshake bytes = read bytes 5 λ t. if t == 0x01 then session bytes 9 else found []

unfoldable pub extract_sni : List ℕ → Parsed
unfolding handshake
extract_sni bytes =
    if ltb (length bytes) 5
    then found []
    else read bytes 0 λ t.
      if not (t == 0x16)
      then found []
      else read bytes 3 λ hi.
        read bytes 4 λ lo. if ltb (length bytes) (5 + u16 hi lo) then found [] else handshake bytes
