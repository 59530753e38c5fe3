-- ===== src/Http/HostPort.antt =====
-- `net.SplitHostPort`: host and port of an address, `none` for its errors.
use gobalancer.Common.{
  ◌>>=◌, ℕ, suc, ◌-◌, ◌≡◌, refl, Bool, false, ◌||◌, Option, none, some, [], ◌∷◌, ◌==◌,
  if◌then◌else◌, take, drop, Str, lit, index_byte, last_index_byte, contains, last_index_byte-none,
}

abbrev starts_bracket : Str → Bool
starts_bracket [] = false
starts_bracket (c ∷ s) = c == b'['

-- The checks for stray brackets behind the positions `j` and `k`, and the result.
finish : Str → Str → ℕ → ℕ → ℕ → Option (Str × Str)
unfolding contains
finish s host i j k =
    if contains b'[' (drop j s) || contains b']' (drop k s)
    then none
    else some (host, drop (suc i) s)

-- `[host]:port`, with `i` the position of the last colon and `end` that of the first `]`.
bracketed : Str → ℕ → ℕ → Option (Str × Str)
unfolding finish
bracketed s i end =
    if suc end == i then finish s (take (end - 1) (drop 1 s)) i 1 (suc end) else none

plain : Str → ℕ → Option (Str × Str)
unfolding finish contains
plain s i = if contains b':' (take i s) then none else finish s (take i s) i 0 0

split_at : Str → ℕ → Option (Str × Str)
unfolding bracketed plain index_byte
split_at s i = if starts_bracket s then (index_byte b']' s >>= bracketed s i) else plain s i

unfoldable pub split_host_port : Str → Option (Str × Str)
unfolding split_at last_index_byte
split_host_port s = last_index_byte b':' s >>= split_at s

-- An address with no colon has no port.
pub split_host_port-no_colon : (s : Str) → contains b':' s ≡ false → split_host_port s ≡ none
unfolding split_host_port
split_host_port-no_colon s h = rw (last_index_byte-none b':' s h)

v4 : split_host_port (lit "10.0.0.7:5501") ≡ some (lit "10.0.0.7", lit "5501")
unfolding split_host_port
v4 = refl

v6 : split_host_port (lit "[::1]:80") ≡ some (lit "::1", lit "80")
unfolding split_host_port
v6 = refl

two_addresses : split_host_port (lit "10.0.0.7, 10.0.0.8") ≡ none
unfolding split_host_port
two_addresses = refl
