-- ===== src/Balancer/IpHash.antt =====
-- internal/balancer/iphash.go
use native.Mathlib.Nat.{mod-lt}
use gobalancer.Common.{
  ℕ, suc, ◌*◌, ◌%◌, ◌<◌, bit_xor, ◌≡◌, refl, sym, ap, ◌∙◌, ◌≢◌, false, Option, none, some, List, [],
  ◌∷◌, Memᴰ, arith, if◌then◌else◌, length, get_elem?, get_elem?_total, get_elem?-mem, pos, rem_ℤ,
  index, Str, lit, is_empty, contains,
}
use gobalancer.Backend.{Ref}
use gobalancer.Http.{Request, header_get}
use gobalancer.Http.HostPort.{split_host_port, split_host_port-no_colon}
use gobalancer.Balancer.{Choice, chosen, no_backends, of_index, is_nil}

-- 2 ^ 32, and the constants of `fnv.New32a`.
abbrev pub two_32 : ℕ
two_32 = 4294967296

abbrev offset_basis : ℕ
offset_basis = 2166136261

abbrev fnv_prime : ℕ
fnv_prime = 16777619

fnv_from : ℕ → Str → ℕ
fnv_from hash [] = hash
fnv_from hash (c ∷ s) = fnv_from (bit_xor hash c * fnv_prime % two_32) s

unfoldable pub fnv32a : Str → ℕ
unfolding fnv_from
fnv32a s = fnv_from offset_basis s

abbrev x_forwarded_for : Str
x_forwarded_for = lit "X-Forwarded-For"

-- The host of an address, the empty string on an error.
abbrev host_of : Option (Str × Str) → Str
host_of none = []
host_of (some (host, port)) = host

abbrev forwarded_ip : Str → Str
forwarded_ip xff = let ip = host_of (split_host_port xff) in if is_empty ip then xff else ip

abbrev remote_ip : Str → Option (Str × Str) → Str
remote_ip addr none = addr
remote_ip addr (some (host, port)) = host

-- The client's address from the forwarded header and the connection's.
address : Str → Str → Str
unfolding split_host_port
address xff addr = if is_empty xff then remote_ip addr (split_host_port addr) else forwarded_ip xff

unfoldable pub client_ip : Request → Str
unfolding header_get address
client_ip r = address (header_get r.header x_forwarded_for) r.remote_addr

-- `int(hash)` is not negative, as an `int` has 64 bits.
unfoldable pub next : Request → List Ref → Choice
unfolding client_ip fnv32a
next r backends =
    let idx = rem_ℤ (pos (fnv32a (client_ip r))) (length backends) in
    if is_nil backends then no_backends else of_index (index backends idx)

fnv_from-lt : (hash : ℕ) (s : Str) → hash < two_32 → fnv_from hash s < two_32
unfolding fnv_from
fnv_from-lt hash [] h = h
fnv_from-lt hash (c ∷ s) h = fnv_from-lt (bit_xor hash c * fnv_prime % two_32) s (omega arith)

pub fnv32a-lt : (s : Str) → fnv32a s < two_32
unfolding fnv32a
fnv32a-lt s = fnv_from-lt offset_basis s (omega arith)

address_forwarded : (xff addr : Str) → xff ≢ [] → address xff addr ≡ forwarded_ip xff
unfolding address
address_forwarded [] addr ne = absurd (ne refl)
address_forwarded (c ∷ s) addr ne = refl

abbrev pub forwarded : Request → Str
forwarded r = header_get r.header x_forwarded_for

client_ip-forwarded : (r : Request) → forwarded r ≢ [] → client_ip r ≡ forwarded_ip (forwarded r)
unfolding client_ip
client_ip-forwarded r ne = address_forwarded (forwarded r) r.remote_addr ne

-- A forwarded header that is not empty and has no colon is the client's address, whole: a list of
-- addresses is not cut at its first comma.
pub client_ip_whole :
    (r : Request)
    → forwarded r ≢ []
    → contains b':' (forwarded r) ≡ false
    → client_ip r ≡ forwarded r
client_ip_whole r ne none_in =
    client_ip-forwarded r ne ∙ rw (split_host_port-no_colon (forwarded r) none_in) refl

pick_total :
    (hash : ℕ) (b : Ref) (bs : List Ref)
    → (r : Ref) × Memᴰ r (b ∷ bs) × (get_elem? (b ∷ bs) (hash % suc (length bs)) ≡ some r)
pick_total hash b bs =
    let (r, found) =
      get_elem?_total (b ∷ bs) (hash % suc (length bs)) (mod-lt hash (omega arith)) in
    (r, get_elem?-mem _ _ r found, found)

-- A list that is not empty yields one of its members, and the same one for every two requests that
-- carry one `X-Forwarded-For` header that is not empty, whatever connections they come on.
pub next_sticky :
    (bs : List Ref) (q r : Request)
    → bs ≢ []
    → forwarded q ≢ []
    → forwarded q ≡ forwarded r
    → (b : Ref) × Memᴰ b bs × (next q bs ≡ chosen b) × (next r bs ≡ chosen b)
unfolding next
next_sticky [] q r ne sent same = absurd (ne refl)
next_sticky (b ∷ bs) q r ne sent same =
    let (c, member, found) = pick_total (fnv32a (client_ip q)) b bs in
    let ips : client_ip q ≡ client_ip r =
      client_ip-forwarded q sent
      ∙ ap forwarded_ip same
      ∙ sym (client_ip-forwarded r (λ e. sent (same ∙ e))) in
    (c, member, ap of_index found, rw (← ips) (ap of_index found))
