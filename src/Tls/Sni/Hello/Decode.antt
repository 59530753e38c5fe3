-- ===== src/Tls/Sni/Hello/Decode.antt =====
-- `extractSNI` finds the name that a ClientHello carries.
use gobalancer.Common.{
  ℕ, zero, suc, ◌+◌, ◌/◌, ◌%◌, ◌≤◌, ◌<◌, ◌≡◌, refl, sym, ap, subst, ◌∙◌, ◌≢◌, true, false, not,
  ◌&&◌, some, List, [], ◌∷◌, ◌++◌, arith, ltb, leb, ◌==◌, length, get_elem?, take, drop,
  length-append, All,
}
use gobalancer.Tls.Sni.{
  Parsed, found, read, u16, server_name, extension, extensions, extension_block, compression,
  ciphers, session, handshake, extract_sni,
}
use gobalancer.Tls.Sni.Hello.{
  be16, Extension, Hello, encode_extensions, with_length8, with_length16, message, encode,
}

-- The bytes from an offset on, and the offset within the record.
record At (bytes : List ℕ) (off : ℕ) (rest : List ℕ) : Type 0 where
  there : drop off bytes ≡ rest
  inside : off + length rest ≡ length bytes

head_at : (xs : List ℕ) (i x : ℕ) (rest : List ℕ) → drop i xs ≡ x ∷ rest → get_elem? xs i ≡ some x
head_at [] zero x rest e = absurd (cc (e))
head_at [] (suc i) x rest e = absurd (cc (e))
head_at (y ∷ xs) zero x rest e = cc (e)
head_at (y ∷ xs) (suc i) x rest e = head_at xs i x rest e

drop_nil : (n : ℕ) → drop {A = ℕ} n [] ≡ []
drop_nil zero = refl
drop_nil (suc n) = refl

drop_more : (xs : List ℕ) (i j : ℕ) → drop (i + j) xs ≡ drop j (drop i xs)
drop_more xs zero j = let e : 0 + j ≡ j = omega arith in ap (λ m. drop m xs) e
drop_more [] (suc i) j = drop_nil (suc i + j) ∙ sym (drop_nil j)
drop_more (x ∷ xs) (suc i) j =
    let e : suc i + j ≡ suc (i + j) = omega arith in ap (λ m. drop m (x ∷ xs)) e ∙ drop_more xs i j

drop_front : (xs ys : List ℕ) → drop (length xs) (xs ++ ys) ≡ ys
drop_front [] ys = refl
drop_front (x ∷ xs) ys = drop_front xs ys

take_front : (xs ys : List ℕ) → take (length xs) (xs ++ ys) ≡ xs
take_front [] ys = refl
take_front (x ∷ xs) ys = ap (λ l. x ∷ l) (take_front xs ys)

first :
    {bytes : List ℕ} {off x : ℕ} {rest : List ℕ}
    → At bytes off (x ∷ rest)
    → get_elem? bytes off ≡ some x
first {bytes} {off} {x} {rest} a = head_at bytes off x rest a.there

-- What stands behind some bytes.
skip :
    {bytes : List ℕ} {off : ℕ} (xs : List ℕ) {rest : List ℕ}
    → At bytes off (xs ++ rest)
    → At bytes (off + length xs) rest
skip {bytes} {off} xs {rest} a = record {
  there = drop_more bytes off (length xs) ∙ ap (drop (length xs)) a.there ∙ drop_front xs rest;
  inside = omega (arith, a.inside, length-append xs rest);
}

u16_be16 : (n : ℕ) → u16 (n / 256) (n % 256) ≡ n
u16_be16 n = omega arith

server_name-found :
    (bytes : List ℕ) (off : ℕ) (name behind : List ℕ) (rest : Parsed)
    → At bytes off (be16 (3 + length name) ++ 0 ∷ be16 (length name) ++ name ++ behind)
    → server_name bytes off (5 + length name) rest ≡ found name
unfolding server_name
server_name-found bytes off name behind rest a =
    let n : ℕ = length name in
    let m : ℕ = 3 + n in
    let e₃ = first (skip (m / 256 ∷ m % 256 ∷ 0 ∷ []) a) in
    let e₄ = first (skip (m / 256 ∷ m % 256 ∷ 0 ∷ n / 256 ∷ []) a) in
    let a₅ = skip (m / 256 ∷ m % 256 ∷ 0 ∷ n / 256 ∷ n % 256 ∷ []) a in
    let long : ltb (5 + n) 5 ≡ false = ground arith in
    let fits : leb (off + 5 + n) (length bytes) ≡ true =
      ground (arith, a₅.inside, length-append name behind) in
    rw (long, e₃, e₄, read)
      (rw (u16_be16 n, fits) (ap found (ap (take n) a₅.there ∙ take_front name behind)))

-- The loop passes over the other extensions to the one with the name.
extensions-found :
    (others : List Extension) (fuel : ℕ) (bytes : List ℕ) (off end : ℕ) (name behind : List ℕ)
    → All (λ x. x.kind ≢ 0) others
    → At bytes off (encode_extensions others name behind)
    → end ≡ off + length (encode_extensions others name behind)
    → length others < fuel
    → extensions fuel bytes off end ≡ found name
unfolding extensions extension
extensions-found others zero bytes off end name behind ks a e l = absurd (omega arith)
extensions-found [] (suc fuel) bytes off end name behind ks a e l =
    let n : ℕ = length name in
    let m : ℕ = 5 + n in
    let a₄ = skip (0 ∷ 0 ∷ m / 256 ∷ m % 256 ∷ []) a in
    let more : not (leb (off + 4) end && leb (off + 4) (length bytes)) ≡ false =
      ground (arith, a.inside, e) in
    let fits : leb (off + 4 + m) (length bytes) ≡ true =
      ground (arith, a₄.inside, length-append name behind) in
    let e₀ = first a in
    let e₁ = first (skip (0 ∷ []) a) in
    let e₂ = first (skip (0 ∷ 0 ∷ []) a) in
    let e₃ = first (skip (0 ∷ 0 ∷ m / 256 ∷ []) a) in
    rw (more, e₀, e₁, e₂, e₃, read)
      (rw (u16_be16 m, fits) (server_name-found bytes (off + 4) name behind _ a₄))
extensions-found (x ∷ xs) (suc fuel) bytes off end name behind (nz, ks) a e l =
    let k : ℕ = x.kind in
    let m : ℕ = length x.body in
    let rest : List ℕ = encode_extensions xs name behind in
    let a₄ = skip (k / 256 ∷ k % 256 ∷ m / 256 ∷ m % 256 ∷ []) a in
    let a' = skip x.body a₄ in
    let more : not (leb (off + 4) end && leb (off + 4) (length bytes)) ≡ false =
      ground (arith, a.inside, e) in
    let other : (k == 0) ≡ false = ground (arith, nz) in
    let e₀ = first a in
    let e₁ = first (skip (k / 256 ∷ []) a) in
    let e₂ = first (skip (k / 256 ∷ k % 256 ∷ []) a) in
    let e₃ = first (skip (k / 256 ∷ k % 256 ∷ m / 256 ∷ []) a) in
    rw (more, e₀, e₁, e₂, e₃, read)
      (rw (u16_be16 k, u16_be16 m, other)
        (extensions-found xs fuel bytes (off + 4 + m) end name behind ks a'
          (omega (arith, e, length-append x.body rest)) (omega arith)))

length-others :
    (others : List Extension) (name behind : List ℕ)
    → length others ≤ length (encode_extensions others name behind)
length-others [] name behind = omega arith
length-others (x ∷ xs) name behind =
    omega
      (arith, length-others xs name behind, length-append x.body (encode_extensions xs name behind))

extension_block-found :
    (bytes : List ℕ) (off : ℕ) (others : List Extension) (name behind : List ℕ)
    → All (λ x. x.kind ≢ 0) others
    → (let exts = encode_extensions others name behind in
        At bytes off (be16 (length exts) ++ exts) → extension_block bytes off ≡ found name)
unfolding extension_block
extension_block-found bytes off others name behind ks a =
    let exts : List ℕ = encode_extensions others name behind in
    let n : ℕ = length exts in
    let a₂ = skip (n / 256 ∷ n % 256 ∷ []) a in
    let room : ltb (length bytes) (off + 2) ≡ false = ground (arith, a.inside) in
    let e₀ = first a in
    let e₁ = first (skip (n / 256 ∷ []) a) in
    rw (room, e₀, e₁, read)
      (rw (u16_be16 n) (
        extensions-found others (suc (length bytes)) bytes (off + 2) (off + 2 + n) name behind ks a₂
          refl (omega (arith, a₂.inside, length-others others name behind))))

compression-step :
    (bytes : List ℕ) (off : ℕ) (xs rest : List ℕ)
    → At bytes off (with_length8 xs rest)
    → (compression bytes off ≡ extension_block bytes (off + 1 + length xs))
      × At bytes (off + 1 + length xs) rest
unfolding compression
compression-step bytes off xs rest a =
    let room : ltb (length bytes) (off + 1) ≡ false = ground (arith, a.inside) in
    let e₀ = first a in (rw (room, e₀, read) refl, skip xs (skip (length xs ∷ []) a))

ciphers-step :
    (bytes : List ℕ) (off : ℕ) (xs rest : List ℕ)
    → At bytes off (with_length16 xs rest)
    → (ciphers bytes off ≡ compression bytes (off + 2 + length xs))
      × At bytes (off + 2 + length xs) rest
unfolding ciphers
ciphers-step bytes off xs rest a =
    let n : ℕ = length xs in
    let room : ltb (length bytes) (off + 2) ≡ false = ground (arith, a.inside) in
    let e₀ = first a in
    let e₁ = first (skip (n / 256 ∷ []) a) in
    (rw (room, e₀, e₁, read) (rw (u16_be16 n) refl), skip xs (skip (n / 256 ∷ n % 256 ∷ []) a))

session-step :
    (bytes : List ℕ) (off : ℕ) (vr xs rest : List ℕ)
    → length vr ≡ 34
    → At bytes off (vr ++ with_length8 xs rest)
    → (session bytes off ≡ ciphers bytes (off + 35 + length xs))
      × At bytes (off + 35 + length xs) rest
unfolding session
session-step bytes off vr xs rest l a =
    let room : ltb (length bytes) (off + 35) ≡ false =
      ground (arith, a.inside, l, length-append vr (with_length8 xs rest)) in
    let a' : At bytes (off + 34) (with_length8 xs rest) =
      subst (λ i. At bytes (off + i) (with_length8 xs rest)) l (skip vr a) in
    let e₀ = first a' in
    let next : off + 34 + 1 ≡ off + 35 = omega arith in
    (
      rw (room, e₀, read) refl,
      subst (λ i. At bytes (i + length xs) rest) next (skip xs (skip (length xs ∷ []) a')),
    )

-- The two headers before the message.
abbrev framed : ℕ → ℕ → ℕ → ℕ → List ℕ → List ℕ
framed n b b' b'' m = 0x16 ∷ 3 ∷ 1 ∷ be16 n ++ 1 ∷ b ∷ b' ∷ b'' ∷ m

extract_sni-framed :
    (n b b' b'' : ℕ) (m : List ℕ)
    → n ≡ 4 + length m
    → extract_sni (framed n b b' b'' m) ≡ session (framed n b b' b'' m) 9
unfolding extract_sni handshake
extract_sni-framed n b b' b'' m e =
    let bytes : List ℕ = framed n b b' b'' m in
    let long : ltb (length bytes) 5 ≡ false = ground arith in
    let whole : ltb (length bytes) (5 + n) ≡ false = ground (arith, e) in
    rw (long, u16_be16 n, whole) refl

framed-At : (n b b' b'' : ℕ) (m : List ℕ) → At (framed n b b' b'' m) 9 m
framed-At n b b' b'' m = record { there = refl; inside = omega arith }

-- The parser finds the server name of a ClientHello, behind whatever session identifier, cipher
-- suites, compression methods and other extensions, if version and random have their 34 bytes and
-- none of the extensions before it has the type 0.
pub extract_sni-encode :
    (h : Hello)
    → length h.version_random ≡ 34
    → All (λ x. x.kind ≢ 0) h.others
    → extract_sni (encode h) ≡ found h.name
extract_sni-encode h l ks =
    let bytes : List ℕ = encode h in
    let m : List ℕ = message h in
    let n : ℕ = length m in
    let a : At bytes 9 m = framed-At (4 + n) (n / 65536) _ _ m in
    let (s, a₁) = session-step bytes 9 h.version_random h.session_id _ l a in
    let (c, a₂) = ciphers-step bytes _ h.suites _ a₁ in
    let (d, a₃) = compression-step bytes _ h.compressions _ a₂ in
    extract_sni-framed (4 + n) (n / 65536) _ _ m refl
    ∙ s
    ∙ c
    ∙ d
    ∙ extension_block-found bytes _ h.others h.name h.behind ks a₃
