-- ===== src/Tls/Sni/Safety.antt =====
-- On which records `extractSNI` ends, and on which it panics.
use gobalancer.Common.{
  ℕ, zero, suc, ◌+◌, ◌-◌, ◌≤◌, ◌<◌, ◌≡◌, refl, ◌⊎◌, inl, inr, Bool, true, false, not, ◌&&◌, List,
  [], ◌∷◌, arith, ltb, leb, ◌==◌, if◌then◌else◌, Bool-cases, length, get_elem?_total, Str,
}
use gobalancer.Tls.Sni.{
  Parsed, found, panic, read, u16, server_name, extension, extensions, extension_block, compression,
  ciphers, session, handshake, extract_sni,
}

-- The parser ended with a name, or none.
abbrev pub Ends : Parsed → Type 0
Ends p = (s : Str) × (p ≡ found s)

read-Ends :
    (bytes : List ℕ) (i : ℕ) (k : ℕ → Parsed)
    → i < length bytes
    → ((c : ℕ) → Ends (k c))
    → Ends (read bytes i k)
read-Ends bytes i k h f = let (c, e) = get_elem?_total bytes i h in rw (e, read) (f c)

if-Ends :
    (b : Bool) (p q : Parsed)
    → (b ≡ true → Ends p)
    → (b ≡ false → Ends q)
    → Ends (if b then p else q)
if-Ends true p q f g = f refl
if-Ends false p q f g = g refl

server_name-Ends :
    (bytes : List ℕ) (off n : ℕ) (rest : Parsed)
    → off + n ≤ length bytes
    → Ends rest
    → Ends (server_name bytes off n rest)
unfolding server_name
server_name-Ends bytes off n rest h e =
    if-Ends (ltb n 5) _ _ (λ _. ([], refl))
      λ long. read-Ends bytes (off + 3) _ (ground (arith, long)) λ hi.
        read-Ends bytes (off + 4) _ (ground (arith, long))
          λ lo. if-Ends (leb (off + 5 + u16 hi lo) (length bytes)) _ _ (λ _. (_, refl)) (λ _. e)

extension-Ends :
    (bytes : List ℕ) (off t n : ℕ) (rest : Parsed) → Ends rest → Ends (extension bytes off t n rest)
unfolding extension
extension-Ends bytes off t n rest e =
    if-Ends (t == 0 && leb (off + n) (length bytes)) _ _
      (λ fits. server_name-Ends bytes off n rest (ground (arith, fits)) e) (λ _. e)

-- The fuel covers the bytes that are left.
extensions-Ends :
    (fuel : ℕ) (bytes : List ℕ) (off end : ℕ)
    → length bytes - off < fuel
    → Ends (extensions fuel bytes off end)
unfolding extensions
extensions-Ends zero bytes off end h = absurd (omega arith)
extensions-Ends (suc fuel) bytes off end h =
    if-Ends (not (leb (off + 4) end && leb (off + 4) (length bytes))) _ _ (λ _. ([], refl))
      λ more.
        let room : off + 4 ≤ length bytes = ground (arith, more) in
        read-Ends bytes off _ (omega arith) λ t. read-Ends bytes (off + 1) _ (omega arith) λ t'.
          read-Ends bytes (off + 2) _ (omega arith) λ n.
            read-Ends bytes (off + 3) _ (omega arith) λ n'.
              extension-Ends bytes (off + 4) (u16 t t') (u16 n n') _
                (extensions-Ends fuel bytes (off + 4 + u16 n n') end (omega arith))

extension_block-Ends : (bytes : List ℕ) (off : ℕ) → Ends (extension_block bytes off)
unfolding extension_block
extension_block-Ends bytes off =
    if-Ends (ltb (length bytes) (off + 2)) _ _ (λ _. ([], refl))
      λ fits. read-Ends bytes off _ (ground (arith, fits)) λ hi.
        read-Ends bytes (off + 1) _ (ground (arith, fits))
          λ lo. extensions-Ends (suc (length bytes)) bytes (off + 2) _ (omega arith)

compression-Ends : (bytes : List ℕ) (off : ℕ) → Ends (compression bytes off)
unfolding compression
compression-Ends bytes off =
    if-Ends (ltb (length bytes) (off + 1)) _ _ (λ _. ([], refl))
      λ fits.
        read-Ends bytes off _ (ground (arith, fits)) λ n. extension_block-Ends bytes (off + 1 + n)

ciphers-Ends : (bytes : List ℕ) (off : ℕ) → Ends (ciphers bytes off)
unfolding ciphers
ciphers-Ends bytes off =
    if-Ends (ltb (length bytes) (off + 2)) _ _ (λ _. ([], refl))
      λ fits. read-Ends bytes off _ (ground (arith, fits)) λ hi.
        read-Ends bytes (off + 1) _ (ground (arith, fits))
          λ lo. compression-Ends bytes (off + 2 + u16 hi lo)

session-Ends : (bytes : List ℕ) (off : ℕ) → Ends (session bytes off)
unfolding session
session-Ends bytes off =
    if-Ends (ltb (length bytes) (off + 35)) _ _ (λ _. ([], refl))
      λ fits.
        read-Ends bytes (off + 34) _ (ground (arith, fits)) λ n. ciphers-Ends bytes (off + 35 + n)

handshake-Ends : (bytes : List ℕ) → 5 < length bytes → Ends (handshake bytes)
unfolding handshake
handshake-Ends bytes h =
    read-Ends bytes 5 _ h λ t. if-Ends (t == 0x01) _ _ (λ _. session-Ends bytes 9) (λ _. ([], refl))

-- A record of five bytes that announces a handshake of no length.
abbrev pub IsBareHeader : List ℕ → Type 0
IsBareHeader bytes = (v v' : ℕ) × (bytes ≡ 0x16 ∷ v ∷ v' ∷ 0 ∷ 0 ∷ [])

long-Ends :
    (t v v' hi lo c : ℕ) (bytes : List ℕ) → Ends (extract_sni (t ∷ v ∷ v' ∷ hi ∷ lo ∷ c ∷ bytes))
unfolding extract_sni
long-Ends t v v' hi lo c bytes =
    let all = t ∷ v ∷ v' ∷ hi ∷ lo ∷ c ∷ bytes in
    if-Ends (ltb (length all) 5) _ _ (λ _. ([], refl))
      λ _.
        if-Ends (not (t == 0x16)) _ _ (λ _. ([], refl))
          λ _.
            if-Ends (ltb (length all) (5 + u16 hi lo)) _ _ (λ _. ([], refl))
              λ _. handshake-Ends all (omega arith)

header-Ends :
    (t v v' hi lo : ℕ)
    → let bytes = t ∷ v ∷ v' ∷ hi ∷ lo ∷ [] in
      (Ends (extract_sni bytes) × ¬ IsBareHeader bytes)
      ⊎ ((extract_sni bytes ≡ panic) × IsBareHeader bytes)
unfolding extract_sni
header-Ends t v v' hi lo = elim (Bool-cases (t == 0x16)) [
  | inr n ↦ inl (([], rw n), λ p. ground (arith, p.2, n))
  | inl y ↦ elim (Bool-cases (ltb 5 (5 + u16 hi lo))) [
    | inl z ↦ inl (([], rw (y, z)), λ p. ground (arith, p.2, z))
    | inr z ↦ inr (rw (y, z), (v, v', ground (arith, y, z)))
  ]
]

-- On every input the parser ends, with a name or none, but for one kind: a bare header, which it
-- answers with an index out of range.
pub extract_sni_total :
    (bytes : List ℕ)
    → (Ends (extract_sni bytes) × ¬ IsBareHeader bytes)
      ⊎ ((extract_sni bytes ≡ panic) × IsBareHeader bytes)
unfolding extract_sni
extract_sni_total [] = inl (([], refl), λ p. cc (p.2))
extract_sni_total (t ∷ []) = inl (([], refl), λ p. cc (p.2))
extract_sni_total (t ∷ v ∷ []) = inl (([], refl), λ p. cc (p.2))
extract_sni_total (t ∷ v ∷ v' ∷ []) = inl (([], refl), λ p. cc (p.2))
extract_sni_total (t ∷ v ∷ v' ∷ hi ∷ []) = inl (([], refl), λ p. cc (p.2))
extract_sni_total (t ∷ v ∷ v' ∷ hi ∷ lo ∷ []) = header-Ends t v v' hi lo
extract_sni_total (t ∷ v ∷ v' ∷ hi ∷ lo ∷ c ∷ bytes) =
    inl (long-Ends t v v' hi lo c bytes, λ p. cc (p.2))
