-- ===== src/Tls/Sni/Hello.antt =====
-- A ClientHello as a client writes it, for the round trip through `extractSNI` of
-- internal/tls/passthrough.go. The entries are bytes where the parts fit their length fields.
pub mod Decode
use gobalancer.Common.{ℕ, ◌+◌, ◌/◌, ◌%◌, List, [], ◌∷◌, ◌++◌, length, Str}

-- Two bytes of a length or a type, the higher first.
abbrev pub be16 : ℕ → List ℕ
be16 n = n / 256 ∷ n % 256 ∷ []

-- An extension: its type and its body.
pub record Extension : Type 0 where
  pub kind : ℕ
  pub body : List ℕ

-- The parts of a ClientHello; `others` are the extensions before the server name.
pub record Hello : Type 0 where
  pub version_random : List ℕ
  pub session_id : List ℕ
  pub suites : List ℕ
  pub compressions : List ℕ
  pub others : List Extension
  pub name : Str
  pub behind : List ℕ

abbrev pub encode_sni : Str → List ℕ → List ℕ
encode_sni name behind =
    0 ∷ 0 ∷ be16 (5 + length name)
    ++ be16 (3 + length name)
    ++ 0 ∷ be16 (length name)
    ++ name
    ++ behind

abbrev pub encode_extensions : List Extension → Str → List ℕ → List ℕ
encode_extensions [] name behind = encode_sni name behind
encode_extensions (x ∷ xs) name behind =
    be16 x.kind ++ be16 (length x.body) ++ x.body ++ encode_extensions xs name behind

abbrev pub with_length8 : List ℕ → List ℕ → List ℕ
with_length8 xs rest = length xs ∷ xs ++ rest

abbrev pub with_length16 : List ℕ → List ℕ → List ℕ
with_length16 xs rest = be16 (length xs) ++ xs ++ rest

abbrev pub extension_part : Hello → List ℕ
extension_part h = encode_extensions h.others h.name h.behind

-- The handshake message, its length in three bytes.
abbrev pub message : Hello → List ℕ
message h =
    h.version_random
    ++ with_length8 h.session_id (
        with_length16 h.suites
          (with_length8 h.compressions (be16 (length (extension_part h)) ++ extension_part h)))

abbrev pub encode : Hello → List ℕ
encode h =
    let m = message h in
    0x16 ∷ 3 ∷ 1 ∷ be16 (4 + length m) ++ 1 ∷ length m / 65536 ∷ be16 (length m % 65536) ++ m
