-- ===== src/Examples/Serving.antt =====
-- TLS records and headers.
use gobalancer.Common.{
  ℕ, ◌≡◌, refl, ◌⊎◌, List, [], ◌∷◌, ◌++◌, arith, if◌then◌else◌, replicate, lit, str_eq,
}
use gobalancer.Tls.Sni.{found, panic, extract_sni}
use gobalancer.Tls.Sni.Safety.{Ends, IsBareHeader, extract_sni_total}
use gobalancer.Tls.Sni.Hello.{Hello, encode}
use gobalancer.Tls.Sni.Hello.Decode.{extract_sni-encode}
use gobalancer.Tls.Peek.{BufConn, buf_reads, to_come, buf_reads_lossless}
use gobalancer.Http.{canonical, header_get, header_set, header_get-header_set}

extract_sni_total_example :
    (Ends (extract_sni (0x16 ∷ 3 ∷ 1 ∷ 0 ∷ 0 ∷ [])) × ¬ IsBareHeader (0x16 ∷ 3 ∷ 1 ∷ 0 ∷ 0 ∷ []))
    ⊎ ((extract_sni (0x16 ∷ 3 ∷ 1 ∷ 0 ∷ 0 ∷ []) ≡ panic) × IsBareHeader (0x16 ∷ 3 ∷ 1 ∷ 0 ∷ 0 ∷ []))
extract_sni_total_example = extract_sni_total (0x16 ∷ 3 ∷ 1 ∷ 0 ∷ 0 ∷ [])

-- A ClientHello with one cipher suite and the extension that names the host.
abbrev client_hello : List ℕ
client_hello =
    0x16 ∷ 3 ∷ 1 ∷ 0 ∷ 59 ∷ 1 ∷ 0 ∷ 0 ∷ 55 ∷ 3 ∷ 3 ∷ replicate 32 7
    ++ 0 ∷ 0 ∷ 2 ∷ 0x13 ∷ 1 ∷ 1 ∷ 0 ∷ 0 ∷ 12 ∷ 0 ∷ 0 ∷ 0 ∷ 8 ∷ 0 ∷ 6 ∷ 0 ∷ 0 ∷ 3 ∷ lit "a.b"

host_found : extract_sni client_hello ≡ found (lit "a.b")
unfolding extract_sni
host_found = refl

abbrev replayed : BufConn
replayed = record { replay = 1 ∷ 2 ∷ 3 ∷ []; conn = 4 ∷ 5 ∷ [] }

buf_reads_lossless_example :
    (buf_reads ((2, 9) ∷ (2, 9) ∷ (7, 1) ∷ []) replayed).0
      ++ to_come (buf_reads ((2, 9) ∷ (2, 9) ∷ (7, 1) ∷ []) replayed).1
    ≡ to_come replayed
buf_reads_lossless_example = buf_reads_lossless ((2, 9) ∷ (2, 9) ∷ (7, 1) ∷ []) replayed

header_get-header_set_example : header_get (header_set [] (lit "x-a") (lit "1")) (lit "X-A") ≡ (
    if str_eq (canonical (lit "x-a")) (canonical (lit "X-A"))
    then lit "1"
    else header_get [] (lit "X-A"))
header_get-header_set_example = header_get-header_set [] (lit "X-A") (lit "x-a") (lit "1")

abbrev hello : Hello
hello = record {
  version_random = replicate 34 7;
  session_id = 1 ∷ 2 ∷ [];
  suites = 0x13 ∷ 1 ∷ [];
  compressions = 0 ∷ [];
  others = (record { kind = 43; body = 2 ∷ 3 ∷ 4 ∷ [] }) ∷ [];
  name = lit "example.com";
  behind = [];
}

extract_sni-encode_example : extract_sni (encode hello) ≡ found (lit "example.com")
extract_sni-encode_example = extract_sni-encode hello refl ((λ e. absurd (omega (arith, e))), tt)
