-- ===== src/Tls/Mtls.antt =====
-- internal/tls/mtls.go: `MTLSConfig`; what its three calls return is an argument.
use gobalancer.Common.{
  ℕ, ◌≡◌, refl, ◌≢◌, ◌⊎◌, inl, inr, Bool, true, false, Option, none, some, List, [], ◌∷◌, ◌++◌,
  if◌then◌else◌, Str, lit,
}
use gobalancer.Tls.Termination.{Certificate}

pub record MtlsConfig : Type 0 where
  pub certificates : List Certificate
  pub client_cas : List Certificate
  pub require_and_verify : Bool
  pub min_version : ℕ

-- `AppendCertsFromPEM`: whether the file held a certificate; the pool has those that it held.
abbrev appended : List Certificate → Bool
appended [] = false
appended (_ ∷ _) = true

unfoldable pub with_ca : Str → Certificate → List Certificate → Str ⊎ MtlsConfig
with_ca ca_file cert cas =
    if appended cas
    then inr (record {
      certificates = cert ∷ [];
      client_cas = cas;
      require_and_verify = true;
      min_version = 771;
    })
    else inl (lit "no valid CA certs found in " ++ ca_file)

-- The key pair, the file of the authorities and the certificates that it holds, `none` for an error.
unfoldable pub mtls_config : Str → Option Certificate → Option (List Certificate) → Str ⊎ MtlsConfig
unfolding with_ca
mtls_config ca_file none pem = inl (lit "load server cert")
mtls_config ca_file (some cert) none = inl (lit "read CA file")
mtls_config ca_file (some cert) (some cas) = with_ca ca_file cert cas

-- A configuration that is returned asks for a client's certificate and verifies it, against at least
-- one authority.
pub mtls_config-verifies :
    (ca_file : Str) (cert : Option Certificate) (pem : Option (List Certificate)) (c : MtlsConfig)
    → mtls_config ca_file cert pem ≡ inr c
    → (c.require_and_verify ≡ true) × (c.client_cas ≢ []) × (some c.client_cas ≡ pem)
unfolding mtls_config with_ca
mtls_config-verifies ca_file none pem c e = absurd (cc (e))
mtls_config-verifies ca_file (some cert) none c e = absurd (cc (e))
mtls_config-verifies ca_file (some cert) (some []) c e = absurd (cc (e))
mtls_config-verifies ca_file (some cert) (some (x ∷ cas)) c e =
    let made : record {
      certificates = cert ∷ [];
      client_cas = x ∷ cas;
      require_and_verify = true;
      min_version = 771;
    }
        ≡ c =
      cc (e) in
    rw⁻¹ made (refl, λ n. cc (n), refl)
