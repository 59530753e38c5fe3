-- ===== src/Tls/Termination.antt =====
-- internal/tls/termination.go. `LoadX509KeyPair` is what it returned at that call: `none` is its error.
use gobalancer.Common.{
  ℕ, ◌⊎◌, inl, inr, Bool, Option, none, some, List, [], ◌∷◌, if◌then◌else◌, get_elem?, Str, lit,
}

-- The name of a certificate with its key.
abbrev pub Certificate : Type 0
Certificate = Str

-- Where a handshake gets its certificate: the list `Certificates`, or the closure of `storeCert`, which
-- reads the listener's pointer to a `tls.Config` as one to a `tls.Certificate`.
pub data Source : Type 0 where
  certificates : List Certificate → Source
  reads_config_pointer : Source

pub record TlsConfig : Type 0 where
  pub source : Source
  pub min_version : ℕ

pub record TerminationListener : Type 0 where
  pub cfg : TlsConfig

-- 0x0303
abbrev version_tls12 : ℕ
version_tls12 = 771

-- The certificate is dropped.
unfoldable pub store_cert : Certificate → TlsConfig
store_cert cert = record { source = reads_config_pointer; min_version = version_tls12 }

unfoldable pub new_termination_listener : Option Certificate → Str ⊎ TerminationListener
unfolding store_cert
new_termination_listener none = inl (lit "load cert/key")
new_termination_listener (some cert) = inr (record { cfg = store_cert cert })

-- The error, `none` for nil.
unfoldable pub reload_cert :
    Option Certificate → TerminationListener → Option Str × TerminationListener
reload_cert none tl = (some (lit "reload cert"), tl)
reload_cert (some cert) tl = (
  none,
  record { cfg = record { source = certificates (cert ∷ []); min_version = version_tls12 } },
)

-- `Accept`: `none` is the error of the listener inside, else the configuration of the connection.
unfoldable pub accept : Bool → TerminationListener → Option TlsConfig
accept failed tl = if failed then none else some tl.cfg

-- The certificate that a handshake finds: `none` where the source is no certificate.
abbrev pub served : TlsConfig → Option Certificate
served c = elim c.source [ certificates certs ↦ get_elem? certs 0 | reads_config_pointer ↦ none ]
