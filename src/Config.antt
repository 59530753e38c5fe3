-- ===== src/Config.antt =====
-- config/config.go. Durations are nanoseconds; a finite `float64` is a fraction. viper and the
-- validator are parameters.
pub mod Algorithms
use gobalancer.Common.{
  ℕ, ◌+◌, ◌/◌, ◌⊎◌, inl, inr, Bool, true, false, not, ◌&&◌, ◌||◌, Option, none, some, List, [], ◌∷◌,
  ◌++◌, ℤ, pos, leb_ℤ, Str, lit, str_eq, is_empty,
}

pub record TlsConfig : Type 0 where
  pub cert_file : Str
  pub key_file : Str
  pub ca_file : Str
  pub passthrough : Bool
  pub mtls : Bool

pub record ServerConfig : Type 0 where
  pub addr : Str
  pub read_timeout : ℤ
  pub write_timeout : ℤ
  pub idle_timeout : ℤ
  pub tls : Option TlsConfig

pub record BackendConfig : Type 0 where
  pub id : Str
  pub addr : Str
  pub weight : ℤ

pub record Float : Type 0 where
  pub numerator : ℤ
  pub denominator : ℕ

pub record RouteConfig : Type 0 where
  pub path_prefix : Str
  pub host : Str
  pub headers : List (Str × Str)
  pub weight : Float
  pub shadow : Bool

pub record HealthConfig : Type 0 where
  pub interval : ℤ
  pub timeout : ℤ
  pub path : Str
  pub failure_threshold : ℤ
  pub success_threshold : ℤ
  pub mode : Str
  pub passive_window : ℤ
  pub passive_error_rate : Float

pub record PoolConfig : Type 0 where
  pub name : Str
  pub algorithm : Str
  pub backends : List BackendConfig
  pub routes : List RouteConfig
  pub health : HealthConfig

pub record AdminConfig : Type 0 where
  pub addr : Str

pub record MetricsConfig : Type 0 where
  pub enabled : Bool
  pub path : Str

pub record LoggingConfig : Type 0 where
  pub level : Str
  pub format : Str

pub record Config : Type 0 where
  pub server : ServerConfig
  pub pools : List PoolConfig
  pub admin : AdminConfig
  pub metrics : MetricsConfig
  pub logging : LoggingConfig

-- What the tags of the fields ask of a value; what `url` asks is a parameter.
abbrev pub required : Str → Bool
required s = not (is_empty s)

abbrev pub one_of : Str → List Str → Bool
one_of s [] = false
one_of s (x ∷ xs) = str_eq s x || one_of s xs

abbrev omitempty_one_of : Str → List Str → Bool
omitempty_one_of s xs = is_empty s || one_of s xs

abbrev pub every : {A : Type 0} → (A → Bool) → List A → Bool
every p [] = true
every p (x ∷ xs) = p x && every p xs

abbrev pub at_least_one : {A : Type 0} → List A → Bool
at_least_one [] = false
at_least_one (_ ∷ _) = true

abbrev from_0_to_1 : Float → Bool
from_0_to_1 x = leb_ℤ (pos 0) x.numerator && leb_ℤ x.numerator (pos x.denominator)

abbrev pub algorithms : List Str
algorithms =
    lit "round_robin"
    ∷ lit "weighted_round_robin"
    ∷ lit "least_connections"
    ∷ lit "ip_hash"
    ∷ lit "consistent_hash"
    ∷ lit "p2c"
    ∷ []

module _ (is_url : Str → Bool) where
  unfoldable pub backend_tags : BackendConfig → Bool
  backend_tags b = required b.id && (required b.addr && is_url b.addr) && leb_ℤ (pos 0) b.weight

  unfoldable pub health_tags : HealthConfig → Bool
  health_tags h =
      omitempty_one_of h.mode (lit "http" ∷ lit "tcp" ∷ lit "grpc" ∷ [])
      && from_0_to_1 h.passive_error_rate

  -- Without `dive`, the validator does not look at the routes.
  unfoldable pub pool_tags : PoolConfig → Bool
  unfolding str_eq backend_tags health_tags
  pool_tags p =
      required p.name
      && (required p.algorithm && one_of p.algorithm algorithms)
      && (at_least_one p.backends && every backend_tags p.backends)
      && health_tags p.health

  unfoldable pub tls_tags : Option TlsConfig → Bool
  tls_tags none = true
  tls_tags (some t) = required t.cert_file && required t.key_file

  unfoldable pub logging_tags : LoggingConfig → Bool
  logging_tags l =
      omitempty_one_of l.level (lit "debug" ∷ lit "info" ∷ lit "warn" ∷ lit "error" ∷ [])
      && omitempty_one_of l.format (lit "json" ∷ lit "text" ∷ [])

  unfoldable pub config_tags : Config → Bool
  unfolding pool_tags tls_tags logging_tags
  config_tags cfg =
      (required cfg.server.addr && tls_tags cfg.server.tls)
      && (at_least_one cfg.pools && every pool_tags cfg.pools)
      && logging_tags cfg.logging

-- The keys of viper and their defaults, in the words of the code.
unfoldable pub defaults : List (Str × Str)
defaults =
    (lit "server.addr", lit ":8080")
    ∷ (lit "server.read_timeout", lit "30s")
    ∷ (lit "server.write_timeout", lit "30s")
    ∷ (lit "server.idle_timeout", lit "120s")
    ∷ (lit "admin.addr", lit ":9001")
    ∷ (lit "metrics.enabled", lit "true")
    ∷ (lit "metrics.path", lit "/metrics")
    ∷ (lit "logging.level", lit "info")
    ∷ (lit "logging.format", lit "json")
    ∷ []

-- A field that a validator refuses, and the tag.
pub record FieldError : Type 0 where
  pub field : Str
  pub tag : Str

-- `ReadInConfig` with the defaults, `Unmarshal`, and the validator's `Struct`; a left side is an error's
-- text.
pub record Libraries : Type 1 where
  pub Settings : Type 0
  pub read_in_config : (path : Str) → (defaults : List (Str × Str)) → Str ⊎ Settings
  pub unmarshal : Settings → Str ⊎ Config
  pub struct : Config → List FieldError

abbrev error_text : FieldError → Str
error_text e = lit "field " ++ e.field ++ lit ": " ++ e.tag

-- `strings.Join(errs, "; ")`
abbrev join_texts : List FieldError → Str
join_texts [] = []
join_texts (e ∷ []) = error_text e
join_texts (e ∷ f ∷ es) = error_text e ++ lit "; " ++ join_texts (f ∷ es)

-- `none` is `nil`.
unfoldable pub validate : List FieldError → Option Str
validate [] = none
validate (e ∷ es) = some (lit "config validation failed: " ++ join_texts (e ∷ es))

module _ (libraries : Libraries) where
  unfoldable pub checked : Config → Str ⊎ Config
  unfolding validate
  checked cfg = elim (validate (libraries.struct cfg)) [ none ↦ inr cfg | some text ↦ inl text ]

  unfoldable pub unmarshalled : Str ⊎ Config → Str ⊎ Config
  unfolding checked
  unmarshalled (inl text) = inl (lit "unmarshal config: " ++ text)
  unmarshalled (inr cfg) = checked cfg

  unfoldable pub read_in : Str ⊎ libraries.Settings → Str ⊎ Config
  unfolding unmarshalled
  read_in (inl text) = inl (lit "read config: " ++ text)
  read_in (inr settings) = unmarshalled (libraries.unmarshal settings)

  unfoldable pub load : Str → Str ⊎ Config
  unfolding read_in defaults
  load path = read_in (libraries.read_in_config path defaults)
