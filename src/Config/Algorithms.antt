-- ===== src/Config/Algorithms.antt =====
-- config/config.go: what a configuration that is loaded promises to the rest of the program.
use gobalancer.Common.{
  ◌≡◌, refl, sym, ap, ◌∙◌, ◌≢◌, ◌↔◌, ◌⊎◌, inl, inr, Bool, true, none, some, List, [], ◌∷◌, arith,
  Str,
}
use gobalancer.Config.{
  Config, FieldError, Libraries, algorithms, one_of, config_tags, validate, checked, unmarshalled,
  read_in, load,
}
use gobalancer.Balancer.P2c.{Rand}
use gobalancer.Balancer.Factory.{new_selector}

-- The validator reads the tags.
abbrev pub ReadsTags : (Str → Bool) → Libraries → Type 0
ReadsTags is_url libraries =
    (cfg : Config) → libraries.struct cfg ≡ [] → config_tags is_url cfg ≡ true

inr_inj : {a b : Config} → ◌≡◌ {A = Str ⊎ Config} (inr a) (inr b) → a ≡ b
inr_inj e = cc (e)

module _ (libraries : Libraries) where
  checked-struct :
      (cfg cfg' : Config) → checked libraries cfg ≡ inr cfg' → libraries.struct cfg' ≡ []
  unfolding checked validate
  checked-struct cfg cfg' e = go (libraries.struct cfg) refl e
    where
      go :
          (es : List FieldError)
          → libraries.struct cfg ≡ es
          → elim (validate es) [ none ↦ inr cfg | some text ↦ inl text ] ≡ inr cfg'
          → libraries.struct cfg' ≡ []
      go [] k e = ap libraries.struct (sym (inr_inj e)) ∙ k
      go (x ∷ es) k e = absurd (cc (e))

  unmarshalled-struct :
      (c : Str ⊎ Config) (cfg : Config)
      → unmarshalled libraries c ≡ inr cfg
      → libraries.struct cfg ≡ []
  unfolding unmarshalled
  unmarshalled-struct (inl text) cfg e = absurd (cc (e))
  unmarshalled-struct (inr c) cfg e = checked-struct c cfg e

  read_in-struct :
      (s : Str ⊎ libraries.Settings) (cfg : Config)
      → read_in libraries s ≡ inr cfg
      → libraries.struct cfg ≡ []
  unfolding read_in
  read_in-struct (inl text) cfg e = absurd (cc (e))
  read_in-struct (inr settings) cfg e = unmarshalled-struct (libraries.unmarshal settings) cfg e

  -- What is loaded has passed the validator.
  pub load-struct :
      (path : Str) (cfg : Config) → load libraries path ≡ inr cfg → libraries.struct cfg ≡ []
  unfolding load
  load-struct path cfg e = read_in-struct (libraries.read_in_config path _) cfg e

-- The algorithms that a configuration may name are those that the factory makes a selector for.
pub new_selector-algorithms :
    (rand : Rand) (seeded : rand.State) (algorithm : Str)
    → (one_of algorithm algorithms ≡ true) ↔ (new_selector rand seeded algorithm ≢ none)
unfolding new_selector
new_selector-algorithms rand seeded algorithm = (λ h e. ground arith, λ n. ground (arith, n))
