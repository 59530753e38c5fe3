-- ===== src/Admin/Reload.antt =====
-- internal/admin/reload.go. The pointer is swapped at once, so that it is the configuration itself.
use gobalancer.Config.{Config, Libraries, load, config_tags}
use gobalancer.Config.Algorithms.{ReadsTags, load-struct}
use gobalancer.Common.{◌≡◌, refl, ap, ◌⊎◌, inl, inr, Bool, true, Option, none, some, Str}

pub record ConfigReloader : Type 0 where
  pub config : Config

unfoldable pub store : Config → ConfigReloader → ConfigReloader
store cfg r = record r { config = cfg }

unfoldable pub new_config_reloader : Config → ConfigReloader
new_config_reloader initial = record { config = initial }

unfoldable pub load_config : ConfigReloader → Config
load_config r = r.config

unfoldable pub swap : Str ⊎ Config → ConfigReloader → Option Str × ConfigReloader
unfolding store
swap (inl err) r = (some err, r)
swap (inr cfg) r = (none, store cfg r)

-- The error, `none` for nil.
unfoldable pub reload : Libraries → Str → ConfigReloader → Option Str × ConfigReloader
unfolding swap load
reload libraries path r = swap (load libraries path) r

swap-reload :
    (result : Str ⊎ Config) (r : ConfigReloader)
    → ((err : Str) × (result ≡ inl err) × (swap result r ≡ (some err, r)))
      ⊎ ((cfg : Config) × (result ≡ inr cfg) × (swap result r ≡ (none, record { config = cfg })))
unfolding swap store
swap-reload (inl err) r = inl (err, refl, refl)
swap-reload (inr cfg) r = inr (cfg, refl, refl)

-- With a validator that reads the tags: where the configuration under the path cannot be loaded, a reload fails with
-- that error and leaves the configuration as it was; where it can, the reload succeeds and puts the one
-- that was loaded in its place, which is the one that `Load` then gives, and has what its tags ask.
pub reload-config_tags :
    (is_url : Str → Bool) (libraries : Libraries) (path : Str) (r : ConfigReloader)
    → ReadsTags is_url libraries
    → ((err : Str) × (load libraries path ≡ inl err) × (reload libraries path r ≡ (some err, r)))
      ⊎ ((cfg : Config) × (load libraries path ≡ inr cfg)
          × (reload libraries path r ≡ (none, new_config_reloader cfg))
          × (load_config (reload libraries path r).1 ≡ cfg)
          × (config_tags is_url cfg ≡ true))
unfolding reload new_config_reloader load_config
reload-config_tags is_url libraries path r reads = elim (swap-reload (load libraries path) r) [
  | inl (err, failed, e) ↦ inl (err, failed, e)
  | inr (cfg, loaded, e) ↦
      inr
        (cfg, loaded, e, ap (λ x. x.1.config) e, reads cfg (load-struct libraries path cfg loaded))
]
