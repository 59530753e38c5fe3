-- ===== src/Tls/Watcher.antt =====
-- internal/tls/watcher.go, with `ReloadCert` as the function that it calls. An event comes with what
-- the key pair's files hold then.
pub mod Reloads
use gobalancer.Common.{Bool, true, false, ◌&&◌, ◌||◌, Option, List, [], ◌∷◌, if◌then◌else◌, Str}
use gobalancer.Tls.Termination.{Certificate, TerminationListener, reload_cert}

-- The flags that are read of an event of fsnotify.
pub record Op : Type 0 where
  pub write : Bool
  pub create : Bool

pub data Event : Type 0 where
  changed : Op → Option Certificate → Event
  watcher_error : Event
  events_closed : Event
  errors_closed : Event
  cancelled : Event

-- The two files to watch.
pub record CertReloader : Type 0 where
  pub cert_file : Str
  pub key_file : Str

unfoldable pub new_cert_reloader : Str → Str → CertReloader
new_cert_reloader cert_file key_file = record { cert_file = cert_file; key_file = key_file }

-- The loop: where it has returned, and the listener.
unfoldable pub loop : List Event → TerminationListener → Bool × TerminationListener
unfolding reload_cert
loop [] tl = (false, tl)
loop (changed op loaded ∷ es) tl =
    loop es (if op.write || op.create then (reload_cert loaded tl).1 else tl)
loop (watcher_error ∷ es) tl = loop es tl
loop (events_closed ∷ es) tl = (true, tl)
loop (errors_closed ∷ es) tl = (true, tl)
loop (cancelled ∷ es) tl = (true, tl)

-- `Watch`: whether `NewWatcher` and `Add` of a file succeed.
unfoldable pub watch :
    Bool
    → (Str → Bool)
    → CertReloader
    → List Event
    → TerminationListener
    → Bool × TerminationListener
unfolding loop
watch watcher add cr es tl =
    let rest = loop es tl in
    if watcher && add cr.cert_file && add cr.key_file then rest else (true, tl)
