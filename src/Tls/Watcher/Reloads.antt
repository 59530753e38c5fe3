-- ===== src/Tls/Watcher/Reloads.antt =====
-- internal/tls/watcher.go and termination.go: the certificate that connections get.
use mathlib.Core.Option
use gobalancer.Common.{
  ◌≡◌, refl, ap, ◌∙◌, inr, Bool, true, false, ◌&&◌, ◌||◌, Option, none, some, List, [], ◌∷◌,
  if◌then◌else◌, Str,
}
use gobalancer.Tls.Termination.{
  Certificate, TerminationListener, new_termination_listener, store_cert, reload_cert, accept,
  served,
}
use gobalancer.Tls.Watcher.{
  Event, changed, watcher_error, events_closed, errors_closed, cancelled, loop, CertReloader, watch,
}

-- The certificates that were loaded while the loop ran, in order.
pub loads : List Event → List Certificate
loads [] = []
loads (changed op none ∷ es) = loads es
loads (changed op (some cert) ∷ es) =
    let rest = loads es in if op.write || op.create then cert ∷ rest else rest
loads (watcher_error ∷ es) = loads es
loads (events_closed ∷ es) = []
loads (errors_closed ∷ es) = []
loads (cancelled ∷ es) = []

pub last_of : {A : Type 0} → Option A → List A → Option A
last_of o [] = o
last_of o (x ∷ xs) = last_of (some x) xs

reload_failed :
    (b : Bool) (tl : TerminationListener) (certs : List Certificate)
    → last_of (served (if b then (reload_cert none tl).1 else tl).cfg) certs
      ≡ last_of (served tl.cfg) certs
unfolding reload_cert
reload_failed true tl certs = refl
reload_failed false tl certs = refl

reloaded :
    (b : Bool) (cert : Certificate) (tl : TerminationListener) (certs : List Certificate)
    → last_of (served (if b then (reload_cert (some cert) tl).1 else tl).cfg) certs
      ≡ last_of (served tl.cfg) (if b then cert ∷ certs else certs)
unfolding reload_cert last_of
reloaded true cert tl certs = refl
reloaded false cert tl certs = refl

-- Whatever happens to the files, a connection gets the certificate that was loaded last; a reload that fails
-- changes nothing; with no reload the connection gets what it got before, which from a new listener is
-- no certificate at all.
pub loop-last_of :
    (es : List Event) (tl : TerminationListener)
    → served (loop es tl).1.cfg ≡ last_of (served tl.cfg) (loads es)
unfolding loop reload_cert loads last_of
loop-last_of [] tl = refl
loop-last_of (changed op none ∷ es) tl =
    loop-last_of es _ ∙ reload_failed (op.write || op.create) tl (loads es)
loop-last_of (changed op (some cert) ∷ es) tl =
    loop-last_of es _ ∙ reloaded (op.write || op.create) cert tl (loads es)
loop-last_of (watcher_error ∷ es) tl = loop-last_of es tl
loop-last_of (events_closed ∷ es) tl = refl
loop-last_of (errors_closed ∷ es) tl = refl
loop-last_of (cancelled ∷ es) tl = refl

-- From a new listener, a watcher that starts: a connection gets the certificate that was loaded last since
-- then, and none at all before the first reload that succeeds, the one that the listener was
-- made with included.
pub served-watch :
    (cert : Certificate) (tl : TerminationListener) (cr : CertReloader) (add : Str → Bool)
    (es : List Event)
    → new_termination_listener (some cert) ≡ inr tl
    → (add cr.cert_file && add cr.key_file) ≡ true
    → Option.map served (accept false (watch true add cr es tl).1) ≡ some (last_of none (loads es))
unfolding new_termination_listener store_cert accept watch
served-watch cert tl cr add es e a =
    let made : tl.cfg ≡ store_cert cert = cc (e) in
    rw a (ap some (loop-last_of es tl ∙ rw made refl))
