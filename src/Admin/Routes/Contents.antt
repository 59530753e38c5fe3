-- ===== src/Admin/Routes/Contents.antt =====
-- internal/admin/server.go: what the API promises, a list of backends, and that the pool of references
-- into the heap keeps the promise.
use gobalancer.Common.{
  ◌≡◌, refl, sym, ap, ◌∙◌, inl, inr, Option, none, some, List, [], ◌∷◌, ◌++◌, map, ◌>>=◌, ℤ, Str,
  lit,
}
use mathlib.Core.Path.{ap₂}
use mathlib.Core.List.{map-map}
use gobalancer.Backend.{Backend, Heap, Url, snapshot, new}
use gobalancer.Pool.{Pool, snapshots}
use gobalancer.Pool.Contents.{contents, Sound, without, weighed, removal, weighing, addition}
use gobalancer.Admin.{
  Server, AddRequest, listed, ok, created, accepted, no_content, bad_request, not_found,
  trim_prefix, trim_suffix, backends_path, handle_list, handle_add, add_new, handle_remove,
  handle_update_weight, set_found, handle_reload,
}
use gobalancer.Admin.Routes.{
  Route, lists, adds, removes, updates, reloads, moved, not_allowed, missing, route, AdminRequest,
  Answer, handled, refused, handle, serve, run, answered,
}

module _ (parse : Str → Option Url) (print : Url → Str) (decode_add : Str → Option AddRequest)
    (decode_weight : Str → Option ℤ) where
  added : Option Backend → List Backend → Answer × List Backend
  added none bs = (handled bad_request, bs)
  added (some b) bs = (handled (created (snapshot print b)), bs ++ b ∷ [])

  left : List Backend → Option (List Backend) → Answer × List Backend
  left bs none = (handled not_found, bs)
  left bs (some cs) = (handled no_content, cs)

  changed : List Backend → Option (Backend × List Backend) → Answer × List Backend
  changed bs none = (handled not_found, bs)
  changed bs (some (b, cs)) = (handled (ok (snapshot print b)), cs)

  reweighed : Str → Option ℤ → List Backend → Answer × List Backend
  unfolding weighed changed
  reweighed id none bs = (handled bad_request, bs)
  reweighed id (some w) bs = changed bs (weighed id w bs)

  abbrev pub requested : AddRequest → Option Backend
  unfolding new
  requested req = new parse req.id req.addr req.weight

  -- What the route of a request promises for a list of backends.
  promised : Route → Str → Str → List Backend → Answer × List Backend
  unfolding added left reweighed without trim_prefix trim_suffix snapshot
  promised lists path body bs = (handled (listed (map (snapshot print) bs)), bs)
  promised adds path body bs = added (decode_add body >>= requested) bs
  promised removes path body bs = left bs (without (trim_prefix path backends_path) bs)
  promised updates path body bs =
      reweighed (trim_suffix (trim_prefix path backends_path) (lit "/weight")) (decode_weight body)
        bs
  promised reloads path body bs = (handled accepted, bs)
  promised r path body bs = (refused r, bs)

  unfoldable pub promises : List AdminRequest → List Backend → List Answer × List Backend
  unfolding promised route
  promises [] bs = ([], bs)
  promises (r ∷ rs) bs =
      let (a, bs') = promised (route r.method r.path) r.path r.body bs in
      let rest = promises rs bs' in (a ∷ rest.0, rest.1)

  -- An answer is the promised one, and so is the list of backends behind it.
  Keeps : Answer × Server → Answer × List Backend → Type 0
  Keeps (a, s) (b, bs) = (a ≡ b) × (contents s.heap s.pool ≡ bs) × Sound s.heap s.pool

  snapshots_lem : (h : Heap) (p : Pool) → snapshots print h p ≡ map (snapshot print) (contents h p)
  unfolding snapshots
  snapshots_lem h p = sym (map-map (snapshot print) h.cell p.backends)

  add_new-Keeps :
      (b : Option Backend) (s : Server)
      → Sound s.heap s.pool
      → Keeps (answered (add_new parse print b s)) (added b (contents s.heap s.pool))
  unfolding add_new added Keeps
  add_new-Keeps none s o = (refl, refl, o)
  add_new-Keeps (some b) s o = let (e, o') = addition s.heap b s.pool o in (refl, e, o')

  handle_add-Keeps :
      (r : Option AddRequest) (s : Server)
      → Sound s.heap s.pool
      → Keeps
          (answered (handle_add parse print r s))
          (added (r >>= requested) (contents s.heap s.pool))
  unfolding handle_add added Keeps
  handle_add-Keeps none s o = (refl, refl, o)
  handle_add-Keeps (some r) s o = add_new-Keeps (requested r) s o

  handle_remove-Keeps :
      (path : Str) (s : Server)
      → Sound s.heap s.pool
      → Keeps (answered (handle_remove parse print path s)) (
          left
            (contents s.heap s.pool)
            (without (trim_prefix path backends_path) (contents s.heap s.pool)))
  unfolding handle_remove left Keeps
  handle_remove-Keeps path s o = elim (removal s.heap (trim_prefix path backends_path) s.pool o) [
    | inl (e, f) ↦ rw (e, f) (refl, refl, o)
    | inr (q, e, f, o') ↦ rw (e, f) (refl, refl, o')
  ]

  handle_update_weight-Keeps :
      (w : Option ℤ) (path : Str) (s : Server)
      → Sound s.heap s.pool
      → Keeps (answered (handle_update_weight parse print path w s)) (
          reweighed
            (trim_suffix (trim_prefix path backends_path) (lit "/weight"))
            w
            (contents s.heap s.pool))
  unfolding handle_update_weight set_found reweighed changed Keeps
  handle_update_weight-Keeps none path s o = (refl, refl, o)
  handle_update_weight-Keeps (some w) path s o =
      elim (weighing s.heap (trim_suffix (trim_prefix path backends_path) (lit "/weight")) w s.pool
        o) [ inl (e, f) ↦ rw (e, f) (refl, refl, o) | inr (r, e, f) ↦ rw (e, f) (refl, refl, o) ]

  handle-Keeps :
      (r : Route) (path body : Str) (s : Server)
      → Sound s.heap s.pool
      → Keeps
          (handle parse print decode_add decode_weight r path body s)
          (promised r path body (contents s.heap s.pool))
  unfolding handle promised Keeps handle_list handle_reload
  handle-Keeps lists path body s o =
      (ap (λ l. handled (listed l)) (snapshots_lem s.heap s.pool), refl, o)
  handle-Keeps adds path body s o = handle_add-Keeps (decode_add body) s o
  handle-Keeps removes path body s o = handle_remove-Keeps path s o
  handle-Keeps updates path body s o = handle_update_weight-Keeps (decode_weight body) path s o
  handle-Keeps reloads path body s o = (refl, refl, o)
  handle-Keeps moved path body s o = (refl, refl, o)
  handle-Keeps not_allowed path body s o = (refl, refl, o)
  handle-Keeps missing path body s o = (refl, refl, o)

  -- Whatever requests come in, the answers are those that are promised for the list of backends that the
  -- pool holds at the start, and the pool holds the list that is promised behind them, if its
  -- references are on the heap and none stands there twice. A removal takes the first backend with the
  -- identifier out at once, without a drain; an addition that is repeated adds a second backend; a
  -- reload is answered with 202 and changes nothing.
  pub run-promises :
      (rs : List AdminRequest) (s : Server)
      → Sound s.heap s.pool
      → (let (answers, s') = run parse print decode_add decode_weight rs s in
          (answers ≡ (promises rs (contents s.heap s.pool)).0)
          × (contents s'.heap s'.pool ≡ (promises rs (contents s.heap s.pool)).1))
  unfolding run serve promises Keeps
  run-promises [] s o = (refl, refl)
  run-promises (r ∷ rs) s o =
      let (a, m, o') = handle-Keeps (route r.method r.path) r.path r.body s o in
      let (answers, ms) = run-promises rs _ o' in
      (ap₂ ◌∷◌ a (answers ∙ ap (λ bs. (promises rs bs).0) m), ms ∙ ap (λ bs. (promises rs bs).1) m)
