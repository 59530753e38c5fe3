-- ===== src/Admin.antt =====
-- internal/admin/server.go: the handlers. A body comes decoded; `none` is an error of the decoder.
pub mod Members
pub mod Drain
pub mod Reload
pub mod Routes
use gobalancer.Common.{
  ◌/◌, Option, none, some, List, [], ◌∷◌, map, reverse, ◌==◌, if◌then◌else◌, ℤ, Str, lit,
}
use mathlib.Core.Option
use gobalancer.Backend.{Backend, Heap, Ref, Url, Snapshot, snapshot, new, alloc, store}
use gobalancer.Pool.{Pool, add, remove_backend, get, snapshots}

pub record Server : Type 0 where
  pub heap : Heap
  pub pool : Pool

pub record AddRequest : Type 0 where
  pub id : Str
  pub addr : Str
  pub weight : ℤ

-- The answers, by their status.
pub data Response : Type 0 where
  listed : List Snapshot → Response
  ok : Snapshot → Response
  created : Snapshot → Response
  accepted : Response
  no_content : Response
  bad_request : Response
  not_found : Response

-- `strings.TrimPrefix` and `strings.TrimSuffix`
abbrev or_all : Str → Option Str → Str
or_all s none = s
or_all s (some t) = t

without_prefix : Str → Str → Option Str
without_prefix [] s = some s
without_prefix (p ∷ ps) [] = none
without_prefix (p ∷ ps) (c ∷ s) = if p == c then without_prefix ps s else none

unfoldable pub trim_prefix : Str → Str → Str
unfolding without_prefix
trim_prefix s prefix = or_all s (without_prefix prefix s)

unfoldable pub trim_suffix : Str → Str → Str
unfolding without_prefix
trim_suffix s suffix = or_all s (Option.map reverse (without_prefix (reverse suffix) (reverse s)))

abbrev pub backends_path : Str
backends_path = lit "/admin/backends/"

-- `parse` is `url.Parse`, `print` is `URL.String`.
module _ (parse : Str → Option Url) (print : Url → Str) where
  unfoldable pub handle_list : Server → Response
  unfolding snapshots
  handle_list s = listed (snapshots print s.heap s.pool)

  unfoldable pub add_new : Option Backend → Server → Response × Server
  unfolding alloc add snapshot
  add_new none s = (bad_request, s)
  add_new (some b) s =
      let (r, h) = alloc s.heap b in
      (created (snapshot print b), record { heap = h; pool = add s.pool r })

  unfoldable pub handle_add : Option AddRequest → Server → Response × Server
  unfolding add_new new
  handle_add none s = (bad_request, s)
  handle_add (some req) s = add_new (new parse req.id req.addr req.weight) s

  abbrev with_pool : Server → Option Pool → Response × Server
  with_pool s none = (not_found, s)
  with_pool s (some p) = (no_content, record s { pool = p })

  unfoldable pub handle_remove : Str → Server → Response × Server
  unfolding trim_prefix remove_backend
  handle_remove path s = with_pool s (remove_backend s.heap s.pool (trim_prefix path backends_path))

  unfoldable pub set_found : ℤ → Option Ref → Server → Response × Server
  unfolding snapshot
  set_found weight none s = (not_found, s)
  set_found weight (some r) s =
      let b : Backend = record (s.heap.cell r) { weight = weight } in
      (ok (snapshot print b), record s { heap = store s.heap r b })

  -- `b.Weight = req.Weight`, with no bound on the weight.
  unfoldable pub handle_update_weight : Str → Option ℤ → Server → Response × Server
  unfolding set_found trim_prefix trim_suffix get
  handle_update_weight path none s = (bad_request, s)
  handle_update_weight path (some weight) s =
      let id = trim_suffix (trim_prefix path backends_path) (lit "/weight") in
      set_found weight (get s.heap s.pool id) s

  unfoldable pub handle_reload : Server → Response × Server
  handle_reload s = (accepted, s)
