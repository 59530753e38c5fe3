-- ===== src/Pool.antt =====
-- internal/backend/pool.go. The lock makes each method one step.
pub mod Members
pub mod Contents
use mathlib.Core.Option
use gobalancer.Common.{
  ◌+◌, Bool, Option, none, some, List, [], ◌∷◌, ◌++◌, map, if◌then◌else◌, select, Str, str_eq,
}
use gobalancer.Backend.{Heap, Ref, Url, is_healthy, Snapshot, snapshot}

pub record Pool : Type 0 where
  pub backends : List Ref

abbrev pub new_pool : List Ref → Pool
new_pool bs = record { backends = bs }

unfoldable pub healthy : Heap → Pool → List Ref
healthy h p = select (is_healthy h) p.backends

unfoldable pub add : Pool → Ref → Pool
add p r = record { backends = p.backends ++ r ∷ [] }

abbrev pub has_id : Heap → Str → Ref → Bool
has_id h id r = str_eq (h.cell r).id id

-- The loop of `Remove`: `none` when no identifier fits.
remove_first : Heap → Str → List Ref → Option (List Ref)
remove_first h id [] = none
remove_first h id (r ∷ rs) =
    if has_id h id r then some rs else Option.map (◌∷◌ r) (remove_first h id rs)

-- `none` is the error "not found", which leaves the pool as it was.
unfoldable pub remove_backend : Heap → Pool → Str → Option Pool
unfolding remove_first
remove_backend h p id = Option.map new_pool (remove_first h id p.backends)

find_id : Heap → Str → List Ref → Option Ref
find_id h id [] = none
find_id h id (r ∷ rs) = if has_id h id r then some r else find_id h id rs

unfoldable pub get : Heap → Pool → Str → Option Ref
unfolding find_id
get h p id = find_id h id p.backends

unfoldable pub snapshots : (Url → Str) → Heap → Pool → List Snapshot
snapshots print h p = map (λ r. snapshot print (h.cell r)) p.backends
