-- ===== src/Examples/Administering.antt =====
-- A series of requests to the admin API: a backend is added, gets a weight and is listed, another one
-- is removed.
use gobalancer.Common.{◌≡◌, refl, Option, some, List, [], ◌∷◌, map, arith, ℤ, pos, Str, lit, str_eq}
use gobalancer.Backend.{Backend, Url}
use gobalancer.Pool.{new_pool}
use gobalancer.Pool.Contents.{contents}
use gobalancer.Admin.{Server, AddRequest}
use gobalancer.Admin.Routes.{AdminRequest, run}
use gobalancer.Admin.Routes.Contents.{promises, run-promises}
use gobalancer.Examples.Data.{heap, refs}

abbrev server : Server
server = record { heap = heap; pool = new_pool refs }

abbrev target : Url
target = record { scheme = lit "http"; host = lit "10.0.0.7:80"; path = []; raw_query = [] }

abbrev to_add : AddRequest
to_add = record { id = lit "d"; addr = lit "http://10.0.0.7:80"; weight = pos 0 }

abbrev series : List AdminRequest
series =
    record { method = lit "POST"; path = lit "/admin/backends"; body = [] }
    ∷ record { method = lit "PUT"; path = lit "/admin/backends/d/weight"; body = [] }
    ∷ record { method = lit "DELETE"; path = lit "/admin/backends/a"; body = [] }
    ∷ record { method = lit "GET"; path = lit "/admin/backends"; body = [] }
    ∷ []

abbrev parse : Str → Option Url
parse s = some target

abbrev print : Url → Str
print u = u.host

abbrev decode_add : Str → Option AddRequest
decode_add s = some to_add

abbrev decode_weight : Str → Option ℤ
decode_weight s = some (pos 4)

abbrev before : List Backend
before = contents server.heap server.pool

-- Afterwards "b", "c" and "d" are in the pool, in this order.
weights :
    map
      (λ b. b.weight)
      (contents
        (run parse print decode_add decode_weight series server).1.heap
        (run parse print decode_add decode_weight series server).1.pool)
    ≡ pos 3 ∷ pos 0 ∷ pos 4 ∷ []
unfolding run str_eq
weights = refl

run-promises_example :
    (let (answers, s') = run parse print decode_add decode_weight series server in
      (answers ≡ (promises parse print decode_add decode_weight series before).0)
      × (contents s'.heap s'.pool
          ≡ (promises parse print decode_add decode_weight series before).1))
run-promises_example = run-promises parse print decode_add decode_weight series server (
  (omega arith, (omega arith, (omega arith, tt))),
  (
    ((λ e. omega (arith, e)), ((λ e. omega (arith, e)), tt)),
    (((λ e. omega (arith, e)), tt), (tt, tt)),
  ),
)
