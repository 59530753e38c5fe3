-- ===== src/CircuitBreaker/Registry.antt =====
-- internal/circuitbreaker/registry.go. The breakers stand in a list, and the map holds positions in
-- it, so that one breaker is the same object at every call. The locks make `Get` one step.
use gobalancer.Common.{
  ℕ, suc, ◌<◌, ◌≡◌, refl, sym, subst, ◌∙◌, inl, inr, Option, none, some, List, [], ◌∷◌, ◌++◌, arith,
  if◌then◌else◌, Option-cases, ◌>>=◌, of_some, length, get_elem?, length-append, get_elem?-append,
  Str, str_eq, str_eq_iff, str_eq_refl, lookup, insert, lookup-insert,
}
use gobalancer.CircuitBreaker.Breaker.{Config, Breaker, new, state_name}

pub record Registry : Type 0 where
  pub cfg : Config
  pub breakers : List (Str × ℕ)
  pub objects : List Breaker

unfoldable pub new_registry : Config → Registry
new_registry cfg = record { cfg = cfg; breakers = []; objects = [] }

-- `r.breakers[id] = b`
unfoldable pub added : Registry → Str → Breaker → Registry
unfolding insert
added r id b = record r {
  breakers = insert id (length r.objects) r.breakers;
  objects = r.objects ++ b ∷ [];
}

-- The locked part of `Get`; `none` is the panic of `New`.
unfoldable pub create : Registry → Str → Option (ℕ × Registry)
unfolding added
create r id = new r.cfg >>= λ b. some (length r.objects, added r id b)

get_found : Registry → Str → Option ℕ → Option (ℕ × Registry)
unfolding create
get_found r id none = create r id
get_found r id (some p) = some (p, r)

unfoldable pub get : Registry → Str → Option (ℕ × Registry)
unfolding get_found lookup
get r id = get_found r id (lookup id r.breakers)

-- The name of the state of each breaker, by backend.
states_of : List Breaker → List (Str × ℕ) → List (Str × Option Str)
states_of bs [] = []
states_of bs ((id, p) ∷ m) =
    (id, get_elem? bs p >>= λ b. some (state_name b.state)) ∷ states_of bs m

unfoldable pub states : Registry → List (Str × Option Str)
unfolding states_of
states r = states_of r.objects r.breakers

-- Every identifier has a breaker of its own.
pub record Inv (r : Registry) : Type 0 where
  pub allocated : (id : Str) (p : ℕ) → lookup id r.breakers ≡ some p → p < length r.objects
  pub separate :
      (id id' : Str) (p : ℕ)
      → lookup id r.breakers ≡ some p
      → lookup id' r.breakers ≡ some p
      → id ≡ id'

new_registry-Inv : (cfg : Config) → Inv (new_registry cfg)
unfolding new_registry lookup
new_registry-Inv cfg = record {
  allocated = λ id p e. absurd (cc);
  separate = λ id id' p e f. absurd (cc);
}

lookup-added :
    (r : Registry) (id j : Str) (b : Breaker)
    → lookup j (added r id b).breakers
      ≡ (if str_eq id j then some (length r.objects) else lookup j r.breakers)
unfolding added
lookup-added r id j b = lookup-insert id j (length r.objects) r.breakers

length-added :
    (r : Registry) (id : Str) (b : Breaker) → length (added r id b).objects ≡ suc (length r.objects)
unfolding added
length-added r id b = omega (arith, length-append r.objects (b ∷ []))

added-Inv : (r : Registry) (id : Str) (b : Breaker) → Inv r → Inv (added r id b)
added-Inv r id b v = record {
  allocated = λ j p e. ground (arith, lookup-added r id j b, length-added r id b, v.allocated j p);
  separate = λ j i p e f. ground (
    arith,
    lookup-added r id j b,
    lookup-added r id i b,
    str_eq_iff id j,
    str_eq_iff id i,
    v.allocated j p,
    v.allocated i p,
    v.separate j i p,
  );
}

-- What `Get` promises of its answer.
abbrev pub Stable : Registry → Str → ℕ × Registry → Type 0
Stable r id (p, q) =
    Inv q
    × (get q id ≡ some (p, q))
    × ((i : ℕ) (b : Breaker) → get_elem? r.objects i ≡ some b → get_elem? q.objects i ≡ some b)

found-Stable :
    (r : Registry) (id : Str) (p : ℕ) → Inv r → lookup id r.breakers ≡ some p → Stable r id (p, r)
unfolding get get_found
found-Stable r id p v e = (v, rw e, λ i b f. f)

added-Stable :
    (r : Registry) (id : Str) (b : Breaker) → Inv r → Stable r id (length r.objects, added r id b)
added-Stable r id b v =
    let here : lookup id (added r id b).breakers ≡ some (length r.objects) =
      lookup-added r id id b ∙ rw (str_eq_refl id) in
    let (v', again, _) =
      found-Stable (added r id b) id (length r.objects) (added-Inv r id b v) here in
    (v', again, unfold added in (λ i c e. get_elem?-append r.objects (b ∷ []) i e))

created :
    (r : Registry) (id : Str) (b : Breaker)
    → new r.cfg ≡ some b
    → create r id ≡ some (length r.objects, added r id b)
unfolding create
created r id b n = rw n

get_cases :
    (r : Registry) (id : Str) (x : ℕ × Registry)
    → Inv r
    → (o : Option ℕ) → lookup id r.breakers ≡ o
    → get_found r id o ≡ some x
    → Stable r id x
unfolding get_found
get_cases r id x v (some p) l e = subst (Stable r id) (of_some e) (found-Stable r id p v l)
get_cases r id x v none l e = elim (Option-cases (new r.cfg)) [
  | inl n ↦ absurd (unfold create in ground (arith, n))
  | inr (b, n) ↦ subst (Stable r id) (of_some (sym (created r id b n) ∙ e)) (added-Stable r id b v)
]

-- In a registry where every identifier has a breaker of its own, every later call of `Get` with an
-- identifier answers with the breaker of the first, the breakers that exist stay as they are, and
-- those of different identifiers stay apart.
pub get-Stable :
    (r : Registry) (id : Str) (p : ℕ) (q : Registry)
    → Inv r
    → get r id ≡ some (p, q)
    → Stable r id (p, q)
unfolding get
get-Stable r id p q v e = get_cases r id (p, q) v (lookup id r.breakers) refl e
