-- ===== src/Pool/Members.antt =====
-- What the methods of the pool do to its members.
use gobalancer.Common.{
  ◌≡◌, refl, ap, ◌⊎◌, inl, inr, false, Option, none, some, List, [], ◌∷◌, ◌++◌, arith,
  if◌then◌else◌, Bool-cases, Option-cases, count-select, All, count, Str, str_eq, str_eq_iff,
  str_eq_refl,
}
use mathlib.Core.Option
use gobalancer.Backend.{Heap, Ref, is_healthy}
use gobalancer.Pool.{
  add, Pool, new_pool, healthy, has_id, remove_first, remove_backend, find_id, get,
}

-- No member has the identifier.
abbrev pub Lacks : Heap → Str → List Ref → Type 0
Lacks h id = All (λ r. has_id h id r ≡ false)

-- No two members have one identifier.
abbrev pub DistinctIds : Heap → List Ref → Type 0
DistinctIds h [] = Unit
DistinctIds h (r ∷ rs) = Lacks h (h.cell r).id rs × DistinctIds h rs

find_id_of_Lacks : (h : Heap) (id : Str) (rs : List Ref) → Lacks h id rs → find_id h id rs ≡ none
unfolding find_id
find_id_of_Lacks h id [] l = refl
find_id_of_Lacks h id (r ∷ rs) l = rw l.0 (find_id_of_Lacks h id rs l.1)

-- A removal takes out one member, the first with the identifier, which is the one that `Get`
-- finds; with no such member it is an error.
abbrev pub Removal : Heap → Str → List Ref → Option (List Ref) → Option Ref → Type 0
Removal h id rs removed found =
    (Lacks h id rs × (removed ≡ none) × (found ≡ none))
    ⊎ ((xs : List Ref) × (r : Ref) × (ys : List Ref) × (rs ≡ xs ++ r ∷ ys)
        × Lacks h id xs
        × ((h.cell r).id ≡ id)
        × (removed ≡ some (xs ++ ys))
        × (found ≡ some r))

remove_first-Removal :
    (h : Heap) (id : Str) (rs : List Ref) → Removal h id rs (remove_first h id rs) (find_id h id rs)
unfolding remove_first find_id
remove_first-Removal h id [] = inl (tt, refl, refl)
remove_first-Removal h id (r ∷ rs) = elim (Bool-cases (has_id h id r)) [
  | inl e ↦ inr ([], r, rs, refl, tt, (str_eq_iff _ _).0 e, rw e, rw e)
  | inr e ↦ elim (remove_first-Removal h id rs) [
    | inl (l, a, b) ↦ inl ((e, l), rw (e, a), rw (e, b))
    | inr (xs, q, ys, p, l, i, a, b) ↦
        inr (r ∷ xs, q, ys, ap (◌∷◌ r) p, (e, l), i, rw (e, a), rw (e, b))
  ]
]

-- `Remove` and `Get` agree on the member that an identifier names: the first one that bears it.
-- Without one, both fail.
pub remove_backend-get :
    (h : Heap) (p : Pool) (id : Str)
    → (Lacks h id p.backends × (remove_backend h p id ≡ none) × (get h p id ≡ none))
      ⊎ ((xs : List Ref) × (r : Ref) × (ys : List Ref) × (p.backends ≡ xs ++ r ∷ ys)
          × Lacks h id xs
          × ((h.cell r).id ≡ id)
          × (remove_backend h p id ≡ some (new_pool (xs ++ ys)))
          × (get h p id ≡ some r))
unfolding remove_backend get
remove_backend-get h p id = elim (remove_first-Removal h id p.backends) [
  | inl (l, a, b) ↦ inl (l, ap (Option.map new_pool) a, b)
  | inr (xs, r, ys, e, l, i, a, b) ↦ inr (xs, r, ys, e, l, i, ap (Option.map new_pool) a, b)
]

find_id-remove_first :
    (h : Heap) (id j : Str) (rs qs : List Ref)
    → DistinctIds h rs
    → remove_first h id rs ≡ some qs
    → find_id h j qs ≡ (if str_eq id j then none else find_id h j rs)
unfolding remove_first find_id
find_id-remove_first h id j [] qs d e = cc
find_id-remove_first h id j (r ∷ rs) qs d e = elim (Bool-cases (has_id h id r)) [
  | inl hit ↦ ground (
    arith,
    str_eq_iff (h.cell r).id id,
    str_eq_iff (h.cell r).id j,
    str_eq_iff id j,
    λ (l : Lacks h j rs). find_id_of_Lacks h j rs l,
    d.0,
  )
  | inr miss ↦ elim (Option-cases (remove_first h id rs)) [
    | inl f ↦ absurd (cc (f, miss, e))
    | inr (ts, f) ↦ ground (
      arith,
      str_eq_iff (h.cell r).id id,
      str_eq_iff (h.cell r).id j,
      str_eq_iff id j,
      find_id-remove_first h id j rs ts d.1 f,
    )
  ]
]

-- After a removal the identifier names nothing, and every other identifier names what it named
-- before, as long as no two members share an identifier.
pub get-remove_backend :
    (h : Heap) (p q : Pool) (id j : Str)
    → DistinctIds h p.backends
    → remove_backend h p id ≡ some q
    → get h q j ≡ (if str_eq id j then none else get h p j)
unfolding remove_backend get
get-remove_backend h p q id j d e = elim (Option-cases (remove_first h id p.backends)) [
  | inl f ↦ ground (arith, f)
  | inr (ts, f) ↦ ground (arith, find_id-remove_first h id j p.backends ts d f)
]

-- `Healthy` lists exactly the healthy members, each as often as the pool holds it.
pub count-healthy :
    (h : Heap) (p : Pool) (r : Ref)
    → count r (healthy h p) ≡ (if is_healthy h r then count r p.backends else 0)
unfolding healthy
count-healthy h p r = count-select (is_healthy h) r p.backends

remove_first-end :
    (h : Heap) (id : Str) (rs : List Ref) (r : Ref)
    → Lacks h id rs
    → (h.cell r).id ≡ id
    → remove_first h id (rs ++ r ∷ []) ≡ some rs
unfolding remove_first
remove_first-end h id [] r l e = rw (e, str_eq_refl id) refl
remove_first-end h id (q ∷ rs) r (l, ls) e = rw (l, remove_first-end h id rs r ls e) refl

-- Taking out the member that was added last restores the pool, if no other one has its identifier.
pub remove_backend-add :
    (h : Heap) (p : Pool) (r : Ref)
    → Lacks h (h.cell r).id p.backends
    → remove_backend h (add p r) (h.cell r).id ≡ some p
unfolding remove_backend add
remove_backend-add h p r l =
    ap (Option.map new_pool) (remove_first-end h (h.cell r).id p.backends r l refl)
