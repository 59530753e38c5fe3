-- ===== src/Pool/Contents.antt =====
-- internal/backend/pool.go: a pool as the list of the backends that its references point to.
use gobalancer.Common.{
  ℕ, suc, ◌<◌, ◌≡◌, refl, sym, ap, subst, ◌∙◌, ◌≢◌, ◌⊎◌, inl, inr, Option, none, some, List, [],
  ◌∷◌, ◌++◌, map, arith, if◌then◌else◌, All-append, All, ℤ, Str, str_eq, str_eq_refl,
}
use mathlib.Core.Option
use mathlib.Core.Path.{ap₂}
use mathlib.Core.List.{map-append}
use gobalancer.Backend.{Backend, Heap, Ref, update, store, alloc}
use gobalancer.Pool.{Pool, new_pool, remove_backend, get, add}
use gobalancer.Pool.Members.{Lacks, remove_backend-get}

abbrev pub cells : Heap → List Ref → List Backend
cells h = map h.cell

abbrev pub contents : Heap → Pool → List Backend
contents h p = cells h p.backends

-- The references are on the heap, and none stands there twice.
abbrev Fresh : Ref → List Ref → Type 0
Fresh r = All (λ q. r ≢ q)

abbrev Apart : List Ref → Type 0
Apart [] = Unit
Apart (r ∷ rs) = Fresh r rs × Apart rs

abbrev pub Sound : Heap → Pool → Type 0
Sound h p = All (λ r. r < h.next) p.backends × Apart p.backends

-- The first backend with the identifier is taken out.
unfoldable pub without : Str → List Backend → Option (List Backend)
without id [] = none
without id (b ∷ bs) = if str_eq b.id id then some bs else Option.map (◌∷◌ b) (without id bs)

-- The first backend with the identifier gets the weight.
unfoldable pub weighed : Str → ℤ → List Backend → Option (Backend × List Backend)
weighed id w [] = none
weighed id w (b ∷ bs) =
    let rest = Option.map (λ p. (p.0, b ∷ p.1)) (weighed id w bs) in
    let b' : Backend = record b { weight = w } in
    if str_eq b.id id then some (b', b' ∷ bs) else rest

All-middle :
    (P : Ref → Type 0) (xs : List Ref) (r : Ref) (ys : List Ref)
    → All P (xs ++ r ∷ ys)
    → All P (xs ++ ys) × P r
All-middle P [] r ys (p, ps) = (ps, p)
All-middle P (x ∷ xs) r ys (p, ps) = let (a, b) = All-middle P xs r ys ps in ((p, a), b)

Apart-middle : (xs : List Ref) (r : Ref) (ys : List Ref) → Apart (xs ++ r ∷ ys) → Apart (xs ++ ys)
Apart-middle [] r ys (f, more) = more
Apart-middle (x ∷ xs) r ys (f, more) =
    ((All-middle (λ q. x ≢ q) xs r ys f).0, Apart-middle xs r ys more)

update-other : (f : Ref → Backend) (r : Ref) (b : Backend) (q : Ref) → r ≢ q → update f r b q ≡ f q
update-other f r b q n = ground (arith, n)

update-same : (f : Ref → Backend) (r : Ref) (b : Backend) → update f r b r ≡ b
update-same f r b = ground arith

cells-store :
    (h : Heap) (r : Ref) (b : Backend) (rs : List Ref)
    → Fresh r rs
    → cells (store h r b) rs ≡ cells h rs
cells-store h r b [] f = refl
cells-store h r b (q ∷ rs) (f, fs) = ap₂ ◌∷◌ (update-other h.cell r b q f) (cells-store h r b rs fs)

store-middle :
    (h : Heap) (b : Backend) (xs : List Ref) (r : Ref) (ys : List Ref)
    → Apart (xs ++ r ∷ ys)
    → cells (store h r b) (xs ++ r ∷ ys) ≡ cells h xs ++ b ∷ cells h ys
store-middle h b [] r ys (f, more) = ap₂ ◌∷◌ (update-same h.cell r b) (cells-store h r b ys f)
store-middle h b (x ∷ xs) r ys (f, more) =
    ap₂ ◌∷◌ (update-other h.cell r b x (λ e. (All-middle (λ q. x ≢ q) xs r ys f).1 (sym e)))
      (store-middle h b xs r ys more)

Fresh-above : (n : ℕ) (rs : List Ref) → All (λ r. r < n) rs → Fresh n rs
Fresh-above n [] on = tt
Fresh-above n (r ∷ rs) (l, on) = ((λ e. omega (arith, l, e)), Fresh-above n rs on)

below_suc : (n : ℕ) (rs : List Ref) → All (λ r. r < n) rs → All (λ r. r < suc n) rs
below_suc n [] on = tt
below_suc n (r ∷ rs) (l, on) = (omega (arith, l), below_suc n rs on)

Apart-end : (n : ℕ) (rs : List Ref) → All (λ r. r < n) rs → Apart rs → Apart (rs ++ n ∷ [])
Apart-end n [] on a = (tt, tt)
Apart-end n (r ∷ rs) (l, on) (f, a) =
    (All-append (λ q. r ≢ q) rs (n ∷ []) f ((λ e. omega (arith, l, e)), tt), Apart-end n rs on a)

module _ (h : Heap) (id : Str) where
  without-Lacks : (xs : List Ref) → Lacks h id xs → without id (cells h xs) ≡ none
  unfolding without
  without-Lacks [] l = refl
  without-Lacks (x ∷ xs) (l, ls) = rw (l, without-Lacks xs ls) refl

  without-found :
      (xs : List Ref) (b : Backend) (bs : List Backend)
      → Lacks h id xs
      → b.id ≡ id
      → without id (cells h xs ++ b ∷ bs) ≡ some (cells h xs ++ bs)
  unfolding without
  without-found [] b bs l e = rw (e, str_eq_refl id) refl
  without-found (x ∷ xs) b bs (l, ls) e = rw (l, without-found xs b bs ls e) refl

  module _ (w : ℤ) where
    weighed-Lacks : (xs : List Ref) → Lacks h id xs → weighed id w (cells h xs) ≡ none
    unfolding weighed
    weighed-Lacks [] l = refl
    weighed-Lacks (x ∷ xs) (l, ls) = rw (l, weighed-Lacks xs ls) refl

    weighed-found :
        (xs : List Ref) (b : Backend) (bs : List Backend)
        → Lacks h id xs
        → b.id ≡ id
        → (let b' : Backend = record b { weight = w } in
            weighed id w (cells h xs ++ b ∷ bs) ≡ some (b', cells h xs ++ b' ∷ bs))
    unfolding weighed
    weighed-found [] b bs l e = rw (e, str_eq_refl id) refl
    weighed-found (x ∷ xs) b bs (l, ls) e = rw (l, weighed-found xs b bs ls e) refl

  -- `Remove` takes the first backend with the identifier out of the list.
  pub removal :
      (p : Pool)
      → Sound h p
      → ((remove_backend h p id ≡ none) × (without id (contents h p) ≡ none))
        ⊎ ((q : Pool) × (remove_backend h p id ≡ some q)
            × (without id (contents h p) ≡ some (contents h q))
            × Sound h q)
  removal p (on, apart) = elim (remove_backend-get h p id) [
    | inl (l, e, _) ↦ inl (e, without-Lacks p.backends l)
    | inr (xs, r, ys, e, l, i, gone, _) ↦ inr (
      new_pool (xs ++ ys),
      gone,
      ap (λ rs. without id (cells h rs)) e
          ∙ ap (without id) (map-append h.cell xs (r ∷ ys))
          ∙ without-found xs (h.cell r) (cells h ys) l i
          ∙ ap some (sym (map-append h.cell xs ys)),
      (
        (All-middle (λ q. q < h.next) xs r ys (subst (All (λ q. q < h.next)) e on)).0,
        Apart-middle xs r ys (subst Apart e apart),
      ),
    )
  ]

  -- `Get` finds the first backend with the identifier, and a weight that is written there changes that
  -- one alone.
  pub weighing :
      (w : ℤ) (p : Pool)
      → Sound h p
      → ((get h p id ≡ none) × (weighed id w (contents h p) ≡ none))
        ⊎ ((r : Ref) × (get h p id ≡ some r)
            × (let b' : Backend = record (h.cell r) { weight = w } in
                weighed id w (contents h p) ≡ some (b', contents (store h r b') p)))
  weighing w p (on, apart) = elim (remove_backend-get h p id) [
    | inl (l, _, e) ↦ inl (e, weighed-Lacks w p.backends l)
    | inr (xs, r, ys, e, l, i, _, found) ↦ inr (
      r,
      found,
      let b' : Backend = record (h.cell r) { weight = w } in
          ap (λ rs. weighed id w (cells h rs)) e
          ∙ ap (weighed id w) (map-append h.cell xs (r ∷ ys))
          ∙ weighed-found w xs (h.cell r) (cells h ys) l i
          ∙ ap (λ bs. some (b', bs))
              (sym (ap (cells (store h r b')) e ∙ store-middle h b' xs r ys (subst Apart e apart))),
    )
  ]

-- A new backend stands at the end of the list.
pub addition :
    (h : Heap) (b : Backend) (p : Pool)
    → Sound h p
    → (let (r, h') = alloc h b in
        (contents h' (add p r) ≡ contents h p ++ b ∷ []) × Sound h' (add p r))
unfolding alloc add
addition h b p (on, apart) = (
  map-append (update h.cell h.next b) p.backends (h.next ∷ [])
      ∙ ap₂ ◌++◌ (cells-store h h.next b p.backends (Fresh-above h.next p.backends on))
          (ap (λ c. c ∷ []) (update-same h.cell h.next b)),
  (
    All-append (λ r. r < suc h.next) p.backends (h.next ∷ []) (below_suc h.next p.backends on)
        (omega arith, tt),
    Apart-end h.next p.backends on apart,
  ),
)
