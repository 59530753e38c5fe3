-- ===== src/Admin/Members.antt =====
-- internal/admin/server.go: what the handlers do to the members of the pool.
use gobalancer.Common.{
  ◌<◌, ◌≡◌, refl, sym, ap, subst, ◌∙◌, Option, some, List, [], ◌∷◌, ◌++◌, arith, ==_iff, All, Str,
  str_eq,
}
use gobalancer.Backend.{Backend, Heap, Ref, Url, snapshot, new, alloc}
use gobalancer.Pool.{add, remove_backend}
use gobalancer.Pool.Members.{Lacks, remove_backend-add}
use gobalancer.Admin.{
  Server, AddRequest, created, no_content, trim_prefix, backends_path, handle_add, handle_remove,
  add_new, without_prefix, with_pool,
}

-- The members of a pool lie on the heap.
abbrev pub OnHeap : Heap → List Ref → Type 0
OnHeap h = All (λ r. r < h.next)

without_prefix-append : (p s : Str) → without_prefix p (p ++ s) ≡ some s
unfolding without_prefix
without_prefix-append [] s = refl
without_prefix-append (c ∷ p) s = rw ((==_iff c c).1 refl) (without_prefix-append p s)

alloc-cell : (h : Heap) (b : Backend) (r : Ref) → r < h.next → (alloc h b).1.cell r ≡ h.cell r
unfolding alloc
alloc-cell h b r l = ground (arith, l)

alloc-new : (h : Heap) (b : Backend) → (alloc h b).1.cell h.next ≡ b
unfolding alloc
alloc-new h b = ground arith

Lacks-alloc :
    (h : Heap) (id : Str) (rs : List Ref) (b : Backend)
    → OnHeap h rs
    → Lacks h id rs
    → Lacks (alloc h b).1 id rs
Lacks-alloc h id [] b o l = tt
Lacks-alloc h id (r ∷ rs) b (o, os) (l, ls) =
    (ap (λ c. str_eq c.id id) (alloc-cell h b r o) ∙ l, Lacks-alloc h id rs b os ls)

trim_prefix-append : (p s : Str) → trim_prefix (p ++ s) p ≡ s
unfolding trim_prefix
trim_prefix-append p s = rw (without_prefix-append p s) refl

module _ (parse : Str → Option Url) (print : Url → Str) where
  -- A backend with an identifier that no member has is added with "created"; to delete it by its
  -- path then is answered with "no content" and leaves the pool as it was before.
  pub handle_remove-handle_add :
      (req : AddRequest) (b : Backend) (s : Server)
      → new parse req.id req.addr req.weight ≡ some b
      → OnHeap s.heap s.pool.backends
      → Lacks s.heap b.id s.pool.backends
      → (let added = handle_add parse print (some req) s in
          (added.0 ≡ created (snapshot print b))
          × (handle_remove parse print (backends_path ++ b.id) added.1
              ≡ (no_content, record { heap = added.1.heap; pool = s.pool })))
  unfolding handle_add handle_remove add_new
  handle_remove-handle_add req b s e o l =
      let h : Heap = (alloc s.heap b).1 in
      let r : Ref = s.heap.next in
      let same : (h.cell r).id ≡ b.id = ap (λ c. c.id) (alloc-new s.heap b) in
      let gone : remove_backend h (add s.pool r) b.id ≡ some s.pool =
        subst (λ i. remove_backend h (add s.pool r) i ≡ some s.pool) same
          (remove_backend-add h s.pool r (
            subst (λ i. Lacks h i s.pool.backends) (sym same)
              (Lacks-alloc s.heap b.id s.pool.backends b o l))) in
      let after : Server = record { heap = h; pool = add s.pool r } in
      rw e (
        refl,
        ap (with_pool parse print after)
            (ap (remove_backend h (add s.pool r)) (trim_prefix-append backends_path b.id) ∙ gone),
      )
