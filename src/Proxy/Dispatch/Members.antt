-- ===== src/Proxy/Dispatch/Members.antt =====
-- internal/proxy/http.go: where a request may go, by what its selector promises.
use gobalancer.Common.{
  ◌≡◌, refl, sym, ap, subst, ◌∙◌, inl, inr, Bool, true, List, [], ◌∷◌, ◌++◌, Memᴰ, Bool-cases,
  select,
}
use gobalancer.Backend.{Heap, Ref, is_healthy}
use gobalancer.Pool.{healthy}
use gobalancer.Http.{Request}
use gobalancer.Balancer.{Choice, chosen, nothing, no_backends, panic, is_nil}
use gobalancer.Balancer.LeastConnections.{next-Least}
use gobalancer.Balancer.LeastConnections
use gobalancer.Proxy.Dispatch.{sent, Selecting, Proxy, forward, serve_http}

pub select-mem :
    (f : Ref → Bool) (xs : List Ref) (b : Ref) → Memᴰ b (select f xs) → (f b ≡ true) × Memᴰ b xs
select-mem f [] b m = elim m [ ]
select-mem f (x ∷ xs) b m = elim (Bool-cases (f x)) [
  | inr n ↦ let (y, k) = select-mem f xs b (rw n at m) in (y, Memᴰ.tail k)
  | inl y ↦ first_or_later y (λ k. select-mem f xs b k) (rw y at m)
]
  where
    first_or_later :
        f x ≡ true
        → (Memᴰ b (select f xs) → (f b ≡ true) × Memᴰ b xs)
        → Memᴰ b (x ∷ select f xs)
        → (f b ≡ true) × Memᴰ b (x ∷ xs)
    first_or_later y later (Memᴰ.head e) = (ap f e ∙ y, Memᴰ.head e)
    first_or_later y later (Memᴰ.tail k) = let (z, l) = later k in (z, Memᴰ.tail l)

module _ (selecting : Selecting) where
  open selecting use {Selector}

  -- A selector that picks only from the list that it is given.
  abbrev pub PicksMembers : Type 0
  PicksMembers =
      (s : Selector) (h : Heap) (r : Request) (bs : List Ref) (b : Ref)
      → (selecting.next s h r bs).0 ≡ chosen b
      → Memᴰ b bs

  forward-sent :
      (r r' : Request) (c : Choice) (s : Selector) (p : Proxy selecting) (b : Ref)
      → (forward selecting r c s p).0 ≡ sent b r'
      → c ≡ chosen b
  unfolding forward
  forward-sent r r' (chosen q) s p b e = cc (e)
  forward-sent r r' nothing s p b e = absurd (cc (e))
  forward-sent r r' no_backends s p b e = absurd (cc (e))
  forward-sent r r' panic s p b e = absurd (cc (e))

  -- With a selector that picks only from the list that it is given, a request goes only to a
  -- backend that is healthy and in the pool when it arrives.
  pub serve_http-healthy :
      (r r' : Request) (b : Ref) (p : Proxy selecting)
      → PicksMembers
      → (serve_http selecting r p).0 ≡ sent b r'
      → (is_healthy p.heap b ≡ true) × Memᴰ b p.pool.backends
  unfolding serve_http healthy
  serve_http-healthy r r' b p m e = elim (Bool-cases (is_nil (healthy p.heap p.pool))) [
    | inl y ↦ absurd (cc (ap (λ x. x) (rw y at e)))
    | inr n ↦
        let picked = forward-sent r r' _ _ p b (rw n at e) in
        select-mem (is_healthy p.heap) p.pool.backends b
          (m p.selector p.heap r (healthy p.heap p.pool) b picked)
  ]

-- The selector of the fewest connections, as the proxy takes it.
abbrev pub least_connections : Selecting
least_connections = record { Selector = Unit; next = λ s h r bs. (LeastConnections.next h bs, s) }

mem-middle : (before behind : List Ref) (b : Ref) → Memᴰ b (before ++ b ∷ behind)
mem-middle [] behind b = Memᴰ.head refl
mem-middle (x ∷ before) behind b = Memᴰ.tail (mem-middle before behind b)

pub least_connections-PicksMembers : PicksMembers least_connections
least_connections-PicksMembers s h r bs b e = elim (next-Least h bs) [
  | inl (_, f) ↦ absurd (cc (e, f))
  | inr (inl (q, f, l)) ↦
      let same : q ≡ b = cc (e, f) in
      subst (λ x. Memᴰ x bs) same
        (subst (λ xs. Memᴰ q xs) (sym l.split) (mem-middle l.before l.behind q))
  | inr (inr (f, _)) ↦ absurd (cc (e, f))
]
