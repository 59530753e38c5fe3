-- ===== src/Proxy/Dispatch/Fairness.antt =====
-- internal/proxy/http.go with internal/balancer/roundrobin.go: how requests are spread.
use gobalancer.Common.{
  ℕ, ◌+◌, ◌<◌, ◌≡◌, refl, sym, ap, ◌∙◌, ◌≢◌, Bool, Option, none, some, List, [], ◌∷◌, Memᴰ, arith,
  ◌==◌, if◌then◌else◌, length, select, get_elem?-mem, count, ℤ, pos, negsuc, two_63, index,
}
use gobalancer.Backend.{Ref}
use gobalancer.Backend.Conns.{is_healthy-inc_conns}
use gobalancer.Pool.{healthy}
use gobalancer.Http.{Request}
use gobalancer.Balancer.{Choice, chosen, nothing, no_backends, panic, picks, of_index}
use gobalancer.Balancer.RoundRobin.{RoundRobin, run_fair}
use gobalancer.Balancer.RoundRobin
use gobalancer.Proxy.Dispatch.Members.{PicksMembers}
use gobalancer.Proxy.Dispatch.{
  Dispatched, bad_gateway, unavailable, crashed, sent, Selecting, Proxy, forward, serve_http,
}

abbrev pub round_robin : Selecting
round_robin = record { Selector = RoundRobin; next = λ s h r bs. RoundRobin.next s bs }

module _ (selecting : Selecting) where
  -- Requests one after the other, none of which has ended yet.
  pub serve_all : List Request → Proxy selecting → List Dispatched
  serve_all [] p = []
  serve_all (r ∷ rs) p = let (d, p') = serve_http selecting r p in d ∷ serve_all rs p'

-- How many requests went to a backend.
pub received : Ref → List Dispatched → ℕ
received q [] = 0
received q (sent b r ∷ ds) = (if b == q then 1 else 0) + received q ds
received q (bad_gateway ∷ ds) = received q ds
received q (unavailable ∷ ds) = received q ds
received q (crashed ∷ ds) = received q ds

select-ext :
    (f g : Ref → Bool) (xs : List Ref) → ((x : Ref) → f x ≡ g x) → select f xs ≡ select g xs
select-ext f g [] e = refl
select-ext f g (x ∷ xs) e = ground (arith, e x, select-ext f g xs e)

-- One request, whatever was picked.
forward-received :
    (q : Ref) (r : Request) (c : Choice) (s : RoundRobin) (p : Proxy round_robin)
    (ds : List Dispatched) (cs : List Choice)
    → received q ds ≡ picks q cs
    → received q ((forward round_robin r c s p).0 ∷ ds) ≡ picks q (c ∷ cs)
unfolding forward received
forward-received q r (chosen b) s p ds cs e = omega (arith, e)
forward-received q r nothing s p ds cs e = e
forward-received q r no_backends s p ds cs e = e
forward-received q r panic s p ds cs e = e

-- A request changes no backend's health, and leaves the selector as it has picked.
forward-Spreads :
    (r : Request) (c : Choice) (s : RoundRobin) (p : Proxy round_robin)
    → let p' = (forward round_robin r c s p).1 in
      (p'.selector ≡ s) × (healthy p'.heap p'.pool ≡ healthy p.heap p.pool)
unfolding forward healthy
forward-Spreads r (chosen b) s p =
    (refl, select-ext _ _ p.pool.backends (λ q. is_healthy-inc_conns p.heap b q))
forward-Spreads r nothing s p = (refl, refl)
forward-Spreads r no_backends s p = (refl, refl)
forward-Spreads r panic s p = (refl, refl)

serve_all-received :
    (q : Ref) (rs : List Request) (p : Proxy round_robin) (b : Ref) (bs : List Ref)
    → healthy p.heap p.pool ≡ b ∷ bs
    → received q (serve_all round_robin rs p)
      ≡ picks q (RoundRobin.run (length rs) p.selector (b ∷ bs))
unfolding serve_all serve_http RoundRobin.run received
serve_all-received q [] p b bs e = refl
serve_all-received q (r ∷ rs) p b bs e =
    let (c, s) = RoundRobin.next p.selector (b ∷ bs) in
    let p' = (forward round_robin r c s p).1 in
    let (same, still) = forward-Spreads r c s p in
    rw e (
      forward-received q r c s p (serve_all round_robin rs p')
        (RoundRobin.run (length rs) s (b ∷ bs))
        (serve_all-received q rs p' b bs (still ∙ e)
          ∙ ap (λ t. picks q (RoundRobin.run (length rs) t (b ∷ bs))) same))

-- With some backend healthy and a counter that does not reach 2^63, of as many requests as there are
-- healthy backends, one goes to each of them, counted as often as the pool lists it, and none to
-- another.
pub serve_all-fair :
    (q : Ref) (k : ℕ) (rs : List Request) (p : Proxy round_robin)
    → healthy p.heap p.pool ≢ []
    → p.selector ≡ record { counter = pos k }
    → length rs ≡ length (healthy p.heap p.pool)
    → k + length rs < two_63
    → received q (serve_all round_robin rs p) ≡ count q (healthy p.heap p.pool)
serve_all-fair q k rs p ne s l bound = go (healthy p.heap p.pool) refl
  where
    go :
        (bs : List Ref)
        → healthy p.heap p.pool ≡ bs
        → received q (serve_all round_robin rs p) ≡ count q (healthy p.heap p.pool)
    go [] e = absurd (ne e)
    go (b ∷ bs) e =
        let n : length rs ≡ length (b ∷ bs) = l ∙ ap length e in
        serve_all-received q rs p b bs e
        ∙ rw (s, n) (run_fair k (b ∷ bs) q (λ z. absurd (cc (z))) (omega (arith, n)))
        ∙ ap (count q) (sym e)

of_index-chosen : (o : Option Ref) (b : Ref) → of_index o ≡ chosen b → o ≡ some b
of_index-chosen none b e = absurd (cc (e))
of_index-chosen (some r) b e = cc (e)

index-mem : (bs : List Ref) (i : ℤ) (b : Ref) → index bs i ≡ some b → Memᴰ b bs
index-mem bs (pos n) b e = get_elem?-mem bs n b e
index-mem bs (negsuc n) b e = absurd (cc (e))

-- The round robin picks from the list that it is given, whatever its counter.
pub round_robin-PicksMembers : PicksMembers round_robin
unfolding RoundRobin.next
round_robin-PicksMembers s h r [] b e = absurd (cc (e))
round_robin-PicksMembers s h r (x ∷ bs) b e = index-mem (x ∷ bs) _ b (of_index-chosen _ b e)
