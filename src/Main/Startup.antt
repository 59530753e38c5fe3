-- ===== src/Main/Startup.antt =====
-- cmd/gobalancer/main.go: the program that a configuration starts.
use gobalancer.Common.{
  ℕ, zero, suc, ◌+◌, ◌<◌, ◌≡◌, refl, sym, ap, subst, ◌∙◌, inr, Bool, true, ◌&&◌, Option, some, List,
  [], ◌∷◌, arith, ◌==◌, if◌then◌else◌, length, get_elem?, select, count, pos, leb_ℤ, two_63, Str,
}
use gobalancer.Backend.{new, Backend, Heap, Ref, Url, Health, alloc, is_healthy}
use gobalancer.Pool.{healthy, new_pool}
use gobalancer.Http.{Request}
use gobalancer.Balancer.RoundRobin.{new_round_robin}
use gobalancer.Config.{
  Config, PoolConfig, BackendConfig, Libraries, load, config_tags, pool_tags, backend_tags,
  at_least_one, every,
}
use gobalancer.Config.Algorithms.{ReadsTags, load-struct}
use gobalancer.Proxy.Dispatch.{Proxy, new_http_proxy}
use gobalancer.Proxy.Dispatch.Fairness.{round_robin, serve_all, received, serve_all-fair}
use gobalancer.Main.{running, create_backends, with_backends, build, with_config, start}

-- The URLs that the tag `url` admits are ones that `url.Parse` reads.
abbrev pub Parses : (Str → Bool) → (Str → Option Url) → Type 0
Parses is_url parse = (s : Str) → is_url s ≡ true → (u : Url) × (parse s ≡ some u)

-- Fresh backends, one for each entry, in order: references from `n` on.
abbrev pub from : ℕ → ℕ → List Ref
from n zero = []
from n (suc k) = n ∷ from (suc n) k

-- What a backend is like that `New` has made for an entry.
pub record Made (bc : BackendConfig) (b : Backend) : Type 0 where
  pub same_id : b.id ≡ bc.id
  pub up : b.health ≡ Health.healthy
  pub idle : b.active_conns ≡ pos 0
  pub weighted : b.weight ≡ (if leb_ℤ bc.weight (pos 0) then pos 1 else bc.weight)

unfoldable pub MadeFrom : List BackendConfig → ℕ → Heap → Type 0
MadeFrom [] n h = Unit {0}
MadeFrom (bc ∷ bcs) n h = Made bc (h.cell n) × MadeFrom bcs (suc n) h

cell-Made : (bc : BackendConfig) (made b : Backend) → b ≡ made → Made bc made → Made bc b
cell-Made bc made b e m = subst (Made bc) (sym e) m

abbrev made : BackendConfig → Url → Backend
made bc u = record {
  id = bc.id;
  url = u;
  weight = if leb_ℤ bc.weight (pos 0) then pos 1 else bc.weight;
  active_conns = pos 0;
  health = Health.healthy;
}

made-Made : (bc : BackendConfig) (u : Url) → Made bc (made bc u)
made-Made bc u = record { same_id = refl; up = refl; idle = refl; weighted = refl }

-- The backends of a configuration are healthy.
select-MadeFrom :
    (bcs : List BackendConfig) (n : ℕ) (h : Heap)
    → MadeFrom bcs n h
    → select (is_healthy h) (from n (length bcs)) ≡ from n (length bcs)
unfolding MadeFrom
select-MadeFrom [] n h m = refl
select-MadeFrom (bc ∷ bcs) n h (m, ms) = rw m.up (ap (◌∷◌ n) (select-MadeFrom bcs (suc n) h ms))

-- What the first pool of a configuration becomes.
pub record Serves (pool_cfg : PoolConfig) (n : Ref) (p : Proxy round_robin) : Type 0 where
  pub members : p.pool.backends ≡ from n (length pool_cfg.backends)
  pub made_from : MadeFrom pool_cfg.backends n p.heap
  pub all_healthy : healthy p.heap p.pool ≡ from n (length pool_cfg.backends)
  pub counter : p.selector ≡ new_round_robin
  pub quiet : p.in_flight ≡ []

module _ (is_url : Str → Bool) (parse : Str → Option Url) (parses : Parses is_url parse) where
  backend_tags-parse :
      (bc : BackendConfig) → backend_tags is_url bc ≡ true → (u : Url) × (parse bc.addr ≡ some u)
  unfolding backend_tags
  backend_tags-parse bc t = parses bc.addr (ground arith)

  create_backends-cons :
      (bc : BackendConfig) (bcs : List BackendConfig) (h : Heap) (u : Url) (rs : List Ref)
      (h' : Heap)
      → parse bc.addr ≡ some u
      → create_backends parse bcs (alloc h (made bc u)).1 ≡ some (rs, h')
      → create_backends parse (bc ∷ bcs) h ≡ some (h.next ∷ rs, h')
  unfolding create_backends new alloc
  create_backends-cons bc bcs h u rs h' e f = rw (create_backends, e, f) refl

  -- Backends whose tags hold are all created, and the cells below are left alone.
  created :
      (bcs : List BackendConfig) (h : Heap)
      → every (backend_tags is_url) bcs ≡ true
      → (h' : Heap) × (create_backends parse bcs h ≡ some (from h.next (length bcs), h'))
        × MadeFrom bcs h.next h'
        × ((q : Ref) → q < h.next → h'.cell q ≡ h.cell q)
  unfolding create_backends MadeFrom alloc
  created [] h t = (h, refl, tt, λ q l. refl)
  created (bc ∷ bcs) h t =
      let (u, e) = backend_tags-parse bc (ground arith) in
      let h₁ = (alloc h (made bc u)).1 in
      let (h', rest, m, below) = created bcs h₁ (ground arith) in
      let self : h'.cell h.next ≡ made bc u = below h.next (omega arith) ∙ ground arith in
      (
        h',
        create_backends-cons bc bcs h u (from (suc h.next) (length bcs)) h' e rest,
        (cell-Made bc (made bc u) (h'.cell h.next) self (made-Made bc u), m),
        λ q l. below q (omega arith) ∙ ground arith,
      )

  pool_tags-backends :
      (pool_cfg : PoolConfig)
      → pool_tags is_url pool_cfg ≡ true
      → (at_least_one pool_cfg.backends ≡ true)
        × (every (backend_tags is_url) pool_cfg.backends ≡ true)
  unfolding pool_tags
  pool_tags-backends pool_cfg t = (ground arith, ground arith)

  build-Serves :
      (pools : List PoolConfig) (h : Heap)
      → (at_least_one pools && every (pool_tags is_url) pools) ≡ true
      → (pool_cfg : PoolConfig) × (p : Proxy round_robin) × (get_elem? pools 0 ≡ some pool_cfg)
        × (at_least_one pool_cfg.backends ≡ true)
        × (build parse pools h ≡ running p)
        × Serves pool_cfg h.next p
  unfolding build with_backends healthy new_http_proxy
  build-Serves [] h t = absurd (cc (t))
  build-Serves (pool_cfg ∷ rest) h t =
      let (some_backend, tags) = pool_tags-backends pool_cfg (ground arith) in
      let (h', e, m, _) = created pool_cfg.backends h tags in
      (
        pool_cfg,
        new_http_proxy round_robin h' (new_pool (from h.next (length pool_cfg.backends)))
            new_round_robin,
        refl,
        some_backend,
        ap with_backends e,
        record {
          members = refl;
          made_from = m;
          all_healthy = select-MadeFrom pool_cfg.backends h.next h' m;
          counter = refl;
          quiet = refl;
        },
      )

length-from : (n k : ℕ) → length (from n k) ≡ k
length-from n zero = refl
length-from n (suc k) = ap suc (length-from (suc n) k)

count-from_above : (q n k : ℕ) → q < n → count q (from n k) ≡ 0
count-from_above q n zero l = refl
count-from_above q n (suc k) l = ground (arith, count-from_above q (suc n) k (omega arith))

count-from : (i n k : ℕ) → i < k → count (n + i) (from n k) ≡ 1
count-from i n zero l = absurd (omega arith)
count-from zero n (suc k) l = ground (arith, count-from_above n (suc n) k (omega arith))
count-from (suc i) n (suc k) l =
    let e : suc n + i ≡ n + suc i = omega arith in
    subst (λ q. (if n == q then 1 else 0) + count q (from (suc n) k) ≡ 1) e
      (ground (arith, count-from i (suc n) k (omega arith)))

config_tags-pools :
    (is_url : Str → Bool) (cfg : Config)
    → config_tags is_url cfg ≡ true
    → (at_least_one cfg.pools && every (pool_tags is_url) cfg.pools) ≡ true
unfolding config_tags
config_tags-pools is_url cfg t = ground arith

module _ (is_url : Str → Bool) (parse : Str → Option Url) (parses : Parses is_url parse)
    (libraries : Libraries) (reads_tags : ReadsTags is_url libraries) where
  -- A configuration that is loaded is one that the program starts on, with neither an exit nor a
  -- panic: the pool has the backends of the first configured pool, at least one, in order, each of them healthy,
  -- idle and with its identifier and a positive weight, and no request is in flight.
  pub start-Serves :
      (path : Str) (cfg : Config) (h : Heap)
      → load libraries path ≡ inr cfg
      → (pool_cfg : PoolConfig) × (p : Proxy round_robin) × (get_elem? cfg.pools 0 ≡ some pool_cfg)
        × (at_least_one pool_cfg.backends ≡ true)
        × (start parse libraries path h ≡ running p)
        × Serves pool_cfg h.next p
  unfolding start with_config
  start-Serves path cfg h e =
      let tags = reads_tags cfg (load-struct libraries path cfg e) in
      let (pool_cfg, p, first, some_backend, run, serves) =
        build-Serves is_url parse parses cfg.pools h (config_tags-pools is_url cfg tags) in
      (pool_cfg, p, first, some_backend, ap (λ l. with_config parse l h) e ∙ run, serves)

-- Once the program serves a pool, of as many requests as the pool has backends, each backend gets one,
-- also if none of the requests ends.
pub Serves-fair :
    (pool_cfg : PoolConfig) (n i : ℕ) (p : Proxy round_robin) (rs : List Request)
    → Serves pool_cfg n p
    → i < length pool_cfg.backends
    → length rs ≡ length pool_cfg.backends
    → length pool_cfg.backends < two_63
    → received (n + i) (serve_all round_robin rs p) ≡ 1
unfolding new_round_robin
Serves-fair pool_cfg n i p rs s l e bound =
    let k = length pool_cfg.backends in
    let size : length (healthy p.heap p.pool) ≡ k = rw s.all_healthy (length-from n k) in
    serve_all-fair (n + i) 0 rs p (λ z. absurd (omega (arith, ap length z, size, l))) s.counter
      (e ∙ sym size) (omega (arith, e))
    ∙ ap (count (n + i)) s.all_healthy
    ∙ count-from i n k l
