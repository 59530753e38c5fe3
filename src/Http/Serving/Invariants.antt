-- ===== src/Http/Serving/Invariants.antt =====
-- Invariants between a forwarding wrapper and the response of its connection.
use gobalancer.Common.{
  ℕ, zero, suc, ◌+◌, min, ◌≡◌, refl, sym, ◌∙◌, ◌⊎◌, inl, inr, Bool, false, some, [], ◌∷◌, ◌++◌,
  arith, Bool-cases, Option-cases, length, take, length-append, Str,
}
use gobalancer.Http.{Header, header_get}
use gobalancer.Http.Serving.{
  Serving, returns, panics, gets, sets, deletes, writes_header, writes, emits, Wrapper, Response,
  commit, ready, send, serves, sent, informational, Event,
}
use gobalancer.Http.Serving.Laws.{Forwards, observed}

module _ (takes : Response → Str → ℕ × Bool) where
  -- A relation that every call keeps.
  pub record Kept {W : Type 0} {wrapper : Wrapper W} (fw : Forwards wrapper)
      (I : W → Response → Type 0) : Type 0 where
    pub on_header : (w : W) (r : Response) (h : Header) → I w r → I w (record r { header = h })
    pub on_event :
        (w : W) (r : Response) (e : Event) → I w r → I w (record r { events = r.events ++ e ∷ [] })
    pub on_commit : (w : W) (r : Response) (n : ℕ) → I w r → I (fw.on_code w n) (commit n r)
    pub on_send :
        (w : W) (r : Response) (s : Str)
        → I w r
        → I (fw.on_write w s (send takes s r).0) (send takes s r).1

  module _ {W : Type 0} {wrapper : Wrapper W} (fw : Forwards wrapper) (I : W → Response → Type 0)
      (kept : Kept fw I) where
    pub observed-Kept :
        {A : Type 0} (c : Serving A) (w : W) (r : Response)
        → I w r
        → I (observed takes fw c w r) (serves takes c r).1
    unfolding observed serves
    observed-Kept (returns a) w r i = i
    observed-Kept panics w r i = i
    observed-Kept (gets k c) w r i = observed-Kept (c (header_get r.header k)) w r i
    observed-Kept (sets k v c) w r i = observed-Kept c w _ (kept.on_header w r _ i)
    observed-Kept (deletes k c) w r i = observed-Kept c w _ (kept.on_header w r _ i)
    observed-Kept (writes_header n c) w r i = observed-Kept c _ _ (kept.on_commit w r n.code i)
    observed-Kept (writes s c) w r i =
        observed-Kept (c (send takes s r).0) _ _ (kept.on_send w r s i)
    observed-Kept (emits e c) w r i = observed-Kept c w _ (kept.on_event w r e i)

-- A status agrees with the one that goes out, unless `WriteHeader` was called behind the final one: it
-- is that status or, where the final one is 200 without a call of `WriteHeader`, the informational one
-- that went out last.
abbrev pub StatusAgrees : ℕ → Response → Type 0
StatusAgrees code r =
    r.superfluous ≡ false → (code ≡ (sent r).0) ⊎ ((r.informed ≡ some code) × ((sent r).0 ≡ 200))

agrees_as :
    (code : ℕ) (r q : Response)
    → q.superfluous ≡ r.superfluous
    → q.informed ≡ r.informed
    → (sent q).0 ≡ (sent r).0
    → StatusAgrees code r
    → StatusAgrees code q
unfolding sent
agrees_as code r q a b c i u = rw (b, c) (i (sym a ∙ u))

pub StatusAgrees-commit :
    (code n : ℕ) (r : Response) → StatusAgrees code r → StatusAgrees n (commit n r)
unfolding commit sent
StatusAgrees-commit code n r i u = elim (Option-cases r.committed) [
  | inl e ↦ elim (Bool-cases (informational n)) [
    | inl y ↦ inr (ground (arith, e, y), ground (arith, e, y))
    | inr m ↦ inl (ground (arith, e, m))
  ]
  | inr (c, e) ↦ absurd (ground (arith, e, u))
]

sent-send :
    (takes : Response → Str → ℕ × Bool) (s : Str) (r : Response)
    → ((send takes s r).1.superfluous ≡ r.superfluous)
      × ((send takes s r).1.informed ≡ r.informed)
      × ((sent (send takes s r).1).0 ≡ (sent r).0)
unfolding commit sent send ready
sent-send takes s r = elim (Option-cases r.committed) [
  | inl e ↦ (ground (arith, e), ground (arith, e), ground (arith, e))
  | inr (c, e) ↦ (ground (arith, e), ground (arith, e), ground (arith, e))
]

pub StatusAgrees-send :
    (takes : Response → Str → ℕ × Bool) (code : ℕ) (s : Str) (r : Response)
    → StatusAgrees code r
    → StatusAgrees code (send takes s r).1
StatusAgrees-send takes code s r i =
    let (a, b, c) = sent-send takes s r in agrees_as code r (send takes s r).1 a b c i

length-take : (n : ℕ) (s : Str) → length (take n s) ≡ min n (length s)
length-take zero s = omega arith
length-take (suc n) [] = omega arith
length-take (suc n) (x ∷ s) = omega (arith, length-take n s)

pub ready-body : (r : Response) → (ready r).body ≡ r.body
unfolding ready commit
ready-body r = elim (Option-cases r.committed) [
  | inl e ↦ ground (arith, e)
  | inr (c, e) ↦ ground (arith, e)
]

-- The bytes that `Write` answered with are those in the body.
pub send-length :
    (takes : Response → Str → ℕ × Bool) (s : Str) (r : Response)
    → length (send takes s r).1.body ≡ length r.body + (send takes s r).0.0
unfolding send ready commit
send-length takes s r =
    rw (length-append (ready r).body (take (takes (ready r) s).0 s), ready-body r)
      (omega (arith, length-take (takes (ready r) s).0 s))

sent-header : (h : Header) (r : Response) → (sent (record r { header = h })).0 ≡ (sent r).0
unfolding sent
sent-header h r = elim (Option-cases r.committed) [
  | inl e ↦ ground (arith, e)
  | inr (c, e) ↦ ground (arith, e)
]

pub StatusAgrees-header :
    (code : ℕ) (h : Header) (r : Response)
    → StatusAgrees code r
    → StatusAgrees code (record r { header = h })
StatusAgrees-header code h r i =
    agrees_as code r (record r { header = h }) refl refl (sent-header h r) i

pub commit-body : (n : ℕ) (r : Response) → (commit n r).body ≡ r.body
unfolding commit
commit-body n r = elim (Option-cases r.committed) [
  | inl e ↦ ground (arith, e)
  | inr (c, e) ↦ ground (arith, e)
]
