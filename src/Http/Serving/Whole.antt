-- ===== src/Http/Serving/Whole.antt =====
-- The status and the body of a response on a connection that takes every byte.
use gobalancer.Common.{
  ℕ, min, ◌≡◌, refl, sym, ap, ◌∙◌, inl, inr, Bool, false, Option, none, some, ◌++◌, arith,
  if◌then◌else◌, Option-cases, length, take_all, Str,
}
use gobalancer.Http.Serving.{Response, send, commit, ready, sent, informational}
use gobalancer.Http.Serving.Invariants.{ready-body}

-- A connection that takes every byte.
unfoldable pub takes_all : Response → Str → ℕ × Bool
takes_all w s = (length s, false)

unfoldable pub status_of : Response → Option ℕ
status_of w = elim w.committed [ none ↦ none | some c ↦ some c.0 ]

-- What a call of `WriteHeader` makes of the status.
pub status_after : ℕ → Option ℕ → Option ℕ
status_after n none = if informational n then none else some n
status_after n (some m) = some m

pub status_of-commit :
    (n : ℕ) (w : Response) → status_of (commit n w) ≡ status_after n (status_of w)
unfolding commit status_of status_after
status_of-commit n w = elim (Option-cases w.committed) [
  | inl e ↦ ground (arith, e)
  | inr (c, e) ↦ ground (arith, e)
]

status_of-ready :
    (w : Response) → status_of (ready w) ≡ some (elim (status_of w) [ none ↦ 200 | some n ↦ n ])
unfolding commit ready status_of
status_of-ready w = elim (Option-cases w.committed) [
  | inl e ↦ ground (arith, e)
  | inr (c, e) ↦ ground (arith, e)
]

pub send-takes_all : (s : Str) (w : Response) → (send takes_all s w).1.body ≡ w.body ++ s
unfolding send takes_all
send-takes_all s w = rw (ready-body w, take_all s) refl

pub send_answer : (s : Str) (w : Response) → (send takes_all s w).0 ≡ (length s, false)
unfolding send takes_all
send_answer s w = let e : min (length s) (length s) ≡ length s = omega arith in rw e refl

status_of-sent :
    (s : Str) (w : Response)
    → status_of (send takes_all s w).1 ≡ some (elim (status_of w) [ none ↦ 200 | some n ↦ n ])
unfolding send status_of takes_all
status_of-sent s w = status_of-ready w

pub status_of-send :
    (s t : Str) (w p : Response)
    → status_of w ≡ status_of p
    → status_of (send takes_all s w).1 ≡ status_of (send takes_all t p).1
unfolding send status_of takes_all
status_of-send s t w p e =
    status_of-ready w
    ∙ ap (λ o. some (elim o [ none ↦ 200 | some n ↦ n ])) e
    ∙ sym (status_of-sent t p)

pub sent-status_of : (w : Response) → (sent w).0 ≡ elim (status_of w) [ none ↦ 200 | some n ↦ n ]
unfolding sent status_of
sent-status_of w = elim (Option-cases w.committed) [
  | inl e ↦ ground (arith, e)
  | inr (c, e) ↦ ground (arith, e)
]

-- Bytes that are sent leave the status that the client would get without them.
pub sent-send : (s : Str) (w : Response) → (sent (send takes_all s w).1).0 ≡ (sent w).0
sent-send s w =
    let e : status_of (send takes_all s w).1
        ≡ some (elim (status_of w) [ none ↦ 200 | some n ↦ n ]) =
      status_of-sent s w in
    sent-status_of (send takes_all s w).1 ∙ rw e (sym (sent-status_of w))
