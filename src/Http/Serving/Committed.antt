-- ===== src/Http/Serving/Committed.antt =====
-- What has gone out stays.
use gobalancer.Common.{
  ℕ, ◌≡◌, refl, inl, inr, Bool, true, false, none, some, arith, Option-cases, Str,
}
use gobalancer.Http.{Header, header_get}
use gobalancer.Http.Serving.{
  Serving, returns, panics, gets, sets, deletes, writes_header, writes, emits, Response, serves,
  send, commit, ready, sent, informational,
}

module _ (takes : Response → Str → ℕ × Bool) where
  pub sent_committed : (w : Response) {c : ℕ × Header} → w.committed ≡ some c → sent w ≡ c
  unfolding sent
  sent_committed w e = rw e refl

  pub commit_committed :
      (n : ℕ) (w : Response) {c : ℕ × Header}
      → w.committed ≡ some c
      → (commit n w).committed ≡ some c
  unfolding commit
  commit_committed n w {c} e = ground (arith, e)

  pub send_committed :
      (s : Str) (w : Response) {c : ℕ × Header}
      → w.committed ≡ some c
      → (send takes s w).1.committed ≡ some c
  unfolding send ready
  send_committed s w {c} e = ground (arith, e)

  pub commit_informs :
      (n : ℕ) (w : Response)
      → w.committed ≡ none
      → informational n ≡ true
      → commit n w ≡ record w { informed = some n }
  unfolding commit
  commit_informs n w e y = ground (arith, e, y)

  pub commit_first :
      (n : ℕ) (w : Response)
      → w.committed ≡ none
      → informational n ≡ false
      → (commit n w).committed ≡ some (n, w.header)
  unfolding commit
  commit_first n w e y = ground (arith, e, y)

  pub send_first :
      (s : Str) (w : Response)
      → w.committed ≡ none
      → (send takes s w).1.committed ≡ some (200, w.header)
  unfolding send ready commit
  send_first s w e = ground (arith, e)

  -- Once the header has gone out, it stays.
  pub serves_committed :
      {A : Type 0} (m : Serving A) (w : Response) {c : ℕ × Header}
      → w.committed ≡ some c
      → (serves takes m w).1.committed ≡ some c
  unfolding serves
  serves_committed (returns a) w e = e
  serves_committed panics w e = e
  serves_committed (gets k f) w e = serves_committed (f (header_get w.header k)) w e
  serves_committed (sets k v m) w e = serves_committed m _ e
  serves_committed (deletes k m) w e = serves_committed m _ e
  serves_committed (writes_header n m) w e = serves_committed m _ (commit_committed n.code w e)
  serves_committed (writes s f) w e =
      serves_committed (f (send takes s w).0) _ (send_committed s w e)
  serves_committed (emits x m) w e = serves_committed m _ e

  -- Bytes that are sent leave the header that the client would get without them.
  pub send-sent : (s : Str) (w : Response) → (sent (send takes s w).1).1 ≡ (sent w).1
  unfolding sent send
  send-sent s w = elim (Option-cases w.committed) [
    | inl e ↦ rw (send_first s w e, e) refl
    | inr (c, e) ↦ rw (send_committed s w e, e) refl
  ]
