-- ===== src/Balancer/RoundRobin.antt =====
-- internal/balancer/roundrobin.go. `int` has 64 bits, as on the platforms that the program is
-- built for.
use gobalancer.Common.{
  ℕ, zero, suc, ◌+◌, ◌%◌, ◌<◌, ◌≡◌, refl, ap, ◌∙◌, ◌≢◌, ◌⊎◌, inl, inr, some, List, [], ◌∷◌, map,
  Memᴰ, arith, if◌then◌else◌, length, get_elem?, get_elem?_total, get_elem?-mem, count, ℤ, pos,
  negsuc, neg_part, ◌≤ℤ◌, ◌<ℤ◌, two_63, add64, sub64, IsInt64, add64_one, rem_ℤ, index,
}
use gobalancer.Backend.{Ref}
use gobalancer.Balancer.{Choice, chosen, no_backends, panic, of_index, is_nil, picks, picks-chosen}
use native.Mathlib.Nat.{mod-lt}
use native.Mathlib.Decide.{ℕ_discrete}
use gobalancer.Balancer.Cycle.{visits, rotate, visits_turn, count-rotate}

pub record RoundRobin : Type 0 where
  pub counter : ℤ  -- int64

unfoldable pub new_round_robin : RoundRobin
new_round_robin = record { counter = pos 0 }

unfoldable pub next : RoundRobin → List Ref → Choice × RoundRobin
unfolding add64 sub64
next rr backends =
    let n = length backends in
    let counter = add64 rr.counter (pos 1) in
    let idx = rem_ℤ (sub64 counter (pos 1)) n in
    if is_nil backends
    then (no_backends, rr)
    else (of_index (index backends idx), record { counter = counter })

-- The choices of `m` calls with the same backends.
unfoldable pub run : ℕ → RoundRobin → List Ref → List Choice
run zero rr bs = []
run (suc m) rr bs = let (c, rr') = next rr bs in c ∷ run m rr' bs

pub sub64-add64 : (a : ℤ) → IsInt64 a → sub64 (add64 a (pos 1)) (pos 1) ≡ a
unfolding add64 sub64
sub64-add64 (pos n) h = ground arith
sub64-add64 (negsuc n) h = ground arith

next_pos :
    (k : ℕ) (bs : List Ref)
    → bs ≢ []
    → suc k < two_63
    → next (record { counter = pos k }) bs
      ≡ (of_index (get_elem? bs (k % length bs)), record { counter = pos (suc k) })
unfolding next
next_pos k [] ne h = absurd (ne refl)
next_pos k (b ∷ bs) ne h = rw (sub64-add64 (pos k) (omega arith, omega arith), add64_one k h)

run-visits :
    (m k : ℕ) (bs : List Ref)
    → bs ≢ []
    → k + m < two_63
    → run m (record { counter = pos k }) bs ≡ map of_index (visits m k bs)
unfolding run visits
run-visits zero k bs ne h = refl
run-visits (suc m) k bs ne h =
    rw (next_pos k bs ne (omega arith)) (
      ap (◌∷◌ (of_index (get_elem? bs (k % length bs)))) (run-visits m (suc k) bs ne (omega arith)))

pub of_index-some : (rs : List Ref) → map of_index (map some rs) ≡ map chosen rs
of_index-some [] = refl
of_index-some (r ∷ rs) = ap (◌∷◌ (chosen r)) (of_index-some rs)

-- From a counter that is not negative and does not reach 2^63, as many calls as there are backends
-- pick each position of the list once, in order, beginning at the counter modulo their number.
pub run_turn :
    (k : ℕ) (bs : List Ref)
    → bs ≢ []
    → k + length bs < two_63
    → run (length bs) (record { counter = pos k }) bs ≡ map chosen (rotate (k % length bs) bs)
run_turn k bs ne h =
    run-visits (length bs) k bs ne h
    ∙ ap (map of_index) (visits_turn k bs)
    ∙ of_index-some (rotate (k % length bs) bs)

-- From a counter that is not negative and does not reach 2^63 within the calls, as many calls as
-- there are backends pick each backend as often as the list holds it.
pub run_fair :
    (k : ℕ) (bs : List Ref) (r : Ref)
    → bs ≢ []
    → k + length bs < two_63
    → picks r (run (length bs) (record { counter = pos k }) bs) ≡ count r bs
run_fair k bs r ne h =
    ap (picks r) (run_turn k bs ne h)
    ∙ picks-chosen r (rotate (k % length bs) bs)
    ∙ count-rotate r (k % length bs) bs

index_total :
    (i n : ℕ) (bs : List Ref)
    → length bs ≡ suc n
    → (r : Ref) × Memᴰ r bs × (get_elem? bs (i % suc n) ≡ some r)
index_total i n bs e =
    let (r, found) = get_elem?_total bs (i % suc n) (omega (arith, mod-lt i {m = suc n})) in
    (r, get_elem?-mem bs (i % suc n) r found, found)

-- What one call does with the counter's value and the length of the list.
abbrev pub Outcome : ℤ → List Ref → Choice → Type 0
Outcome a bs c =
    ((bs ≡ []) × (c ≡ no_backends))
    ⊎ ((r : Ref) × Memᴰ r bs × (c ≡ chosen r) × ((pos 0 ≤ℤ a) ⊎ (neg_part a % length bs ≡ 0)))
    ⊎ ((c ≡ panic) × (a <ℤ pos 0) × (neg_part a % length bs ≢ 0))

pick_Outcome :
    (a : ℤ) (b : Ref) (bs : List Ref)
    → Outcome a (b ∷ bs) (of_index (index (b ∷ bs) (rem_ℤ a (suc (length bs)))))
pick_Outcome (pos k) b bs =
    let (r, m, e) = index_total k (length bs) (b ∷ bs) refl in
    inr (inl (r, m, ap of_index e, inl (omega arith)))
pick_Outcome (negsuc k) b bs = elim (ℕ_discrete (suc k % suc (length bs)) 0) [
  | yes e ↦ inr (inl (b, Memᴰ.head refl, rw e refl, inr e))
  | no n ↦ inr (inr (ground (arith, n), omega arith, n))
]

-- One call, for every value of the counter: an empty list is the error; a member is picked if the
-- counter is not negative, or the length divides it; any other negative counter is an index out of
-- range.
pub next_total :
    (rr : RoundRobin) (bs : List Ref) → IsInt64 rr.counter → Outcome rr.counter bs (next rr bs).0
unfolding next
next_total rr [] v = inl (refl, refl)
next_total rr (b ∷ bs) v = rw (sub64-add64 rr.counter v) (pick_Outcome rr.counter b bs)
