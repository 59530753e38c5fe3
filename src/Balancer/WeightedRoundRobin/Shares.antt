-- ===== src/Balancer/WeightedRoundRobin/Shares.antt =====
-- How weightedrr.go shares the calls out, and what it picks when its slots are out of date.
use gobalancer.Common.{
  ℕ, zero, suc, ◌+◌, ◌*◌, ◌%◌, ◌<◌, ◌≡◌, refl, sym, ap, ◌∙◌, ◌≢◌, ◌⊎◌, inl, inr, true, Option, none,
  some, List, [], ◌∷◌, map, Memᴰ, arith, ◌==◌, if◌then◌else◌, Bool-cases, length, get_elem?, take,
  drop, replicate, length-append, length-replicate, get_elem?_total, get_elem?-mem, All-append,
  All-take, All-drop, All-replicate, All-mem, All, count, count-append, ℤ, pos, negsuc, two_63,
  add64_one, index,
}
use native.Mathlib.Decide.{ℕ_discrete}
use native.Mathlib.Nat.{mod-lt}
use gobalancer.Backend.{Heap, Ref, is_healthy}
use gobalancer.Balancer.{chosen, is_nil, picks, picks-chosen}
use gobalancer.Balancer.Cycle.{visits, rotate, visits_turn, count-rotate}
use gobalancer.Balancer.RoundRobin.{sub64-add64}
use gobalancer.Balancer.WeightedRoundRobin.{
  WeightedRoundRobin, slot_count, expand, with_slots, first_healthy, serve_slot, take_turn, next,
  run,
}

count-replicate : (a b n : ℕ) → count a (replicate n b) ≡ (if b == a then n else 0)
count-replicate a b zero = ground arith
count-replicate a b (suc n) = ground (arith, count-replicate a b n)

-- The table has as many slots of a backend as its weight, or one if the weight is not positive, for
-- each time that the list holds it.
pub count-expand :
    (h : Heap) (r : Ref) (bs : List Ref) → count r (expand h bs) ≡ slot_count h r * count r bs
unfolding expand
count-expand h r [] = omega arith
count-expand h r (b ∷ bs) =
    let split : count r (expand h (b ∷ bs))
        ≡ count r (replicate (slot_count h b) b) + count r (expand h bs) =
      count-append r (replicate (slot_count h b) b) (expand h bs) in
    elim (ℕ_discrete b r) [
      | yes e ↦
          rw (split, count-replicate r b (slot_count h b), count-expand h r bs, e) (ground arith)
      | no n ↦
          rw (split, count-replicate r b (slot_count h b), count-expand h r bs) (ground (arith, n))
    ]

chosen_eq : {q r : Ref} → chosen q ≡ chosen r → r ≡ q
chosen_eq e = cc

first_healthy-healthy :
    (h : Heap) (bs : List Ref) {r : Ref}
    → first_healthy h bs ≡ chosen r
    → (is_healthy h r ≡ true) × Memᴰ r bs
unfolding first_healthy
first_healthy-healthy h [] e = absurd (cc)
first_healthy-healthy h (b ∷ bs) {r} e = elim (Bool-cases (is_healthy h b)) [
  | inl y ↦ let same : r ≡ b = chosen_eq (rw y at e) in (rw same y, Memᴰ.head same)
  | inr n ↦ let (y, m) = first_healthy-healthy h bs (rw n at e) in (y, Memᴰ.tail m)
]

serve_slot-healthy :
    (h : Heap) (bs : List Ref) (o : Option Ref) {r : Ref}
    → serve_slot h bs o ≡ chosen r
    → (is_healthy h r ≡ true) × ((o ≡ some r) ⊎ Memᴰ r bs)
unfolding serve_slot
serve_slot-healthy h bs none e = absurd (cc)
serve_slot-healthy h bs (some b) {r} e = elim (Bool-cases (is_healthy h b)) [
  | inl y ↦ let same : r ≡ b = chosen_eq (rw y at e) in (rw same y, inl (ap some (sym same)))
  | inr n ↦ let (y, m) = first_healthy-healthy h bs (rw n at e) in (y, inr m)
]

index-mem : (xs : List Ref) (i : ℤ) {r : Ref} → index xs i ≡ some r → Memᴰ r xs
index-mem xs (pos i) e = get_elem?-mem xs i _ e
index-mem xs (negsuc i) e = absurd (cc)

-- Whatever the slots hold, a backend that is picked is healthy, and is a slot or one of the
-- backends that were passed.
pub next-healthy :
    (h : Heap) (w : WeightedRoundRobin) (bs : List Ref) {r : Ref}
    → (next h w bs).0 ≡ chosen r
    → (is_healthy h r ≡ true) × (Memᴰ r (with_slots h bs w).slots ⊎ Memᴰ r bs)
unfolding next
next-healthy h w bs {r} e = elim (Bool-cases (is_nil (with_slots h bs w).slots)) [
  | inl y ↦ absurd (cc (ap (λ c. c) (rw y at e)))
  | inr n ↦
      let (y, where_from) = serve_slot-healthy h bs _ (rw n at e) in
      (y, elim where_from [ inl s ↦ inl (index-mem _ _ s) | inr m ↦ inr m ])
]

abbrev pub at_slot : List Ref → ℕ → WeightedRoundRobin
at_slot xs k = record { slots = xs; counter = pos k }

next_pos :
    (h : Heap) (k : ℕ) (xs bs : List Ref)
    → xs ≢ []
    → suc k < two_63
    → next h (at_slot xs k) bs
      ≡ (serve_slot h bs (get_elem? xs (k % length xs)), at_slot xs (suc k))
unfolding next with_slots
next_pos h k [] bs ne l = absurd (ne refl)
next_pos h k (x ∷ xs) bs ne l = rw (sub64-add64 (pos k) (omega arith, omega arith), add64_one k l)

run-visits :
    (m k : ℕ) (h : Heap) (xs bs : List Ref)
    → xs ≢ []
    → k + m < two_63
    → run m h (at_slot xs k) bs ≡ map (serve_slot h bs) (visits m k xs)
unfolding run visits
run-visits zero k h xs bs ne l = refl
run-visits (suc m) k h xs bs ne l = rw (next_pos h k xs bs ne (omega arith)) (
    ap (◌∷◌ (serve_slot h bs (get_elem? xs (k % length xs))))
      (run-visits m (suc k) h xs bs ne (omega arith)))

-- The slots are served as they are where all of them are healthy.
abbrev pub AllHealthy : Heap → List Ref → Type 0
AllHealthy h = All (λ r. is_healthy h r ≡ true)

serve_healthy :
    (h : Heap) (bs ys : List Ref)
    → AllHealthy h ys
    → map (serve_slot h bs) (map some ys) ≡ map chosen ys
unfolding serve_slot
serve_healthy h bs [] a = refl
serve_healthy h bs (y ∷ ys) (p, a) = rw (p, serve_healthy h bs ys a)

AllHealthy-expand : (h : Heap) (bs : List Ref) → AllHealthy h bs → AllHealthy h (expand h bs)
unfolding expand
AllHealthy-expand h [] a = tt
AllHealthy-expand h (b ∷ bs) (p, a) =
    All-append _ (replicate (slot_count h b) b) (expand h bs) (All-replicate _ (slot_count h b) b p)
      (AllHealthy-expand h bs a)

with_slots_built :
    (h : Heap) (k : ℕ) (bs : List Ref)
    → with_slots h bs (at_slot [] k) ≡ with_slots h bs (at_slot (expand h bs) k)
unfolding with_slots
with_slots_built h k bs = elim (Bool-cases (is_nil (expand h bs))) [ inl y ↦ rw y | inr n ↦ rw n ]

next_first :
    (h : Heap) (k : ℕ) (bs : List Ref)
    → next h (at_slot [] k) bs ≡ next h (at_slot (expand h bs) k) bs
unfolding next
next_first h k bs = ap (take_turn h bs) (with_slots_built h k bs)

run_first :
    (m : ℕ) (h : Heap) (k : ℕ) (bs : List Ref)
    → run (suc m) h (at_slot [] k) bs ≡ run (suc m) h (at_slot (expand h bs) k) bs
unfolding run
run_first m h k bs = ap (λ t. t.0 ∷ run m h t.1 bs) (next_first h k bs)

length-expand : (h : Heap) (b : Ref) (bs : List Ref) → 0 < length (expand h (b ∷ bs))
unfolding expand
length-expand h b bs = ground (
  arith,
  length-append (replicate (slot_count h b) b) (expand h bs),
  length-replicate (slot_count h b) b,
)

run_built :
    (m : ℕ) (h : Heap) (k : ℕ) (bs : List Ref)
    → 0 < m
    → run m h (at_slot [] k) bs ≡ run m h (at_slot (expand h bs) k) bs
run_built zero h k bs l = absurd (omega arith)
run_built (suc m) h k bs l = run_first m h k bs

-- While every backend is healthy and the counter stays below 2^63, as many calls as there are slots
-- pick each backend as often as its weight says, for each time that the list holds it. The first
-- of the calls builds the slots.
pub run_shares :
    (h : Heap) (k : ℕ) (bs : List Ref) (r : Ref)
    → AllHealthy h bs
    → k + length (expand h bs) < two_63
    → picks r (run (length (expand h bs)) h (at_slot [] k) bs) ≡ slot_count h r * count r bs
unfolding run
run_shares h k [] r a l = unfold expand in omega arith
run_shares h k (b ∷ bs) r a l =
    let xs : List Ref = expand h (b ∷ bs) in
    let i : ℕ = k % length xs in
    let some_slot : 0 < length xs = length-expand h b bs in
    ap (picks r) (
      run_built (length xs) h k (b ∷ bs) some_slot
      ∙ run-visits (length xs) k h xs (b ∷ bs) (λ e. absurd (omega (arith, ap length e))) l
      ∙ ap (map (serve_slot h (b ∷ bs))) (visits_turn k xs)
      ∙ serve_healthy h (b ∷ bs) (rotate i xs) (
          All-append _ (drop i xs) (take i xs) (All-drop _ i xs (AllHealthy-expand h (b ∷ bs) a))
            (All-take _ i xs (AllHealthy-expand h (b ∷ bs) a))))
    ∙ picks-chosen r (rotate i xs)
    ∙ count-rotate r i xs
    ∙ count-expand h r (b ∷ bs)

-- With slots built, all of them healthy, and a counter that is not negative and below 2^63 - 1,
-- one slot is picked whatever backends are passed: a backend that has left the pool goes on being
-- picked.
pub next_ignores_backends :
    (h : Heap) (k : ℕ) (xs : List Ref)
    → xs ≢ []
    → suc k < two_63
    → AllHealthy h xs
    → (r : Ref) × Memᴰ r xs × ((bs : List Ref) → (next h (at_slot xs k) bs).0 ≡ chosen r)
unfolding serve_slot
next_ignores_backends h k [] ne l a = absurd (ne refl)
next_ignores_backends h k (x ∷ xs) ne l a =
    let (r, found) = get_elem?_total (x ∷ xs) (k % suc (length xs)) (mod-lt k (omega arith)) in
    let member : Memᴰ r (x ∷ xs) = get_elem?-mem _ _ r found in
    (
      r,
      member,
      λ bs.
          ap (λ t. t.0) (next_pos h k (x ∷ xs) bs ne l)
          ∙ ap (serve_slot h bs) found
          ∙ rw (All-mem _ (x ∷ xs) a member),
    )
