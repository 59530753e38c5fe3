-- ===== src/Balancer/Cycle.antt =====
-- A counter taken modulo the length of a list goes round the list.
use native.Mathlib.Nat.{mod-lt, suc-add, zero-add}
use mathlib.Core.Path.{ap₂}
use mathlib.Core.List.{map-append}
use gobalancer.Common.{
  ℕ, zero, suc, ◌+◌, ◌-◌, ◌%◌, ◌≤◌, ◌<◌, ◌≡◌, refl, sym, ap, ◌∙◌, Option, some, List, [], ◌∷◌, ◌++◌,
  map, arith, length, get_elem?, take, drop, take-append-drop, length-drop, get_elem?_total,
  drop-get_elem?, take_all, count, count-append,
}

abbrev CycleAt : ℕ → ℕ → ℕ → Type 0
CycleAt k n i = k % n ≡ i

next_index : (k n i : ℕ) → CycleAt k n i → suc i < n → suc k % n ≡ suc i
next_index k n i e h = grind arith

wrap_index : (k n i : ℕ) → CycleAt k n i → i < n → (n - i + k) % n ≡ 0
wrap_index k n i e h = grind arith

module _ {ℓ} {A : Type ℓ} where
  -- The entries that `m` rounds of `xs[counter % len(xs)]; counter++` read, from the counter `k` on.
  unfoldable pub visits : ℕ → ℕ → List A → List (Option A)
  visits zero k xs = []
  visits (suc m) k xs = get_elem? xs (k % length xs) ∷ visits m (suc k) xs

  -- The list, read from a position on and round to it again.
  abbrev pub rotate : ℕ → List A → List A
  rotate i xs = drop i xs ++ take i xs

  visits_within :
      (m k i : ℕ) (xs : List A)
      → k % length xs ≡ i
      → i + m ≤ length xs
      → visits m k xs ≡ map some (take m (drop i xs))
  unfolding visits
  visits_within zero k i xs e h = refl
  visits_within (suc zero) k i xs e h =
      let (a, found) = get_elem?_total xs i (omega arith) in
      rw (e, found, drop-get_elem? xs i a found)
  visits_within (suc (suc m)) k i xs e h =
      let (a, found) = get_elem?_total xs i (omega arith) in
      rw (e, found, drop-get_elem? xs i a found)
        (ap (◌∷◌ (some a)) (
          visits_within (suc m) (suc k) (suc i) xs (next_index k (length xs) i e (omega arith))
            (omega arith)))

  rotate_nil : (i : ℕ) → rotate i [] ≡ let e : List A = [] in e
  rotate_nil zero = refl
  rotate_nil (suc i) = refl

  take-drop : (i : ℕ) (xs : List A) → take (length xs - i) (drop i xs) ≡ drop i xs
  take-drop i xs = rw (← length-drop i xs) (take_all (drop i xs))

  visits_split :
      (a b k : ℕ) (xs : List A) → visits (a + b) k xs ≡ visits a k xs ++ visits b (a + k) xs
  unfolding visits
  visits_split zero b k xs = rw (zero-add b, zero-add k)
  visits_split (suc a) b k xs =
      rw (suc-add a b, visits)
        (ap (◌∷◌ (get_elem? xs (k % length xs))) (
          visits_split a b (suc k) xs
          ∙ ap (λ n. visits a (suc k) xs ++ visits b n xs) (omega arith)))

  -- One full turn reads every entry once, in order from the counter's position on.
  pub visits_turn :
      (k : ℕ) (xs : List A) → visits (length xs) k xs ≡ map some (rotate (k % length xs) xs)
  unfolding visits
  visits_turn k [] = ap (map some) (sym (rotate_nil (k % 0)))
  visits_turn k (x ∷ xs) =
      let n : ℕ = suc (length xs) in
      let i : ℕ = k % n in
      let whole : n ≡ n - i + i = omega (arith, mod-lt k {m = n}) in
      let below : i < n = mod-lt k (omega arith) in
      let first : visits (n - i) k (x ∷ xs) ≡ map some (take (n - i) (drop i (x ∷ xs))) =
        visits_within (n - i) k i (x ∷ xs) refl (omega arith) in
      let second : visits i (n - i + k) (x ∷ xs) ≡ map some (take i (x ∷ xs)) =
        visits_within i (n - i + k) 0 (x ∷ xs) (wrap_index k n i refl below) (omega arith) in
      ap (λ m. visits m k (x ∷ xs)) whole
      ∙ visits_split (n - i) i k (x ∷ xs)
      ∙ ap₂ ◌++◌ (first ∙ ap (map some) (take-drop i (x ∷ xs))) second
      ∙ sym (map-append some (drop i (x ∷ xs)) (take i (x ∷ xs)))

pub count-rotate : (a i : ℕ) (xs : List ℕ) → count a (rotate i xs) ≡ count a xs
count-rotate a i xs = omega (
  arith,
  count-append a (drop i xs) (take i xs),
  count-append a (take i xs) (drop i xs),
  ap (count a) (take-append-drop i xs),
)
