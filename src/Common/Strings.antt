-- ===== src/Common/Strings.antt =====
-- Go strings as lists of bytes, and the functions of `strings` and `fmt` that the program calls.
use Prim.Native.Nat.{ℕ, zero, suc, ◌+◌, ◌/◌, ◌%◌, ◌<◌}
use mathlib.Core.Option
use Prim.Native.Char.{code}
use Prim.Native.String.{String}
use mathlib.Core.Path.{◌≡◌, refl, subst}
use mathlib.Core.Logic.{◌↔◌}
use mathlib.Core.Bool.{Bool, true, false, ◌&&◌, ◌||◌}
use mathlib.Core.List.{List, [], ◌∷◌, ◌++◌}
use mathlib.Core.Logic.{inl, inr}
use mathlib.Core.Option
use mathlib.Core.Option.{Option, none, some}
use native.Mathlib.Omega.{arith}
use gobalancer.Common.Tests.{◌==◌, ==_iff, ltb, if◌then◌else◌, Option-cases, Bool-cases}
use gobalancer.Common.Lists.{length, All}

abbrev pub Str : Type 0
Str = List ℕ

-- The bytes of an ASCII literal.
abbrev pub lit : String → Str
lit String.[] = []
lit (String.◌∷◌ c s) = code c ∷ lit s

unfoldable pub str_eq : Str → Str → Bool
str_eq [] [] = true
str_eq [] (y ∷ ys) = false
str_eq (x ∷ xs) [] = false
str_eq (x ∷ xs) (y ∷ ys) = x == y && str_eq xs ys

pub str_eq_iff : (a b : Str) → (str_eq a b ≡ true) ↔ (a ≡ b)
unfolding str_eq
str_eq_iff [] [] = (λ _. refl, λ _. refl)
str_eq_iff [] (y ∷ ys) = (λ h. cc, λ h. cc)
str_eq_iff (x ∷ xs) [] = (λ h. cc, λ h. cc)
str_eq_iff (x ∷ xs) (y ∷ ys) = ground (arith, str_eq_iff xs ys)

pub str_eq_refl : (a : Str) → str_eq a a ≡ true
str_eq_refl a = (str_eq_iff a a).1 refl

-- `s == ""`
abbrev pub is_empty : Str → Bool
is_empty [] = true
is_empty (_ ∷ _) = false

-- `strings.IndexByte` and `strings.LastIndexByte`, `none` for -1.
unfoldable pub index_byte : ℕ → Str → Option ℕ
index_byte c [] = none
index_byte c (x ∷ s) = if x == c then some 0 else Option.map suc (index_byte c s)

unfoldable pub last_index_byte : ℕ → Str → Option ℕ
last_index_byte c [] = none
last_index_byte c (x ∷ s) = elim (last_index_byte c s) [
  | some i ↦ some (suc i)
  | none ↦ if x == c then some 0 else none
]

unfoldable pub contains : ℕ → Str → Bool
contains c [] = false
contains c (x ∷ s) = x == c || contains c s

pub index_byte-lt : (c : ℕ) (s : Str) {i : ℕ} → index_byte c s ≡ some i → i < length s
unfolding index_byte
index_byte-lt c [] h = cc
index_byte-lt c (x ∷ s) h = elim (Option-cases (index_byte c s)) [
  | inl e ↦ ground (arith, e)
  | inr (k, e) ↦ ground (arith, e, index_byte-lt c s e)
]

pub last_index_byte-lt : (c : ℕ) (s : Str) {i : ℕ} → last_index_byte c s ≡ some i → i < length s
unfolding last_index_byte
last_index_byte-lt c [] h = cc
last_index_byte-lt c (x ∷ s) h = elim (Option-cases (last_index_byte c s)) [
  | inl e ↦ ground (arith, e)
  | inr (k, e) ↦ ground (arith, e, last_index_byte-lt c s e)
]

pub last_index_byte-none : (c : ℕ) (s : Str) → contains c s ≡ false → last_index_byte c s ≡ none
unfolding last_index_byte contains
last_index_byte-none c [] h = refl
last_index_byte-none c (x ∷ s) h = ground (arith, last_index_byte-none c s)

pub contains-append : (c : ℕ) (s t : Str) → contains c (s ++ t) ≡ (contains c s || contains c t)
unfolding contains
contains-append c [] t = refl
contains-append c (x ∷ s) t = ground (arith, contains-append c s t)

pub All-contains {ℓ} : (P : ℕ → Type ℓ) (s : Str) (c : ℕ) → All P s → contains c s ≡ true → P c
unfolding contains
All-contains P [] c a h = absurd (cc)
All-contains P (x ∷ s) c (p, a) h = elim (Bool-cases (x == c)) [
  | inl e ↦ subst P ((==_iff x c).0 e) p
  | inr n ↦ All-contains P s c a (rw n at h)
]

-- Decimal digits, as `%d` prints them; as much fuel as the number is enough.
decimal_from : ℕ → ℕ → Str → Str
decimal_from zero n acc = acc
decimal_from (suc f) n acc =
    let rest = decimal_from f (n / 10) ((b'0' + n % 10) ∷ acc) in
    if ltb n 10 then (b'0' + n) ∷ acc else rest

unfoldable pub decimal : ℕ → Str
unfolding decimal_from
decimal n = decimal_from (suc n) n []
