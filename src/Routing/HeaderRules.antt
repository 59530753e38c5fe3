-- ===== src/Routing/HeaderRules.antt =====
-- internal/routing/header.go. A compiled pattern is `matches`, the method `MatchString`.
use gobalancer.Common.{
  ◌≡◌, refl, sym, ap, subst, ◌⊎◌, inl, inr, Bool, true, false, Option, none, some, List, [], ◌∷◌,
  ◌++◌, if◌then◌else◌, Bool-cases, All, Str, str_eq, is_empty,
}
use mathlib.Core.Option
use gobalancer.Http.{Request, header_get}

pub record HeaderRule : Type 0 where
  pub header : Str
  pub value : Str
  pub matches : Option (Str → Bool)
  pub pool : Str

pub record HeaderRouter : Type 0 where
  pub rules : List HeaderRule

unfoldable pub new_header_router : HeaderRouter
new_header_router = record { rules = [] }

unfoldable pub add_exact : Str → Str → Str → HeaderRouter → HeaderRouter
add_exact header value pool hr = record {
  rules = hr.rules ++ (record { header = header; value = value; matches = none; pool = pool }) ∷ [];
}

-- `compile` is `regexp.Compile`, `none` its error.
unfoldable pub add_regex :
    (Str → Option (Str → Bool)) → Str → Str → Str → HeaderRouter → Option HeaderRouter
add_regex compile header pattern pool hr =
    Option.map
      (λ re. record {
        rules =
            hr.rules
            ++ (record { header = header; value = []; matches = some re; pool = pool }) ∷ [];
      })
      (compile pattern)

abbrev accepts : Option (Str → Bool) → Str → Str → Bool
unfolding str_eq
accepts none value val = str_eq val value
accepts (some re) value val = re val

-- The body of the loop: whether a rule matches.
unfoldable pub rule_matches : Request → HeaderRule → Bool
unfolding header_get accepts
rule_matches r rule =
    let val = header_get r.header rule.header in
    if is_empty val then false else accepts rule.matches rule.value val

unfoldable pub find_rule : Request → List HeaderRule → Option Str
unfolding rule_matches
find_rule r [] = none
find_rule r (rule ∷ rules) = if rule_matches r rule then some rule.pool else find_rule r rules

unfoldable pub find : Request → HeaderRouter → Option Str
unfolding find_rule
find r hr = find_rule r hr.rules

-- The first rule that matches.
pub record First (r : Request) (rules : List HeaderRule) (pool : Str) : Type 0 where
  pub before : List HeaderRule
  pub rule : HeaderRule
  pub behind : List HeaderRule
  pub split : rules ≡ before ++ rule ∷ behind
  pub skipped : All (λ q. rule_matches r q ≡ false) before
  pub hit : rule_matches r rule ≡ true
  pub named : rule.pool ≡ pool

abbrev Found : Request → List HeaderRule → Option Str → Type 0
Found r rules o =
    ((pool : Str) × (o ≡ some pool) × First r rules pool)
    ⊎ ((o ≡ none) × All (λ q. rule_matches r q ≡ false) rules)

later_rule :
    (r : Request) (rule : HeaderRule) (rules : List HeaderRule) (o : Option Str)
    → rule_matches r rule ≡ false
    → Found r rules o
    → Found r (rule ∷ rules) o
later_rule r rule rules o n (inr (e, a)) = inr (e, (n, a))
later_rule r rule rules o n (inl (pool, e, f)) = inl (
  pool,
  e,
  record {
    before = rule ∷ f.before;
    rule = f.rule;
    behind = f.behind;
    split = ap (λ l. rule ∷ l) f.split;
    skipped = (n, f.skipped);
    hit = f.hit;
    named = f.named;
  },
)

find_rule-Found : (r : Request) (rules : List HeaderRule) → Found r rules (find_rule r rules)
unfolding find_rule
find_rule-Found r [] = inr (refl, tt)
find_rule-Found r (rule ∷ rules) = elim (Bool-cases (rule_matches r rule)) [
  | inl y ↦ inl (
    rule.pool,
    rw y refl,
    record {
      before = [];
      rule = rule;
      behind = rules;
      split = refl;
      skipped = tt;
      hit = y;
      named = refl;
    },
  )
  | inr n ↦
      let on : find_rule r (rule ∷ rules) ≡ find_rule r rules = rw n refl in
      subst (Found r (rule ∷ rules)) (sym on)
        (later_rule r rule rules (find_rule r rules) n (find_rule-Found r rules))
]

-- The pool is that of the first rule, in the order of their registration, that matches the headers,
-- and there is none exactly if no rule matches.
pub find-First :
    (r : Request) (hr : HeaderRouter)
    → ((pool : Str) × (find r hr ≡ some pool) × First r hr.rules pool)
      ⊎ ((find r hr ≡ none) × All (λ q. rule_matches r q ≡ false) hr.rules)
unfolding find
find-First r hr = find_rule-Found r hr.rules
