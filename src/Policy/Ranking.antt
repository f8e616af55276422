-- ===== src/Policy/Ranking.antt =====
-- The order in which src/rif_runtime/policy.py tries rules, against two passes over the file.
use mandare.Prelude.{
  ◌⊎◌, ℕ, ◌≤◌, ◌<◌, ◌≡◌, refl, ◌∙◌, Bool, not, List, [], ◌∷◌, ◌++◌, arith, eqb, filter, All,
  append-nil, inl, inr, ap,
}
use mandare.Policy.Rules.{
  PolicyRule, is_catch_all, specificity, insert_rule, sorted_rules, ordered_rules,
}

-- The rule names exactly `k` of its two selectors.
abbrev pub names : ℕ → PolicyRule → Bool
names k r = eqb (specificity r) k

specificity-le-two : (r : PolicyRule) → specificity r ≤ 2
unfolding specificity
specificity-le-two r = ground arith

specificity-cases :
    (r : PolicyRule) → (specificity r ≡ 2) ⊎ ((specificity r ≡ 1) ⊎ (specificity r ≡ 0))
unfolding specificity
specificity-cases r = ground arith

is_catch_all-names : (r : PolicyRule) → is_catch_all r ≡ names 0 r
unfolding is_catch_all specificity
is_catch_all-names r = ground arith

insert_rule_front :
    (r : PolicyRule) (qs : List PolicyRule)
    → All (λ q. specificity q ≤ specificity r) qs
    → insert_rule r qs ≡ r ∷ qs
unfolding insert_rule
insert_rule_front r [] h = refl
insert_rule_front r (q ∷ qs) h = ground arith

insert_rule_past :
    (r : PolicyRule) (ps qs : List PolicyRule)
    → All (λ p. specificity r < specificity p) ps
    → insert_rule r (ps ++ qs) ≡ ps ++ insert_rule r qs
unfolding insert_rule
insert_rule_past r [] qs h = refl
insert_rule_past r (p ∷ ps) qs h = ground (arith, insert_rule_past r ps qs h.1)

All-filter-names-le :
    (k n : ℕ) (rs : List PolicyRule) → k ≤ n → All (λ q. specificity q ≤ n) (filter (names k) rs)
All-filter-names-le k n [] h = tt
All-filter-names-le k n (r ∷ rs) h = ground (arith, All-filter-names-le k n rs h)

All-filter-names-lt :
    (k n : ℕ) (rs : List PolicyRule) → n < k → All (λ q. n < specificity q) (filter (names k) rs)
All-filter-names-lt k n [] h = tt
All-filter-names-lt k n (r ∷ rs) h = ground (arith, All-filter-names-lt k n rs h)

All-append {ℓ} :
    (P : PolicyRule → Type ℓ) (xs ys : List PolicyRule) → All P xs → All P ys → All P (xs ++ ys)
All-append P [] ys h k = k
All-append P (x ∷ xs) ys h k = (h.0, All-append P xs ys h.1 k)

-- The rules by tier: both selectors, one, none; each tier in the order of the file.
abbrev pub tiers : List PolicyRule → List PolicyRule
tiers rs = filter (names 2) rs ++ (filter (names 1) rs ++ filter (names 0) rs)

insert_rule-tiers :
    (r : PolicyRule) (rs : List PolicyRule) → insert_rule r (tiers rs) ≡ tiers (r ∷ rs)
insert_rule-tiers r rs = elim (specificity-cases r) [
  | inl two ↦ rw two (
      insert_rule_front r (tiers rs) (
        rw two (
          All-append _ (filter (names 2) rs) (filter (names 1) rs ++ filter (names 0) rs)
            (All-filter-names-le 2 2 rs (omega arith))
            (All-append _ (filter (names 1) rs) (filter (names 0) rs)
              (All-filter-names-le 1 2 rs (omega arith))
              (All-filter-names-le 0 2 rs (omega arith))))))
  | inr (inl one) ↦ rw one (
      insert_rule_past r (filter (names 2) rs) (filter (names 1) rs ++ filter (names 0) rs)
        (rw one (All-filter-names-lt 2 1 rs (omega arith)))
      ∙ ap (λ t. filter (names 2) rs ++ t)
          (insert_rule_front r (filter (names 1) rs ++ filter (names 0) rs) (
            rw one (
              All-append _ (filter (names 1) rs) (filter (names 0) rs)
                (All-filter-names-le 1 1 rs (omega arith))
                (All-filter-names-le 0 1 rs (omega arith))))))
  | inr (inr none_named) ↦ rw none_named (
      insert_rule_past r (filter (names 2) rs) (filter (names 1) rs ++ filter (names 0) rs)
        (rw none_named (All-filter-names-lt 2 0 rs (omega arith)))
      ∙ ap (λ t. filter (names 2) rs ++ t)
          (insert_rule_past r (filter (names 1) rs) (filter (names 0) rs)
              (rw none_named (All-filter-names-lt 1 0 rs (omega arith)))
            ∙ ap (λ t. filter (names 1) rs ++ t)
                (insert_rule_front r (filter (names 0) rs)
                  (rw none_named (All-filter-names-le 0 0 rs (omega arith))))))
]

sorted_rules-tiers : (rs : List PolicyRule) → sorted_rules rs ≡ tiers rs
unfolding sorted_rules
sorted_rules-tiers [] = refl
sorted_rules-tiers (r ∷ rs) = rw (sorted_rules-tiers rs) (insert_rule-tiers r rs)

filter_named :
    (k : ℕ) (rs : List PolicyRule)
    → 0 < k
    → filter (names k) (filter (λ r. not (is_catch_all r)) rs) ≡ filter (names k) rs
filter_named k [] h = refl
filter_named k (r ∷ rs) h = ground (arith, filter_named k rs h, is_catch_all-names r)

filter_unnamed :
    (rs : List PolicyRule) → filter (names 0) (filter (λ r. not (is_catch_all r)) rs) ≡ []
filter_unnamed [] = refl
filter_unnamed (r ∷ rs) = ground (arith, filter_unnamed rs, is_catch_all-names r)

-- The order in which selective rules are tried is that of two passes over the configured rules:
-- first those that name both an action and a target, then those that name one of the two, each in
-- the configured order; catch-all rules are in neither.
pub ordered_rules-eq-passes :
    (rules : List PolicyRule)
    → ordered_rules rules ≡ filter (names 2) rules ++ filter (names 1) rules
unfolding ordered_rules
ordered_rules-eq-passes rules = rw sorted_rules-tiers (
    rw
      (filter_named 2 rules (omega arith), filter_named 1 rules (omega arith), filter_unnamed rules)
      (ap (λ t. filter (names 2) rules ++ t) (append-nil (filter (names 1) rules))))
