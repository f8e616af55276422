-- ===== src/PolicyStore/Edits.antt =====
-- What an edit of the rules by src/rif_runtime/configuration/policies.py leaves in the file.
use mandare.Prelude.{
  ◌≤◌, String, ◌≡◌, refl, Bool, false, not, List, [], ◌∷◌, ◌++◌, arith, ◌==◌, any, eqb, length, ok,
}
use mandare.Schemas.{to_decision-decision_value}
use mandare.Policy.Rules.{PolicyRule}
use mandare.PolicyStore.{PolicyRow, validate, dump, list_rules, dump_all, others, upsert, delete}

-- A rule that is written and read back is the same.
validate-dump : (rule : PolicyRule) → validate (dump rule) ≡ ok rule
unfolding validate dump
validate-dump rule = rw (to_decision-decision_value rule.effect)

pub list_rules-dump_all : (rules : List PolicyRule) → list_rules (dump_all rules) ≡ ok rules
unfolding list_rules dump_all
list_rules-dump_all [] = refl
list_rules-dump_all (rule ∷ rules) = rw (validate-dump rule, list_rules-dump_all rules)

-- After a successful upsert the configured rules are the other rules, in their order, and then the
-- rule itself: whatever had its id before is replaced.
pub list_rules-upsert :
    (rule : PolicyRule) (rows : List PolicyRow) (rules : List PolicyRule)
    → list_rules rows ≡ ok rules
    → (rows' : List PolicyRow) × (upsert rule rows ≡ ok rows')
      × (list_rules rows' ≡ ok (others rule.id rules ++ rule ∷ []))
unfolding upsert
list_rules-upsert rule rows rules h = (
  dump_all (others rule.id rules ++ rule ∷ []),
  rw h,
  list_rules-dump_all (others rule.id rules ++ rule ∷ []),
)

length-others-le : (i : String) (rules : List PolicyRule) → length (others i rules) ≤ length rules
length-others-le i [] = omega arith
length-others-le i (r ∷ rs) = ground (arith, length-others-le i rs)

others_shorter :
    (i : String) (rules : List PolicyRule)
    → not (eqb (length (others i rules)) (length rules)) ≡ any (λ r. r.id == i) rules
others_shorter i [] = ground arith
others_shorter i (r ∷ rs) = ground (arith, others_shorter i rs, length-others-le i rs)

-- After a successful delete no rule has the id, the other rules stand as they stood, and the answer
-- says whether some rule had it.
pub list_rules-delete :
    (rule_id : String) (rows : List PolicyRow) (rules : List PolicyRule)
    → list_rules rows ≡ ok rules
    → (rows' : List PolicyRow) × (deleted : Bool) × (delete rule_id rows ≡ ok (rows', deleted))
      × (list_rules rows' ≡ ok (others rule_id rules))
      × (any (λ r. r.id == rule_id) (others rule_id rules) ≡ false)
      × (deleted ≡ any (λ r. r.id == rule_id) rules)
unfolding delete
list_rules-delete rule_id rows rules h = (
  dump_all (others rule_id rules),
  not (eqb (length (others rule_id rules)) (length rules)),
  rw h,
  list_rules-dump_all (others rule_id rules),
  none_left rules,
  others_shorter rule_id rules,
)
  where
    none_left : (rs : List PolicyRule) → any (λ r. r.id == rule_id) (others rule_id rs) ≡ false
    none_left [] = refl
    none_left (r ∷ rs) = ground (arith, none_left rs)
