-- ===== src/PolicyStore.antt =====
-- src/rif_runtime/configuration/policies.py: the file of rules, as the list of its rows. A row that lacks
-- a field has `none` there; the fields are texts, and `metadata`, which no rule is chosen by, is left
-- out. `JsonStore` (configuration/store.py) is the file itself: a write replaces it whole.
pub mod Seed
pub mod Edits
use mandare.Prelude.{
  String, Bool, true, false, not, ◌&&◌, Option, none, some, List, [], ◌∷◌, ◌++◌, ◌==◌, any, filter,
  eqb, length, if◌then◌else◌, Result, ok, err, value_error, ◌>>=◌,
}
use mandare.Schemas.{Decision, allow, deny, decision_value, to_decision}
use mandare.Policy.Rules.{PolicyRule}

pub record PolicyRow : Type 0 where
  pub id : Option String
  pub effect : Option String
  pub action : Option String
  pub target : Option String
  pub reason : Option String

abbrev pub get_or : Option String → String → String
get_or none d = d
get_or (some s) d = s

-- `PolicyRule.model_validate(row)`: `id` and `effect` are required, the others have defaults.
unfoldable pub validate : PolicyRow → Result PolicyRule
validate row = with_id row.id row.effect
  where
    with_effect : String → Option Decision → Result PolicyRule
    with_effect i none = err value_error
    with_effect i (some e) = ok (record {
      id = i;
      effect = e;
      action = get_or row.action "*";
      target = get_or row.target "*";
      reason = get_or row.reason "configured policy rule";
    })

    with_id : Option String → Option String → Result PolicyRule
    with_id (some i) (some e) = with_effect i (to_decision e)
    with_id _ _ = err value_error

-- `rule.model_dump()`
unfoldable pub dump : PolicyRule → PolicyRow
dump rule = record {
  id = some rule.id;
  effect = some (decision_value rule.effect);
  action = some rule.action;
  target = some rule.target;
  reason = some rule.reason;
}

-- `PolicyStore.list`
unfoldable pub list_rules : List PolicyRow → Result (List PolicyRule)
list_rules [] = ok []
list_rules (row ∷ rows) = do rule ← validate row; rules ← list_rules rows; ok (rule ∷ rules)

unfoldable pub dump_all : List PolicyRule → List PolicyRow
dump_all [] = []
dump_all (rule ∷ rules) = dump rule ∷ dump_all rules

-- `[r for r in rules if r["id"] != rule_id]`
abbrev pub others : String → List PolicyRule → List PolicyRule
others rule_id rules = filter (λ r. not (r.id == rule_id)) rules

-- `PolicyStore.upsert`: the rows that it writes
unfoldable pub upsert : PolicyRule → List PolicyRow → Result (List PolicyRow)
upsert rule rows = do rules ← list_rules rows; ok (dump_all (others rule.id rules ++ rule ∷ []))

-- `PolicyStore.delete`: the rows that it writes, and whether a rule went
unfoldable pub delete : String → List PolicyRow → Result (List PolicyRow × Bool)
delete rule_id rows = do
  rules ← list_rules rows
  ok (dump_all (others rule_id rules), not (eqb (length (others rule_id rules)) (length rules)))

-- `_is_catch_all_rule`
unfoldable pub is_catch_all_row : PolicyRow → Bool
is_catch_all_row row = get_or row.action "*" == "*" && get_or row.target "*" == "*"

abbrev pub row_of : String → String → String → String → String → PolicyRow
row_of id effect action target reason = record {
  id = some id;
  effect = some effect;
  action = some action;
  target = some target;
  reason = some reason;
}

abbrev pub allow_run_create : PolicyRow
allow_run_create =
    row_of "allow_run_create" "allow" "run.create" "*"
      "first-party governed run creation (POST /v1/runs)"

-- `DEFAULT_POLICIES["rules"]`
abbrev pub default_policies : List PolicyRow
default_policies =
    allow_run_create
    ∷ row_of "allow_known_model_hosts" "allow" "http.request" "api.anthropic.com"
        "known model API host"
    ∷ row_of "deny_unknown_by_default" "deny" "*" "*" "deny by default"
    ∷ []

abbrev pub required_first_party_rule_ids : List String
required_first_party_rule_ids = "allow_run_create" ∷ []

-- `rule.get("id") == i`
abbrev pub has_id : String → PolicyRow → Bool
has_id i row = elim row.id [ none ↦ false | some j ↦ j == i ]

-- `row["id"] in ids`, for a row that has an id
abbrev pub id_in : List String → PolicyRow → Bool
id_in ids row = any (λ i. has_id i row) ids

-- The defaults that are required and not present.
unfoldable pub missing_from : List PolicyRow → List PolicyRow
missing_from rules =
    filter
      (λ d.
        id_in required_first_party_rule_ids d && not (any (λ r. has_id (get_or d.id "") r) rules))
      default_policies

-- `rules[:insert_at] + missing + rules[insert_at:]`, at the first catch-all rule
unfoldable pub insert_missing : List PolicyRow → List PolicyRow → List PolicyRow
insert_missing missing [] = missing
insert_missing missing (row ∷ rows) =
    if is_catch_all_row row then missing ++ row ∷ rows else row ∷ insert_missing missing rows

-- `if not missing: return`
unfoldable pub repair : List PolicyRow → List PolicyRow → List PolicyRow
unfolding insert_missing is_catch_all_row
repair [] rules = rules
repair (m ∷ ms) rules = insert_missing (m ∷ ms) rules

-- `_ensure_required_first_party_rules`: without anything missing the file is left alone.
unfoldable pub ensure_required : List PolicyRow → List PolicyRow
unfolding missing_from
ensure_required rules = repair (missing_from rules) rules
