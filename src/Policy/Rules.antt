-- ===== src/Policy/Rules.antt =====
-- Rules of src/rif_runtime/policy.py and the class `PolicyRule` of
-- src/rif_runtime/configuration/policies.py: what a rule matches, and in which order rules are tried.
use mandare.Prelude.{
  ℕ, ◌+◌, String, Bool, true, false, not, Option, none, some, List, [], ◌∷◌, ◌&&◌, ◌||◌, ◌==◌, any,
  filter, contains, lower, is_prefix, is_suffix, before_slash, drop_first, leb, if◌then◌else◌,
  Result, ok, ◌>>=◌,
}
use mandare.Schemas.{Decision, PolicyRequest}

pub record PolicyRule : Type 0 where
  pub id : String
  pub effect : Decision
  pub action : String
  pub target : String
  pub reason : String

abbrev pub network_actions : List String
network_actions = "http.request" ∷ "api.call" ∷ "mcp.invoke" ∷ "package.install" ∷ []

abbrev pub is_network : String → Bool
is_network action = contains network_actions action

-- `p.hostname or target.split("/")[0]`
hostname_or : Option String → String → String
hostname_or none target = before_slash target
hostname_or (some h) target = if h == "" then before_slash target else h

-- `h == p.lower() or (p.startswith("*.") and h.endswith(p[1:].lower()))` for one pattern
unfoldable pub fits_pattern : String → String → Bool
fits_pattern h p = h == lower p || is_prefix "*." p && is_suffix (lower (drop_first p)) h

unfoldable pub allowed : String → List String → Bool
allowed h patterns = any (fits_pattern h) patterns

module _ (hostname : String → Result (Option String)) where
  unfoldable pub host : String → Result String
  unfolding hostname_or
  host target = do p ← hostname target; ok (lower (hostname_or p target))

  -- `host(text) if is_network else text`
  unfoldable pub comparable : Bool → String → Result String
  comparable network text = if network then host text else ok text

  unfoldable pub rule_matches : PolicyRule → PolicyRequest → Result Bool
  rule_matches rule req =
      if not (rule.action == "*") && not (rule.action == req.action)
      then ok false
      else if rule.target == "*"
      then ok true
      else do
        target_value ← comparable (is_network req.action) req.target
        rule_target ← comparable (is_network req.action) rule.target
        ok (allowed target_value (rule_target ∷ []))

unfoldable pub is_catch_all : PolicyRule → Bool
is_catch_all rule = rule.action == "*" && rule.target == "*"

unfoldable pub specificity : PolicyRule → ℕ
specificity rule = (if rule.action == "*" then 0 else 1) + (if rule.target == "*" then 0 else 1)

-- Insertion before the first rule that is not more specific.
unfoldable pub insert_rule : PolicyRule → List PolicyRule → List PolicyRule
insert_rule r [] = r ∷ []
insert_rule r (q ∷ qs) =
    if leb (specificity q) (specificity r) then r ∷ q ∷ qs else q ∷ insert_rule r qs

-- `sorted(rules, key=specificity, reverse=True)`, which keeps the order of equal rules
unfoldable pub sorted_rules : List PolicyRule → List PolicyRule
unfolding insert_rule
sorted_rules [] = []
sorted_rules (r ∷ rs) = insert_rule r (sorted_rules rs)

unfoldable pub ordered_rules : List PolicyRule → List PolicyRule
unfolding sorted_rules
ordered_rules rules = sorted_rules (filter (λ r. not (is_catch_all r)) rules)

unfoldable pub catch_all_rules : List PolicyRule → List PolicyRule
catch_all_rules rules = filter is_catch_all rules
