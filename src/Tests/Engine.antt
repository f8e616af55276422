-- ===== src/Tests/Engine.antt =====
-- The theorems on the engine, its rules and its posture, at concrete requests.
use mandare.Governance.Drift.Patterns.{is_adversarial, search_from, shell_at}
use mandare.Governance.Drift.Patterns.Plain.{is_adversarial-all_plain}
use mandare.Prelude.{
  lower, ℕ, suc, ◌≤◌, ◌≡◌, refl, ◌⊎◌, arith, false, true, some, none, List, [], ◌∷◌, ◌++◌, Result,
  ok, err, value_error, In, OkAnd, any, ◌==◌,
}
use mandare.Schemas.{deny, normal, is_locked, PolicyDecision}
use mandare.Governance.Telemetry.{TelemetryStore}
use mandare.Policy.Rules.{PolicyRule, is_catch_all, ordered_rules}
use mandare.Policy.{evaluate, decide_by}
use mandare.Policy.Ranking.{ordered_rules-eq-passes}
use mandare.Policy.Egress.{RulePermits, EgressOpen}
use mandare.Policy.Verdict.{evaluate_allow_justified, catch_all_cannot_open}
use mandare.Policy.Raises.{evaluate_raises, Malformed}
use mandare.PolicyStore.{default_policies, ensure_required}
use mandare.PolicyStore.Seed.{ensure_required_repairs, has_required, without_required}
use mandare.Tests.Fixtures.{bare, fetch_from, limited_profile, model_rule, open_rule, decision}

abbrev two_rules : List PolicyRule
two_rules = open_rule ∷ model_rule ∷ []

evaluate_allow_justified_example :
    (is_locked normal ≡ false)
    × (RulePermits bare (fetch_from "api.anthropic.com") two_rules
        ⊎ EgressOpen bare (fetch_from "api.anthropic.com") limited_profile)
unfolding evaluate ordered_rules is_catch_all mandare.Policy.Rules.rule_matches
    mandare.Policy.Rules.comparable mandare.Policy.Rules.host mandare.Policy.Rules.allowed
    mandare.Policy.Rules.fits_pattern mandare.Prelude.lower mandare.Prelude.before_slash
    mandare.Prelude.is_prefix mandare.Prelude.is_suffix mandare.Prelude.drop_first
evaluate_allow_justified_example =
    evaluate_allow_justified bare 7 (fetch_from "api.anthropic.com") "dev" limited_profile normal
      two_rules (decide_by 7 (fetch_from "api.anthropic.com") "dev" normal model_rule) refl refl

catch_all_cannot_open_example :
    (d : PolicyDecision) × (evaluate bare 7
        (fetch_from "evil.example")
        "dev"
        limited_profile
        normal
        two_rules
      ≡ ok d)
    × (d.decision ≡ deny)
unfolding evaluate ordered_rules mandare.Policy.Rules.host mandare.Prelude.lower
    mandare.Prelude.before_slash mandare.Policy.Rules.allowed mandare.Policy.Rules.fits_pattern
    mandare.Prelude.is_prefix is_catch_all mandare.Policy.Rules.rule_matches
    mandare.Policy.Rules.comparable mandare.Prelude.is_suffix mandare.Prelude.drop_first
catch_all_cannot_open_example =
    catch_all_cannot_open bare 7 (fetch_from "evil.example") "dev" limited_profile normal two_rules
      "evil.example" refl refl refl refl refl

evaluate_raises_example :
    (is_locked normal ≡ false)
    × (Malformed bare "http://[" value_error
        ⊎ ((r : PolicyRule) × In r two_rules
            × (is_catch_all r ≡ false)
            × Malformed bare r.target value_error))
unfolding evaluate ordered_rules is_catch_all mandare.Policy.Rules.rule_matches
    mandare.Policy.Rules.comparable mandare.Policy.Rules.host
evaluate_raises_example =
    evaluate_raises bare 7 (fetch_from "http://[") "dev" limited_profile normal two_rules
      value_error refl

ordered_rules-eq-passes_example : ordered_rules two_rules ≡ (model_rule ∷ [])
unfolding ordered_rules mandare.Policy.Rules.specificity
ordered_rules-eq-passes_example = ordered_rules-eq-passes two_rules

ensure_required_repairs_example :
    (has_required (ensure_required default_policies) ≡ true)
    × (without_required (ensure_required default_policies) ≡ without_required default_policies)
    × (ensure_required (ensure_required default_policies) ≡ ensure_required default_policies)
ensure_required_repairs_example = ensure_required_repairs default_policies

abbrev window : TelemetryStore
window = record { events = decision ∷ []; max_events = 1 }

is_adversarial-all_plain_example :
    is_adversarial "/api/Select" ≡ search_from shell_at false "/api/select"
unfolding lower mandare.Governance.Drift.Patterns.Plain.all_plain
is_adversarial-all_plain_example = is_adversarial-all_plain "/api/Select" refl
