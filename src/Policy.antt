-- ===== src/Policy.antt =====
-- src/rif_runtime/policy.py: the policy engine. `urlparse(target).hostname` is the parameter
-- `hostname`: a name, none, or the `ValueError` of a malformed address.
pub mod Rules
pub mod Ranking
pub mod Egress
pub mod Verdict
pub mod Raises
use mandare.Prelude.{
  ℕ, String, Bool, true, false, not, Option, none, some, List, [], ◌∷◌, ◌++◌, ◌&&◌, ◌||◌, ◌==◌,
  filter, contains, is_prefix, text_append, if◌then◌else◌, Result, ok, err, ◌>>=◌, ◌>>◌,
}
use mandare.Schemas.{
  Decision, allow, deny, Posture, elevated, is_locked, PolicyRequest, PolicyDecision,
  EnvironmentProfile,
}
use mandare.Policy.Rules.{
  PolicyRule, network_actions, is_network, host, allowed, rule_matches, is_catch_all, ordered_rules,
  catch_all_rules,
}

-- `PolicyEngine.deny`; `now` is the default of the field `timestamp`.
unfoldable pub deny_with : ℕ → PolicyRequest → String → Posture → String → String → PolicyDecision
deny_with now req env_name posture reason rule = record {
  decision = deny;
  actor = req.actor;
  action = req.action;
  target = req.target;
  environment = env_name;
  posture = posture;
  reason = reason;
  matched_rule = rule;
  timestamp = now;
}

-- The decision of a rule that matched.
unfoldable pub decide_by : ℕ → PolicyRequest → String → Posture → PolicyRule → PolicyDecision
decide_by now req env_name posture rule = record {
  decision = rule.effect;
  actor = req.actor;
  action = req.action;
  target = req.target;
  environment = env_name;
  posture = posture;
  reason = rule.reason;
  matched_rule = text_append "policy." rule.id;
  timestamp = now;
}

-- The last resort: the first catch-all rule, else the built-in allow.
unfoldable pub fallback : ℕ → PolicyRequest → String → Posture → List PolicyRule → PolicyDecision
fallback now req env_name posture [] = record {
  decision = allow;
  actor = req.actor;
  action = req.action;
  target = req.target;
  environment = env_name;
  posture = posture;
  reason = "allowed by constraints";
  matched_rule = "default.allow";
  timestamp = now;
}
fallback now req env_name posture (rule ∷ rules) = decide_by now req env_name posture rule

module _ (hostname : String → Result (Option String)) where
  -- `for rule in rules: if rule_matches(rule, req): return ...`
  unfoldable pub first_match : List PolicyRule → PolicyRequest → Result (Option PolicyRule)
  first_match [] req = ok none
  first_match (rule ∷ rules) req =
      let rest = first_match rules req in
      do m ← rule_matches hostname rule req; if m then ok (some rule) else rest

  -- The host test that stands behind the rules: `some h` where the host `h` is refused.
  unfoldable pub refused_host : PolicyRequest → EnvironmentProfile → Result (Option String)
  refused_host req profile =
      if is_network req.action
      then (do
        h ← host hostname req.target
        ok (
            if profile.networking_type == "limited" && not (allowed h profile.allowed_hosts)
            then some h
            else none))
      else ok none

  -- The environment constraints and the fallback, for a request that no selective rule matches.
  unfoldable pub constrain :
      ℕ
      → PolicyRequest
      → String
      → EnvironmentProfile
      → Posture
      → List PolicyRule
      → Result PolicyDecision
  constrain now req env_name profile posture policy_rules =
      if req.action == "package.install" && not profile.allow_package_manager_network_access
      then ok (
          deny_with now req env_name elevated "package manager egress disabled"
            "package.egress.disabled")
      else if is_prefix "mcp." req.action && not profile.allow_mcp_server_network_access
      then ok (deny_with now req env_name elevated "MCP egress disabled" "mcp.egress.disabled")
      else do
        refused ← refused_host req profile
        ok (elim refused [
          | some h ↦
              deny_with now req env_name elevated (text_append "host denied: " h)
                "network.host.denied"
          | none ↦ fallback now req env_name posture (catch_all_rules policy_rules)
        ])

  -- `PolicyEngine.evaluate`
  unfoldable pub evaluate :
      ℕ
      → PolicyRequest
      → String
      → EnvironmentProfile
      → Posture
      → List PolicyRule
      → Result PolicyDecision
  unfolding first_match refused_host constrain deny_with decide_by fallback
  evaluate now req env_name profile posture policy_rules =
      if is_locked posture
      then ok (deny_with now req env_name posture "runtime locked" "posture.locked")
      else do
        matched ← first_match (ordered_rules policy_rules) req
        elim matched [
          | some rule ↦ ok (decide_by now req env_name posture rule)
          | none ↦ constrain now req env_name profile posture policy_rules
        ]
