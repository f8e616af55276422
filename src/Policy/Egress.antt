-- ===== src/Policy/Egress.antt =====
-- What an answer of the engine of src/rif_runtime/policy.py rests on: a rule, or the constraints of
-- the environment.
use mandare.Prelude.{
  ℕ, String, ◌≡◌, ◌⊎◌, inl, inr, true, false, not, Option, none, some, List, [], ◌∷◌, arith, ◌==◌,
  ◌||◌, In, In-filter, leb, Bool-cases, Result, ok, Result-cases, is_prefix,
}
use mandare.Schemas.{allow, Posture, PolicyRequest, PolicyDecision, EnvironmentProfile}
use mandare.Policy.Rules.{
  PolicyRule, is_network, host, allowed, rule_matches, is_catch_all, specificity, insert_rule,
  sorted_rules, ordered_rules,
}
use mandare.Policy.{deny_with, first_match, refused_host, constrain}

In-insert_rule :
    (r q : PolicyRule) (qs : List PolicyRule) → In r (insert_rule q qs) → (r ≡ q) ⊎ In r qs
unfolding insert_rule
In-insert_rule r q [] h = h
In-insert_rule r q (p ∷ ps) h = elim (Bool-cases (leb (specificity p) (specificity q))) [
  | inl front ↦ rw front at h
  | inr past ↦ elim (rw past at h) [
    | inl e ↦ inr (inl e)
    | inr more ↦ elim (In-insert_rule r q ps more) [ inl e ↦ inl e | inr k ↦ inr (inr k) ]
  ]
]

In-sorted_rules : (r : PolicyRule) (qs : List PolicyRule) → In r (sorted_rules qs) → In r qs
unfolding sorted_rules
In-sorted_rules r [] h = h
In-sorted_rules r (q ∷ qs) h = elim (In-insert_rule r q (sorted_rules qs) h) [
  | inl e ↦ inl e
  | inr more ↦ inr (In-sorted_rules r qs more)
]

-- A rule that is tried stands in the configuration and is no catch-all.
pub In-ordered_rules :
    (r : PolicyRule) (rules : List PolicyRule)
    → In r (ordered_rules rules)
    → In r rules × (is_catch_all r ≡ false)
unfolding ordered_rules
In-ordered_rules r rules h =
    let (there, kept) = In-filter (λ q. not (is_catch_all q)) r rules (In-sorted_rules r _ h) in
    (there, ground arith)

module _ (hostname : String → Result (Option String)) where
  pub first_match-In :
      (r : PolicyRule) (rules : List PolicyRule) (req : PolicyRequest)
      → first_match hostname rules req ≡ ok (some r)
      → In r rules × (rule_matches hostname r req ≡ ok true)
  unfolding first_match
  first_match-In r [] req h = cc
  first_match-In r (q ∷ qs) req h = elim (Result-cases (rule_matches hostname q req)) [
    | inr (e, raised) ↦ cc (rw raised at h)
    | inl (true, m) ↦
        let picked : ok (some q) ≡ ok (some r) = rw m at h in
        let same : r ≡ q = cc in (inl same, rw same m)
    | inl (false, m) ↦ let more = first_match-In r qs req (rw m at h) in (inr more.0, more.1)
  ]

  -- A rule of the configuration that names the action or the target permits the request.
  abbrev pub RulePermits : PolicyRequest → List PolicyRule → Type 0
  RulePermits req rules =
      (r : PolicyRule) × In r rules
      × (is_catch_all r ≡ false)
      × (rule_matches hostname r req ≡ ok true)
      × (r.effect ≡ allow)

  -- The constraints of the environment leave the request open.
  pub record EgressOpen (req : PolicyRequest) (profile : EnvironmentProfile) : Type 0 where
    pub installs :
        (not (req.action == "package.install") || profile.allow_package_manager_network_access)
        ≡ true
    pub mcp : (not (is_prefix "mcp." req.action) || profile.allow_mcp_server_network_access) ≡ true
    pub network :
        (is_network req.action ≡ false)
        ⊎ ((h : String) × (host hostname req.target ≡ ok h)
            × ((not (profile.networking_type == "limited") || allowed h profile.allowed_hosts)
                ≡ true))

  module _ (now : ℕ) (req : PolicyRequest) (env_name : String) (profile : EnvironmentProfile) where
    refused_host_open :
        refused_host hostname req profile ≡ ok none
        → (is_network req.action ≡ false)
          ⊎ ((h : String) × (host hostname req.target ≡ ok h)
              × ((not (profile.networking_type == "limited") || allowed h profile.allowed_hosts)
                  ≡ true))
    unfolding refused_host
    refused_host_open e = elim (Bool-cases (is_network req.action)) [
      | inr local ↦ inl local
      | inl net ↦ elim (Result-cases (host hostname req.target)) [
        | inr (x, raised) ↦ cc (rw (net, raised) at e)
        | inl (h, found) ↦ inr (h, found, ground (arith, rw (net, found) at e))
      ]
    ]

    pub constrain_open :
        (posture : Posture) (rules : List PolicyRule) (d : PolicyDecision)
        → constrain hostname now req env_name profile posture rules ≡ ok d
        → d.decision ≡ allow
        → EgressOpen req profile
    unfolding constrain deny_with
    constrain_open posture rules d e a = record {
      installs = ground arith;
      mcp = ground arith;
      network = refused_host_open (ground arith);
    }
