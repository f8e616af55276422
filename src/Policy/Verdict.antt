-- ===== src/Policy/Verdict.antt =====
-- The answers of `PolicyEngine.evaluate` of src/rif_runtime/policy.py, over all its branches.
use mandare.Prelude.{
  ℕ, String, ◌≡◌, refl, ◌⊎◌, inl, inr, true, false, Option, none, some, List, [], ◌∷◌, arith, ◌==◌,
  ◌&&◌, not, is_prefix, text_append, Bool-cases, OkAnd, Result, ok, Result-cases,
}
use mandare.Schemas.{
  allow, deny, Posture, elevated, is_locked, PolicyRequest, PolicyDecision, EnvironmentProfile,
}
use mandare.Policy.Rules.{PolicyRule, is_network, host, allowed, ordered_rules, catch_all_rules}
use mandare.Policy.{deny_with, decide_by, fallback, first_match, refused_host, constrain, evaluate}
use mandare.Policy.Egress.{
  RulePermits, EgressOpen, constrain_open, first_match-In, In-ordered_rules,
}

module _ (hostname : String → Result (Option String)) where
  module _ (now : ℕ) (req : PolicyRequest) (env_name : String) (profile : EnvironmentProfile)
      (posture : Posture) (rules : List PolicyRule) where
    -- If the engine allows a request then the runtime is not locked, and either a configured rule
    -- that is no catch-all matches the request and allows it, or the environment leaves it open:
    -- package installation and MCP access only where the profile permits them, and network actions
    -- of a limited profile only towards its allowed hosts.
    pub evaluate_allow_justified :
        (d : PolicyDecision)
        → evaluate hostname now req env_name profile posture rules ≡ ok d
        → d.decision ≡ allow
        → (is_locked posture ≡ false)
          × (RulePermits hostname req rules ⊎ EgressOpen hostname req profile)
    unfolding evaluate deny_with decide_by
    evaluate_allow_justified d e a = elim (Bool-cases (is_locked posture)) [
      | inl locked_now ↦ ground arith
      | inr unlocked ↦ (
        unlocked,
        elim (Result-cases (first_match hostname (ordered_rules rules) req)) [
          | inr (x, raised) ↦ ground arith
          | inl (none, tried) ↦
              inr
                (constrain_open hostname now req env_name profile posture rules d (ground arith) a)
          | inl (some r, tried) ↦
              let (listed, matched) = first_match-In hostname r (ordered_rules rules) req tried in
              let (there, selective) = In-ordered_rules r rules listed in
              inl (r, there, selective, matched, ground arith)
        ],
      )
    ]

    -- On a limited profile a network request to a host outside the allowlist, which no selective
    -- rule matches, is denied, whatever catch-all rules are configured and in every posture; the
    -- engine does answer.
    pub catch_all_cannot_open :
        (h : String)
        → is_network req.action ≡ true
        → (profile.networking_type == "limited") ≡ true
        → host hostname req.target ≡ ok h
        → allowed h profile.allowed_hosts ≡ false
        → first_match hostname (ordered_rules rules) req ≡ ok none
        → (d : PolicyDecision) × (evaluate hostname now req env_name profile posture rules ≡ ok d)
          × (d.decision ≡ deny)
    unfolding evaluate constrain refused_host deny_with
    catch_all_cannot_open h net limited found refused tried =
        elim (Bool-cases (is_locked posture)) [
          | inl locked_now ↦ (
            deny_with now req env_name posture "runtime locked" "posture.locked",
            rw locked_now,
            refl,
          )
          | inr unlocked ↦
              elim (Bool-cases (
                req.action == "package.install"
                && not profile.allow_package_manager_network_access)) [
                  | inl package_denied ↦ (
                    deny_with now req env_name elevated "package manager egress disabled"
                        "package.egress.disabled",
                    rw (unlocked, tried, package_denied),
                    refl,
                  )
                  | inr package_open ↦
                      elim (Bool-cases (
                        is_prefix "mcp." req.action
                        && not profile.allow_mcp_server_network_access)) [
                          | inl mcp_denied ↦ (
                            deny_with now req env_name elevated "MCP egress disabled"
                                "mcp.egress.disabled",
                            rw (unlocked, tried, package_open, mcp_denied),
                            refl,
                          )
                          | inr mcp_open ↦ (
                            deny_with now req env_name elevated (text_append "host denied: " h)
                                "network.host.denied",
                            rw (
                              unlocked, tried, package_open, mcp_open, net, found, limited, refused,
                            ),
                            refl,
                          )
                        ]
                ]
        ]

    -- The decision is about this request, and made now.
    pub record IsAbout (d : PolicyDecision) : Type 0 where
      pub actor : d.actor ≡ req.actor
      pub action : d.action ≡ req.action
      pub target : d.target ≡ req.target
      pub environment : d.environment ≡ env_name
      pub timestamp : d.timestamp ≡ now
      pub posture_of : (d.posture ≡ posture) ⊎ (d.posture ≡ elevated)

    fallback-IsAbout : (rs : List PolicyRule) → IsAbout (fallback now req env_name posture rs)
    unfolding fallback decide_by
    fallback-IsAbout [] = ground arith
    fallback-IsAbout (r ∷ rs) = ground arith

    refused-IsAbout :
        (refused : Option String)
        → IsAbout (elim refused [
          | some h ↦
              deny_with now req env_name elevated
                (text_append "host denied: " h)
                "network.host.denied"
          | none ↦ fallback now req env_name posture (catch_all_rules rules)
        ])
    unfolding deny_with
    refused-IsAbout none = fallback-IsAbout (catch_all_rules rules)
    refused-IsAbout (some h) = ground arith

    constrain-IsAbout : OkAnd IsAbout (constrain hostname now req env_name profile posture rules)
    unfolding constrain deny_with
    constrain-IsAbout =
        elim (Bool-cases
          (req.action == "package.install" && not profile.allow_package_manager_network_access)) [
            | inl package_denied ↦ rw package_denied (ground arith)
            | inr package_open ↦
                elim (Bool-cases
                  (is_prefix "mcp." req.action && not profile.allow_mcp_server_network_access)) [
                    | inl mcp_denied ↦ rw (package_open, mcp_denied) (ground arith)
                    | inr mcp_open ↦ elim (Result-cases (refused_host hostname req profile)) [
                      | inl (refused, e) ↦ rw (package_open, mcp_open, e) (refused-IsAbout refused)
                      | inr (x, e) ↦ rw (package_open, mcp_open, e) tt
                    ]
                  ]
          ]

    -- Every answer is about the request that was put: it names its actor, action, target,
    -- environment and the time of the call, and its posture is that of the runtime or, for the
    -- denials of the environment, `elevated`.
    pub evaluate-IsAbout : OkAnd IsAbout (evaluate hostname now req env_name profile posture rules)
    unfolding evaluate deny_with decide_by
    evaluate-IsAbout = elim (Bool-cases (is_locked posture)) [
      | inl locked_now ↦ rw locked_now (ground arith)
      | inr unlocked ↦ elim (Result-cases (first_match hostname (ordered_rules rules) req)) [
        | inl (some r, e) ↦ rw (unlocked, e) (ground arith)
        | inl (none, e) ↦ rw (unlocked, e) constrain-IsAbout
        | inr (x, e) ↦ rw (unlocked, e) tt
      ]
    ]
