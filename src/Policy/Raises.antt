-- ===== src/Policy/Raises.antt =====
-- When `PolicyEngine.evaluate` of src/rif_runtime/policy.py raises in place of an answer.
use mandare.Prelude.{
  ℕ, String, ◌≡◌, refl, ap, err_injective, ◌∙◌, ◌⊎◌, inl, inr, Bool, false, Option, none, some,
  List, [], ◌∷◌, arith, ◌==◌, ◌&&◌, not, In, is_prefix, Bool-cases, Result, Error, err,
  Result-cases,
}
use mandare.Schemas.{Posture, is_locked, PolicyRequest, PolicyDecision, EnvironmentProfile}
use mandare.Policy.Rules.{
  PolicyRule, is_network, host, comparable, rule_matches, is_catch_all, ordered_rules,
}
use mandare.Policy.{first_match, refused_host, constrain, evaluate}
use mandare.Policy.Egress.{In-ordered_rules}

module _ (hostname : String → Result (Option String)) where
  -- Some text has no host: `urlparse` refuses it.
  abbrev pub Malformed : String → Error → Type 0
  Malformed text e = hostname text ≡ err e

  comparable_raises :
      (network : Bool) (text : String) (e : Error)
      → comparable hostname network text ≡ err e
      → Malformed text e
  unfolding comparable host
  comparable_raises network text e h = ground arith

  rule_matches_raises :
      (r : PolicyRule) (req : PolicyRequest) (e : Error)
      → rule_matches hostname r req ≡ err e
      → Malformed req.target e ⊎ Malformed r.target e
  unfolding rule_matches
  rule_matches_raises r req e h =
      elim (Bool-cases (not (r.action == "*") && not (r.action == req.action))) [
        | inl other ↦ cc (rw other at h)
        | inr same ↦ elim (Bool-cases (r.target == "*")) [
          | inl star ↦ cc (rw (same, star) at h)
          | inr named ↦
              elim (Result-cases (comparable hostname (is_network req.action) req.target)) [
                | inr (x, bad) ↦ inl (
                    comparable_raises (is_network req.action) req.target e
                      (bad ∙ ap err (err_injective Bool (rw (same, named, bad) at h))))
                | inl (t, fine) ↦
                    elim (Result-cases (comparable hostname (is_network req.action) r.target)) [
                      | inr (x, bad) ↦ inr (
                          comparable_raises (is_network req.action) r.target e
                            (bad ∙ ap err (err_injective Bool (rw (same, named, fine, bad) at h))))
                      | inl (u, good) ↦ cc (rw (same, named, fine, good) at h)
                    ]
              ]
        ]
      ]

  first_match_raises :
      (rules : List PolicyRule) (req : PolicyRequest) (e : Error)
      → first_match hostname rules req ≡ err e
      → Malformed req.target e ⊎ ((r : PolicyRule) × In r rules × Malformed r.target e)
  unfolding first_match
  first_match_raises [] req e h = cc
  first_match_raises (r ∷ rs) req e h = elim (Result-cases (rule_matches hostname r req)) [
    | inr (x, raised) ↦ elim (rule_matches_raises r req e (ground arith)) [
      | inl bad ↦ inl bad
      | inr bad ↦ inr (r, inl refl, bad)
    ]
    | inl (m, matched) ↦ elim (first_match_raises rs req e (ground arith)) [
      | inl bad ↦ inl bad
      | inr (q, there, bad) ↦ inr (q, inr there, bad)
    ]
  ]

  constrain_raises :
      (now : ℕ) (req : PolicyRequest) (env_name : String) (profile : EnvironmentProfile)
      (posture : Posture) (rules : List PolicyRule) (e : Error)
      → constrain hostname now req env_name profile posture rules ≡ err e
      → Malformed req.target e
  unfolding constrain refused_host host
  constrain_raises now req env_name profile posture rules e h =
      elim (Bool-cases
        (req.action == "package.install" && not profile.allow_package_manager_network_access)) [
          | inl package_denied ↦ cc (rw package_denied at h)
          | inr package_open ↦
              elim (Bool-cases
                (is_prefix "mcp." req.action && not profile.allow_mcp_server_network_access)) [
                  | inl mcp_denied ↦ cc (rw (package_open, mcp_denied) at h)
                  | inr mcp_open ↦ elim (Bool-cases (is_network req.action)) [
                    | inr local ↦ cc (rw (package_open, mcp_open, local) at h)
                    | inl net ↦ elim (Result-cases (hostname req.target)) [
                      | inl (found, answered) ↦ cc (rw (package_open, mcp_open, net, answered) at h)
                      | inr (x, bad) ↦
                          bad
                          ∙ ap err (
                              err_injective PolicyDecision
                                (rw (package_open, mcp_open, net, bad) at h))
                    ]
                  ]
                ]
        ]

  -- The engine raises only where the address of the request, or that of a configured rule that is no
  -- catch-all, has no host because `urlparse` refuses it; and never while the runtime is locked.
  pub evaluate_raises :
      (now : ℕ) (req : PolicyRequest) (env_name : String) (profile : EnvironmentProfile)
      (posture : Posture) (rules : List PolicyRule) (e : Error)
      → evaluate hostname now req env_name profile posture rules ≡ err e
      → (is_locked posture ≡ false)
        × (Malformed req.target e
            ⊎ ((r : PolicyRule) × In r rules × (is_catch_all r ≡ false) × Malformed r.target e))
  unfolding evaluate
  evaluate_raises now req env_name profile posture rules e h =
      elim (Bool-cases (is_locked posture)) [
        | inl locked_now ↦ cc (rw locked_now at h)
        | inr unlocked ↦ (
          unlocked,
          elim (Result-cases (first_match hostname (ordered_rules rules) req)) [
            | inl (some r, tried) ↦ cc (rw (unlocked, tried) at h)
            | inl (none, tried) ↦ inl (
                constrain_raises now req env_name profile posture rules e
                  (rw (unlocked, tried) at h))
            | inr (x, tried) ↦
                elim (first_match_raises (ordered_rules rules) req e (ground arith)) [
                  | inl bad ↦ inl bad
                  | inr (r, there, bad) ↦
                      let (listed, selective) = In-ordered_rules r rules there in
                      inr (r, listed, selective, bad)
                ]
          ],
        )
      ]
