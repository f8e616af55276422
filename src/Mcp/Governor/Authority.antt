-- ===== src/Mcp/Governor/Authority.antt =====
-- What an `allow` of the governor of src/rif_runtime/mcp/metasploit.py rests on.
use mandare.Prelude.{
  ℕ, ◌<◌, String, ◌≡◌, refl, sym, ◌∙◌, ap, ◌⊎◌, inl, inr, Bool, true, false, Bool-cases, Option,
  none, some, List, [], ◌∷◌, arith, eq_iff, ok, Result-cases, >>=-eq-ok, ok_injective,
}
use mandare.Values.{compare_digest, Host}
use mandare.Values.Normal.{hmac_signature}
use mandare.Schemas.{allow, Posture, is_locked, PolicyDecision}
use mandare.Mcp.Capabilities.{CapabilityClass, read_only, classify, is_severe}
use mandare.Mcp.Intent.{
  GovernanceMode, read_only_firewall, shadow, lab_broker, MetasploitIntent, intent_hash,
  CapabilityToken, signing_payload, GovernanceOutcome,
}
use mandare.Mcp.Governor.{
  Ruling, injection_of, check_scope, signature_valid, evaluate_broker, evaluate_lane, non_empty,
  is_read_only, rule_on, finish, sign_evidence, decision_of, evaluate,
}

module _ (host : Host) (signing_key : String) (intent : MetasploitIntent) (now : ℕ) where
  -- The token grants this intent now: it is signed with the key, has not expired, and is for the
  -- capability, the target and the exact content of the intent.
  pub record Grants (token : CapabilityToken) : Type 0 where
    pub signed : hmac_signature host (signing_payload host token) signing_key ≡ ok token.signature
    pub live : now < token.expires_at
    pub capability : token.capability ≡ intent.capability
    pub target : token.target ≡ intent.target
    pub intact : intent_hash host intent ≡ ok token.intent_hash

  check_scope_allow :
      (token : CapabilityToken) (severe : Bool) (r : Ruling)
      → check_scope host signing_key intent token now severe ≡ ok r
      → r.decision ≡ allow
      → (now < token.expires_at)
        × (token.capability ≡ intent.capability)
        × (token.target ≡ intent.target)
        × (intent_hash host intent ≡ ok token.intent_hash)
  unfolding check_scope
  check_scope_allow token severe r e a = elim (Result-cases (intent_hash host intent)) [
    | inr (x, raised) ↦
        ground (arith, eq_iff token.capability intent.capability, eq_iff token.target intent.target)
    | inl (h, hash) ↦ ground (
      arith,
      eq_iff token.capability intent.capability,
      eq_iff token.target intent.target,
      eq_iff token.intent_hash h,
    )
  ]

  signature_valid_eq :
      (signature expected : String)
      → signature_valid host signing_key signature expected ≡ ok true
      → signature ≡ expected
  unfolding signature_valid compare_digest
  signature_valid_eq signature expected e = ground (arith, eq_iff signature expected)

  evaluate_broker_allow :
      (o : Option CapabilityToken) (severe : Bool) (r : Ruling)
      → evaluate_broker host signing_key intent o now severe ≡ ok r
      → r.decision ≡ allow
      → (token : CapabilityToken) × (o ≡ some token) × Grants token
  unfolding evaluate_broker
  evaluate_broker_allow none severe r e a = ground arith
  evaluate_broker_allow (some token) severe r e a =
      elim (Result-cases (hmac_signature host (signing_payload host token) signing_key)) [
        | inr (x, raised) ↦ cc (rw raised at e)
        | inl (expected, mac) ↦
            elim (Result-cases (signature_valid host signing_key token.signature expected)) [
              | inr (x, raised) ↦ cc (rw (mac, raised) at e)
              | inl (false, invalid) ↦ ground arith
              | inl (true, valid) ↦
                  let (live, same_capability, same_target, intact) =
                    check_scope_allow token severe r (rw (mac, valid) at e) a in
                  (
                    token,
                    refl,
                    record {
                      signed =
                          mac ∙ ap ok (sym (signature_valid_eq token.signature expected valid));
                      live = live;
                      capability = same_capability;
                      target = same_target;
                      intact = intact;
                    },
                  )
            ]
      ]

  -- A lane other than the broker allows nothing.
  evaluate_lane_allow :
      (mode : GovernanceMode) (o : Option CapabilityToken) (r : Ruling)
      → evaluate_lane host signing_key intent mode o now ≡ ok r
      → r.decision ≡ allow
      → (mode ≡ lab_broker) × ((token : CapabilityToken) × (o ≡ some token) × Grants token)
  unfolding evaluate_lane
  evaluate_lane_allow read_only_firewall o r e a = ground arith
  evaluate_lane_allow shadow o r e a = ground arith
  evaluate_lane_allow lab_broker o r e a =
      (refl, evaluate_broker_allow o (is_severe intent.capability) r e a)

  -- What permits an intent beyond doubt: a read-only capability, or a token in the broker lane.
  abbrev pub HasAuthority : GovernanceMode → Option CapabilityToken → Type 0
  HasAuthority mode o =
      (classify intent.capability ≡ read_only)
      ⊎ ((mode ≡ lab_broker) × ((token : CapabilityToken) × (o ≡ some token) × Grants token))

  is_read_only_iff : (c : CapabilityClass) → is_read_only c ≡ true → c ≡ read_only
  is_read_only_iff c e = ground arith

  empty_of : (xs : List String) → non_empty xs ≡ false → xs ≡ []
  empty_of [] e = refl
  empty_of (x ∷ xs) e = cc

  rule_on_allow :
      (mode : GovernanceMode) (posture : Posture) (o : Option CapabilityToken) (r : Ruling)
      → rule_on host signing_key intent mode posture o now ≡ ok r
      → r.decision ≡ allow
      → (is_locked posture ≡ false) × (injection_of intent ≡ []) × HasAuthority mode o
  unfolding rule_on
  rule_on_allow mode posture o r e a = elim (Bool-cases (is_locked posture)) [
    | inl locked_now ↦ ground arith
    | inr unlocked ↦ elim (Bool-cases (non_empty (injection_of intent))) [
      | inl injected ↦ ground arith
      | inr clean ↦ (
        unlocked,
        empty_of (injection_of intent) clean,
        elim (Bool-cases (is_read_only (classify intent.capability))) [
          | inl harmless ↦ inl (is_read_only_iff (classify intent.capability) harmless)
          | inr carries ↦ inr (evaluate_lane_allow mode o r (rw (unlocked, clean, carries) at e) a)
        ],
      )
    ]
  ]

  finish_decision :
      (env_name : String) (posture : Posture) (r : Ruling) (stamp : ℕ) (decision_id : String)
      (out : GovernanceOutcome)
      → finish host signing_key intent env_name posture r stamp decision_id ≡ ok out
      → decision_of host signing_key intent env_name posture r stamp ≡ out.decision
  unfolding finish
  finish_decision env_name posture r stamp decision_id out e =
      elim (Result-cases (
        sign_evidence host signing_key intent
          (decision_of host signing_key intent env_name posture r stamp) decision_id)) [
            | inr (x, raised) ↦ cc (rw raised at e)
            | inl (event, signed) ↦
                ap (λ (g : GovernanceOutcome). g.decision) (ok_injective (rw signed at e))
          ]

  -- If the governor allows an intent, in whichever lane, then the runtime is not locked, neither the
  -- words nor the untrusted context nor any parameter holds an injected instruction, and either the
  -- capability is read-only or, in the broker lane, a token was presented that grants the intent.
  pub evaluate_allow_needs_authority :
      (mode : GovernanceMode) (env_name : String) (posture : Posture) (o : Option CapabilityToken)
      (stamp : ℕ) (decision_id : String) (out : GovernanceOutcome)
      → evaluate host signing_key intent mode env_name posture o now stamp decision_id ≡ ok out
      → out.decision.decision ≡ allow
      → (is_locked posture ≡ false) × (injection_of intent ≡ []) × HasAuthority mode o
  unfolding evaluate
  evaluate_allow_needs_authority mode env_name posture o stamp decision_id out e a =
      let (r, ruled, finished) =
        >>=-eq-ok (rule_on host signing_key intent mode posture o now)
          (λ r. finish host signing_key intent env_name posture r stamp decision_id) e in
      rule_on_allow mode posture o r ruled (
        ap (λ (d : PolicyDecision). d.decision)
          (finish_decision env_name posture r stamp decision_id out finished)
        ∙ a)
