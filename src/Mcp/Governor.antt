-- ===== src/Mcp/Governor.antt =====
-- `MetasploitGovernor` of src/rif_runtime/mcp/metasploit.py. The signing key, the clock readings and
-- the fresh identifiers are arguments. Each `return self._finish(...)` of the source is a ruling, and
-- `finish` is applied to it once.
pub mod Authority
pub mod Honour
pub mod Evidence
use mandare.Prelude.{
  ℕ, ◌+◌, ◌*◌, String, Bool, true, false, not, ◌&&◌, Option, none, some, List, [], ◌∷◌, ◌==◌, leb,
  is_ascii, text_append, if◌then◌else◌, Result, ok, err, type_error, ◌>>=◌,
}
use mandare.Values.{compare_digest, Host, dict}
use mandare.Values.Normal.{hmac_signature}
use mandare.Schemas.{
  Decision, allow, deny, Posture, is_deny, is_locked, decision_value, PolicyDecision,
}
use mandare.Mcp.Capabilities.{
  CapabilityClass, read_only, consequential, unknown, classify, is_severe, contract_hash,
}
use mandare.Mcp.Intent.{
  GovernanceMode, read_only_firewall, shadow, lab_broker, MetasploitIntent, intent_hash,
  CapabilityToken, signing_payload, EvidenceEvent, unsigned, GovernanceOutcome, string_params,
  scan_for_injection,
}

-- The decision of one branch, before it is written out and signed.
pub record Ruling : Type 0 where
  pub decision : Decision
  pub reason : String
  pub rule : String
  pub severe : Bool
  pub simulated : Bool

abbrev pub refuse : String → String → Bool → Bool → Ruling
refuse reason rule severe simulated = record {
  decision = deny;
  reason = reason;
  rule = rule;
  severe = severe;
  simulated = simulated;
}

abbrev pub permit : String → String → Bool → Ruling
permit reason rule simulated = record {
  decision = allow;
  reason = reason;
  rule = rule;
  severe = false;
  simulated = simulated;
}

-- `", ".join(texts)`
unfoldable pub join : List String → String
join [] = ""
join (s ∷ []) = s
join (s ∷ t ∷ ts) = text_append s (text_append ", " (join (t ∷ ts)))

-- The texts that are scanned: the words of the operator, the untrusted context, every parameter.
unfoldable pub injection_of : MetasploitIntent → List String
injection_of intent =
    scan_for_injection
      (intent.words ∷ intent.untrusted_context ∷ optional (string_params (dict intent.params)))
  where
    optional : List String → List (Option String)
    optional [] = []
    optional (s ∷ ss) = some s ∷ optional ss

abbrev pub is_shadow : GovernanceMode → Bool
is_shadow shadow = true
is_shadow _ = false

-- The event that `_sign_evidence` signs.
abbrev pub unsigned_event :
    Host → MetasploitIntent → PolicyDecision → String → String → String → EvidenceEvent
unsigned_event host intent decision decision_id h c = record {
  decision_id = decision_id;
  intent_hash = h;
  tool = intent.tool;
  requested_capability = intent.capability;
  policy_decision = decision_value decision.decision;
  scope_id = intent.scope_id;
  contract_hash = c;
  matched_rule = decision.matched_rule;
  timestamp = host.isoformat decision.timestamp;
  signature = "";
}

-- The token that `mint_token` signs.
abbrev pub unsigned_token : MetasploitIntent → String → ℕ → ℕ → String → String → CapabilityToken
unsigned_token intent approver ttl_seconds issued token_id h = record {
  token_id = token_id;
  capability = intent.capability;
  target = intent.target;
  scope_id = intent.scope_id;
  intent_hash = h;
  approver = approver;
  issued_at = issued;
  expires_at = issued + ttl_seconds * 1000000;
  signature = "";
}

-- `if injection`, of a list
abbrev pub non_empty : List String → Bool
non_empty [] = false
non_empty (x ∷ xs) = true

abbrev pub is_read_only : CapabilityClass → Bool
is_read_only read_only = true
is_read_only _ = false

module _ (host : Host) (signing_key : String) where
  -- The checks of `_evaluate_broker` on a token that is presented, from its expiry on.
  unfoldable pub check_scope : MetasploitIntent → CapabilityToken → ℕ → Bool → Result Ruling
  check_scope intent token now severe =
      if leb token.expires_at now
      then ok (
          refuse "capability token expired: authority is time-bound" "msf.broker.token_expired"
            severe false)
      else if not (token.capability == intent.capability)
      then ok (
          refuse "token authorises a different capability class" "msf.broker.capability_mismatch"
            severe false)
      else if not (token.target == intent.target)
      then ok (
          refuse "target not pinned to the approved lab asset" "msf.broker.target_pinned" true
            false)
      else do
        h ← intent_hash host intent
        ok (
            if token.intent_hash == h
            then permit "bounded lab action authorised by capability token" "msf.broker.authorized"
                false
            else refuse "signed intent hash no longer matches the request"
                "msf.broker.intent_mismatch" true false)

  -- `not token.signature or not hmac.compare_digest(token.signature, expected)`, negated
  unfoldable pub signature_valid : String → String → Result Bool
  signature_valid signature expected =
      if signature == "" then ok false else compare_digest signature expected

  unfoldable pub evaluate_broker :
      MetasploitIntent → Option CapabilityToken → ℕ → Bool → Result Ruling
  evaluate_broker intent none now severe =
      ok (
        refuse "no signed human approval token presented" "msf.broker.approval_absent" severe false)
  evaluate_broker intent (some token) now severe = do
    expected ← hmac_signature host (signing_payload host token) signing_key
    valid ← signature_valid token.signature expected
    if valid
        then check_scope intent token now severe
        else ok
            (refuse "capability token signature invalid" "msf.broker.signature_invalid" true false)

  -- The lane decides what is neither injected nor read-only.
  unfoldable pub evaluate_lane :
      MetasploitIntent → GovernanceMode → Option CapabilityToken → ℕ → Result Ruling
  evaluate_lane intent read_only_firewall token now = ok (
      refuse "execution authority absent under read-only firewall" "msf.capability.execution_absent"
        (is_severe intent.capability) false)
  evaluate_lane intent shadow token now = ok (
      refuse "shadow lane: high-impact action simulated, never executed" "msf.shadow.denied"
        (is_severe intent.capability) true)
  evaluate_lane intent lab_broker token now =
      evaluate_broker intent token now (is_severe intent.capability)

  -- The branches of `evaluate`, in its order.
  unfoldable pub rule_on :
      MetasploitIntent → GovernanceMode → Posture → Option CapabilityToken → ℕ → Result Ruling
  rule_on intent mode posture token now =
      if is_locked posture
      then ok (refuse "runtime locked" "posture.locked" false (is_shadow mode))
      else if non_empty (injection_of intent)
      then ok (
          refuse (text_append "quarantined untrusted instruction: " (join (injection_of intent)))
            "msf.injection.quarantined" true (is_shadow mode))
      else if is_read_only (classify intent.capability)
      then ok (
          permit "read-only capability: security knowledge, not authority"
            "msf.capability.read_only" (is_shadow mode))
      else evaluate_lane intent mode token now

  -- `_sign_evidence`
  unfoldable pub sign_evidence : MetasploitIntent → PolicyDecision → String → Result EvidenceEvent
  sign_evidence intent decision decision_id = do
    h ← intent_hash host intent
    c ← contract_hash host
    let event : EvidenceEvent = unsigned_event host intent decision decision_id h c
    signature ← hmac_signature host (unsigned event) signing_key
    ok (record event { signature = signature })

  abbrev pub decision_of : MetasploitIntent → String → Posture → Ruling → ℕ → PolicyDecision
  decision_of intent env_name posture ruling stamp = record {
    decision = ruling.decision;
    actor = intent.actor;
    action = text_append "mcp.metasploit." intent.capability;
    target = intent.target;
    environment = env_name;
    posture = posture;
    reason = ruling.reason;
    matched_rule = ruling.rule;
    timestamp = stamp;
  }

  -- `_finish`
  unfoldable pub finish :
      MetasploitIntent → String → Posture → Ruling → ℕ → String → Result GovernanceOutcome
  finish intent env_name posture ruling stamp decision_id = do
    let decision : PolicyDecision = decision_of intent env_name posture ruling stamp
    evidence ← sign_evidence intent decision decision_id
    ok (record {
      decision = decision;
      evidence = evidence;
      severe = ruling.severe && is_deny ruling.decision;
      simulated = ruling.simulated;
    })

  -- `MetasploitGovernor.evaluate`, at the time `now`; the decision is made at `stamp`.
  unfoldable pub evaluate :
      MetasploitIntent
      → GovernanceMode
      → String
      → Posture
      → Option CapabilityToken
      → ℕ
      → ℕ
      → String
      → Result GovernanceOutcome
  evaluate intent mode env_name posture token now stamp decision_id = do
    ruling ← rule_on intent mode posture token now
    finish intent env_name posture ruling stamp decision_id

  -- `mint_token` at the time `issued`, for `ttl_seconds` seconds from then
  unfoldable pub mint_token : MetasploitIntent → String → ℕ → ℕ → String → Result CapabilityToken
  mint_token intent approver ttl_seconds issued token_id = do
    h ← intent_hash host intent
    let token : CapabilityToken = unsigned_token intent approver ttl_seconds issued token_id h
    signature ← hmac_signature host (signing_payload host token) signing_key
    ok (record token { signature = signature })

  unfoldable pub verify_evidence : EvidenceEvent → Result Bool
  verify_evidence event = do
    expected ← hmac_signature host (unsigned event) signing_key
    signature_valid event.signature expected
