-- ===== src/Mcp/Intent.antt =====
-- The intents, tokens and evidence of src/rif_runtime/mcp/metasploit.py, and its scan for injected
-- instructions.
use mandare.Prelude.{
  ℕ, String, Bool, not, ◌&&◌, Option, none, some, List, [], ◌∷◌, ◌++◌, ◌==◌, lower, is_infix,
  contains, if◌then◌else◌, Result,
}
use mandare.Values.{Value, text, seq, set, dict, Items, nil, cons, Fields, end, field, Host}
use mandare.Values.Normal.{sha256_digest}
use mandare.Schemas.{PolicyDecision}

abbrev pub injection_patterns : List String
injection_patterns =
    "ignore previous" ∷ "ignore all previous" ∷ "ignore the above" ∷ "disregard previous"
    ∷ "disregard the above" ∷ "new instructions" ∷ "system prompt" ∷ "you are now"
    ∷ "you are authorised" ∷ "you are authorized" ∷ "you are permitted" ∷ "skip safeguards"
    ∷ "skip the safeguards" ∷ "skip governance" ∷ "bypass policy" ∷ "bypass the policy"
    ∷ "bypass governance" ∷ "disable governance" ∷ "disable the policy" ∷ "override policy"
    ∷ "override the policy" ∷ "grant yourself" ∷ "elevate your" ∷ "as an administrator"
    ∷ "act as root" ∷ "no restrictions" ∷ "without approval" ∷ []

pub data GovernanceMode : Type 0 where
  read_only_firewall shadow lab_broker : GovernanceMode

pub record MetasploitIntent : Type 0 where
  pub actor : String
  pub tool : String
  pub capability : String
  pub target : String
  pub scope_id : String
  pub words : Option String
  pub params : Fields
  pub untrusted_context : Option String

-- `MetasploitIntent.intent_hash`
unfoldable pub intent_hash : Host → MetasploitIntent → Result String
intent_hash host intent = sha256_digest host (
    dict (
      field "tool" (text intent.tool) (
        field "capability" (text intent.capability) (
          field "target" (text intent.target)
            (field "scope_id" (text intent.scope_id) (field "params" (dict intent.params) end))))))

-- `issued_at` and `expires_at` are in UTC, as the validator makes them.
pub record CapabilityToken : Type 0 where
  pub token_id : String
  pub capability : String
  pub target : String
  pub scope_id : String
  pub intent_hash : String
  pub approver : String
  pub issued_at : ℕ
  pub expires_at : ℕ
  pub signature : String

-- `CapabilityToken.signing_payload`
unfoldable pub signing_payload : Host → CapabilityToken → Value
signing_payload host token = dict (
    field "token_id" (text token.token_id) (
      field "capability" (text token.capability) (
        field "target" (text token.target) (
          field "scope_id" (text token.scope_id) (
            field "intent_hash" (text token.intent_hash) (
              field "approver" (text token.approver) (
                field "issued_at" (text (host.isoformat token.issued_at))
                  (field "expires_at" (text (host.isoformat token.expires_at)) end))))))))

pub record EvidenceEvent : Type 0 where
  pub decision_id : String
  pub intent_hash : String
  pub tool : String
  pub requested_capability : String
  pub policy_decision : String
  pub scope_id : String
  pub contract_hash : String
  pub matched_rule : String
  pub timestamp : String
  pub signature : String

-- `event.model_dump(exclude={"signature"})`
unfoldable pub unsigned : EvidenceEvent → Value
unsigned event = dict (
    field "decision_id" (text event.decision_id) (
      field "intent_hash" (text event.intent_hash) (
        field "tool" (text event.tool) (
          field "requested_capability" (text event.requested_capability) (
            field "policy_decision" (text event.policy_decision) (
              field "scope_id" (text event.scope_id) (
                field "contract_hash" (text event.contract_hash) (
                  field "matched_rule" (text event.matched_rule)
                    (field "timestamp" (text event.timestamp) end)))))))))

pub record GovernanceOutcome : Type 0 where
  pub decision : PolicyDecision
  pub evidence : EvidenceEvent
  pub severe : Bool
  pub simulated : Bool

-- `_string_params`: every text of a value, through dicts, lists, tuples and sets
unfoldable mutual
  pub string_params : Value → List String
  string_params (text s) = s ∷ []
  string_params (dict fs) = string_params_fields fs
  string_params (seq xs) = string_params_items xs
  string_params (set xs) = string_params_items xs
  string_params _ = []

  pub string_params_items : Items → List String
  string_params_items nil = []
  string_params_items (cons v xs) = string_params v ++ string_params_items xs

  pub string_params_fields : Fields → List String
  string_params_fields end = []
  string_params_fields (field k v fs) = string_params v ++ string_params_fields fs

-- The inner loop of `scan_for_injection`: the patterns of one text that were not hit before.
unfoldable pub scan_patterns : List String → String → List String → List String
scan_patterns [] lowered hits = hits
scan_patterns (p ∷ ps) lowered hits =
    scan_patterns ps lowered
      (if is_infix p lowered && not (contains hits p) then hits ++ p ∷ [] else hits)

unfoldable pub scan_texts : List (Option String) → List String → List String
unfolding scan_patterns
scan_texts [] hits = hits
scan_texts (none ∷ ts) hits = scan_texts ts hits
scan_texts (some t ∷ ts) hits =
    scan_texts ts (if t == "" then hits else scan_patterns injection_patterns (lower t) hits)

unfoldable pub scan_for_injection : List (Option String) → List String
unfolding scan_texts
scan_for_injection texts = scan_texts texts []
