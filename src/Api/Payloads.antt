-- ===== src/Api/Payloads.antt =====
-- The routes of src/rif_runtime/api.py that look into a free dict: `mcp_invoke`, `metasploit_evaluate` and
-- `metasploit_token`.
use mandare.Prelude.{
  ℕ, String, false, ◌||◌, Option, none, some, if◌then◌else◌, Error, Result, ok, err, value_error,
  ◌>>=◌,
}
use mandare.Values.{Value, null, number, text, dict, Fields, get_field}
use mandare.Schemas.{PolicyRequest}
use mandare.Auth.{Reply, refused, raised}
use mandare.Mcp.Intent.{GovernanceMode, MetasploitIntent, CapabilityToken}
use mandare.Mcp.Governor.{mint_token}
use mandare.Runtime.State.{Draws}
use mandare.Runtime.{evaluate as runtime_evaluate}
use mandare.Runtime.Governed.{evaluate_metasploit}
use mandare.Mcp.Intent.{intent_hash}
use mandare.Api.State.{Deployment, ApiDraws, Response, decided, governed, minted}
use mandare.Api.Guards.{is_value_error, is_type_error, Route, reply_of, call}

module _ (dep : Deployment) where
  -- `payload.get(key, default)` for a text field of a model
  unfoldable pub text_or : String → String → Fields → Result String
  text_or key default payload = elim (get_field key payload) [
    | none ↦ ok default
    | some v ↦ text_of v
  ]
    where
      text_of : Value → Result String
      text_of (text s) = ok s
      text_of _ = err value_error

  -- `payload.get("reason")`
  unfoldable pub reason_of : Fields → Result (Option String)
  reason_of payload = elim (get_field "reason" payload) [
    | none ↦ ok none
    | some null ↦ ok none
    | some (text s) ↦ ok (some s)
    | some _ ↦ err value_error
  ]

  -- `mcp_invoke`: a dry run
  unfoldable pub invoke_request : Fields → Result PolicyRequest
  unfolding text_or reason_of
  invoke_request payload = do
    actor ← text_or "actor" "agent:mcp" payload
    target ← text_or "target" "unknown" payload
    reason ← reason_of payload
    ok (record { actor = actor; action = "mcp.invoke"; target = target; reason = reason })

  unfoldable pub mcp_invoke : Draws → Fields → Route dep
  unfolding invoke_request
  mcp_invoke draws payload s = elim (invoke_request payload) [
    | err e ↦ (raised e, s)
    | ok req ↦ call dep decided (runtime_evaluate dep.host dep.nx dep.hostname draws req false) s
  ]

  abbrev pub get_or : String → Value → Fields → Value
  get_or key default payload = elim (get_field key payload) [ none ↦ default | some v ↦ v ]

  unfoldable pub parse_optional_token : Fields → Result (Option CapabilityToken)
  parse_optional_token payload =
      if dep.is_truthy (get_or "token" null payload)
      then (do token ← dep.parse_token (get_or "token" null payload); ok (some token))
      else ok none

  pub record EvaluateBody : Type 0 where
    pub intent : MetasploitIntent
    pub mode : GovernanceMode
    pub token : Option CapabilityToken

  unfoldable pub evaluate_body : Fields → Result EvaluateBody
  unfolding parse_optional_token
  evaluate_body payload = do
    intent ← dep.parse_intent (get_or "intent" (dict payload) payload)
    mode ← dep.parse_mode (get_or "mode" (text "read_only_firewall") payload)
    token ← parse_optional_token payload
    ok (record { intent = intent; mode = mode; token = token })

  -- `except (ValidationError, ValueError)`
  abbrev pub unprocessable : Error → Reply (Response dep.floats)
  unprocessable e = if is_value_error e then refused 422 (dep.str_error e) else raised e

  -- `metasploit_evaluate`: a dry run
  unfoldable pub metasploit_evaluate : Draws → Fields → Route dep
  unfolding evaluate_body
  metasploit_evaluate draws payload s = elim (evaluate_body payload) [
    | err e ↦ (unprocessable e, s)
    | ok body ↦
        call dep (λ outcome. governed outcome s.runtime.posture)
          (evaluate_metasploit dep.host dep.nx dep.signing_key draws body.intent body.mode
            body.token false)
          s
  ]

  pub record TokenBody : Type 0 where
    pub intent : MetasploitIntent
    pub ttl_seconds : ℕ

  unfoldable pub token_body : Value → Fields → Result TokenBody
  token_body intent_value payload = do
    intent ← dep.parse_intent intent_value
    ttl ← dep.to_int (get_or "ttl_seconds" (number "600") payload)
    ok (record { intent = intent; ttl_seconds = ttl })

  -- The digest is taken before the token, and with it the approver, is validated.
  unfoldable pub mint_for : ApiDraws → Fields → TokenBody → Result CapabilityToken
  unfolding text_or
  mint_for fresh payload body = do
    _ ← intent_hash dep.host body.intent
    approver ← text_or "approver" "human:operator" payload
    mint_token dep.host dep.signing_key body.intent approver body.ttl_seconds fresh.issued
        fresh.token_id

  -- `except (ValidationError, TypeError, ValueError)`
  abbrev pub unprocessable_body : Error → Reply (Response dep.floats)
  unprocessable_body e =
      if is_value_error e || is_type_error e then refused 422 (dep.str_error e) else raised e

  unfoldable pub token_reply : ApiDraws → Fields → Reply (Response dep.floats)
  unfolding token_body mint_for
  token_reply fresh payload = elim (get_field "intent" payload) [
    | none ↦ refused 422 "missing 'intent' in payload"
    | some v ↦ elim (token_body v payload) [
      | err e ↦ unprocessable_body e
      | ok body ↦ reply_of dep minted (mint_for fresh payload body)
    ]
  ]
