-- ===== src/Mcp/Governor/Evidence.antt =====
-- The evidence that the governor of src/rif_runtime/mcp/metasploit.py signs for each decision.
use mathlib.Core.Path.{subst}
use mandare.Prelude.{
  ℕ, String, ◌≡◌, refl, Bool, true, Option, arith, not, ◌||◌, ok, >>=-eq-ok, ok_injective, ◌>>=◌,
  ◌&&◌,
}
use mandare.Values.{Host}
use mandare.Values.Normal.{hmac_signature}
use mandare.Schemas.{Posture, PolicyDecision, is_deny, decision_value}
use mandare.Mcp.Capabilities.{contract_hash}
use mandare.Mcp.Intent.{
  GovernanceMode, MetasploitIntent, intent_hash, CapabilityToken, EvidenceEvent, unsigned,
  GovernanceOutcome,
}
use mandare.Mcp.Governor.{
  rule_on, unsigned_event, sign_evidence, decision_of, finish, evaluate, verify_evidence,
}
use mandare.Mcp.Governor.Honour.{IsHex, hmac_signature_hex, signature_valid_self}

module _ (host : Host) (hex : IsHex host) (signing_key : String) (intent : MetasploitIntent) where
  -- The evidence of a decision: it carries a valid signature, the digest of the intent and the
  -- decision itself.
  pub record IsEvidenceOf (d : PolicyDecision) (event : EvidenceEvent) : Type 0 where
    pub verified : verify_evidence host signing_key event ≡ ok true
    pub hash : intent_hash host intent ≡ ok event.intent_hash
    pub contract : contract_hash host ≡ ok event.contract_hash
    pub capability : event.requested_capability ≡ intent.capability
    pub decided : event.policy_decision ≡ decision_value d.decision
    pub rule : event.matched_rule ≡ d.matched_rule

  sign_evidence-IsEvidenceOf :
      (d : PolicyDecision) (decision_id : String) (event : EvidenceEvent)
      → sign_evidence host signing_key intent d decision_id ≡ ok event
      → IsEvidenceOf d event
  unfolding sign_evidence verify_evidence unsigned
  sign_evidence-IsEvidenceOf d decision_id event e =
      let draft = unsigned_event host intent d decision_id in
      let sign = λ (v : EvidenceEvent) (s : String).
        let u : EvidenceEvent = record v { signature = s } in u in
      let sealed = λ (h c : String). do
        s ← hmac_signature host (unsigned (draft h c)) signing_key
        ok (sign (draft h c) s)
      in let (h, hash, rest) =
          >>=-eq-ok (intent_hash host intent) (λ h. do c ← contract_hash host; sealed h c) e in
        let (c, contract, last) = >>=-eq-ok (contract_hash host) (λ c. sealed h c) rest in
        let (s, mac, same) =
          >>=-eq-ok (hmac_signature host (unsigned (draft h c)) signing_key)
            (λ s. ok (sign (draft h c) s)) last in
        let (ascii, present) =
          hmac_signature_hex host hex signing_key (unsigned (draft h c)) signing_key s mac in
        subst (λ (v : EvidenceEvent). IsEvidenceOf d v) (ok_injective same)
          (record {
            verified = rw mac (signature_valid_self host signing_key intent 0 s ascii present);
            hash = hash;
            contract = contract;
            capability = refl;
            decided = refl;
            rule = refl;
          })

  severe_denial : (a b : Bool) → (not (a && b) || b) ≡ true
  severe_denial a b = ground arith

  -- Every decision that the governor returns comes with evidence that verifies under its key and that
  -- states the intent's digest, the capability, the decision and the rule; and only a denial is severe.
  pub evaluate_evidence :
      (mode : GovernanceMode) (env_name : String) (posture : Posture) (o : Option CapabilityToken)
      (now stamp : ℕ) (decision_id : String) (out : GovernanceOutcome)
      → evaluate host signing_key intent mode env_name posture o now stamp decision_id ≡ ok out
      → IsEvidenceOf out.decision out.evidence
        × ((not out.severe || is_deny out.decision.decision) ≡ true)
  unfolding evaluate finish
  evaluate_evidence mode env_name posture o now stamp decision_id out e =
      let (r, ruled, finished) =
        >>=-eq-ok (rule_on host signing_key intent mode posture o now)
          (λ r. finish host signing_key intent env_name posture r stamp decision_id) e in
      let d = decision_of host signing_key intent env_name posture r stamp in
      let (event, signed, same) =
        >>=-eq-ok (sign_evidence host signing_key intent d decision_id)
          (λ (v : EvidenceEvent).
            let g : GovernanceOutcome = record {
              decision = d;
              evidence = v;
              severe = r.severe && is_deny r.decision;
              simulated = r.simulated;
            } in
            ok g)
          finished in
      subst
        (λ (g : GovernanceOutcome).
          IsEvidenceOf g.decision g.evidence
          × ((not g.severe || is_deny g.decision.decision) ≡ true))
        (ok_injective same)
        (
          sign_evidence-IsEvidenceOf d decision_id event signed,
          severe_denial r.severe (is_deny r.decision),
        )
