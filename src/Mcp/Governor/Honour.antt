-- ===== src/Mcp/Governor/Honour.antt =====
-- The tokens that the governor of src/rif_runtime/mcp/metasploit.py mints are honoured by it.
use mathlib.Core.Path.{subst}
use mandare.Prelude.{
  ℕ, ◌+◌, ◌*◌, ◌<◌, String, ◌≡◌, refl, inl, inr, Bool, true, false, Bool-cases, some, [], arith,
  ◌==◌, eq_iff, eq_refl, leb, is_ascii, ok, >>=-eq-ok, ok_injective, ◌>>=◌,
}
use mandare.Values.{compare_digest, Host, Value}
use mandare.Values.Normal.{canonical_json, hmac_signature}
use mandare.Schemas.{allow, Posture, is_locked}
use mandare.Mcp.Capabilities.{classify, is_severe}
use mandare.Mcp.Intent.{lab_broker, MetasploitIntent, intent_hash, CapabilityToken, signing_payload}
use mandare.Mcp.Governor.{
  Ruling, permit, injection_of, check_scope, signature_valid, evaluate_broker, evaluate_lane,
  is_read_only, rule_on, mint_token, unsigned_token,
}
use mandare.Mcp.Governor.Authority.{Grants}

module _ (host : Host) (signing_key : String) (intent : MetasploitIntent) (now : ℕ) where
  leb-eq-false : (a b : ℕ) → b < a → leb a b ≡ false
  leb-eq-false a b h = ground arith

  abbrev granted : Ruling
  granted = permit "bounded lab action authorised by capability token" "msf.broker.authorized" false

  check_scope-granted :
      (token : CapabilityToken) (severe : Bool)
      → Grants host signing_key intent now token
      → check_scope host signing_key intent token now severe ≡ ok granted
  unfolding check_scope
  check_scope-granted token severe g = rw (leb-eq-false token.expires_at now g.live) (
      rw ((eq_iff token.capability intent.capability).1 g.capability) (
        rw ((eq_iff token.target intent.target).1 g.target)
          (rw g.intact (rw (eq_refl token.intent_hash)))))

  pub signature_valid_self :
      (s : String)
      → is_ascii s ≡ true
      → (s == "") ≡ false
      → signature_valid host signing_key s s ≡ ok true
  unfolding signature_valid compare_digest
  signature_valid_self s ascii present = rw (present, ascii, eq_refl s)

  evaluate_broker-granted :
      (token : CapabilityToken) (severe : Bool)
      → is_ascii token.signature ≡ true
      → (token.signature == "") ≡ false
      → Grants host signing_key intent now token
      → evaluate_broker host signing_key intent (some token) now severe ≡ ok granted
  unfolding evaluate_broker
  evaluate_broker-granted token severe ascii present g = rw (
    g.signed,
    signature_valid_self token.signature ascii present,
    check_scope-granted token severe g,
  )

  -- In the broker lane a token that grants the intent is honoured, if the signature is one that can be
  -- compared; the runtime must not be locked, and nothing may be injected.
  pub rule_on_granted :
      (posture : Posture) (token : CapabilityToken)
      → is_locked posture ≡ false
      → injection_of intent ≡ []
      → Grants host signing_key intent now token
      → is_ascii token.signature ≡ true
      → (token.signature == "") ≡ false
      → (r : Ruling) × (rule_on host signing_key intent lab_broker posture (some token) now ≡ ok r)
        × (r.decision ≡ allow)
  unfolding rule_on evaluate_lane
  rule_on_granted posture token unlocked clean g ascii present =
      elim (Bool-cases (is_read_only (classify intent.capability))) [
        | inl harmless ↦ (
          permit "read-only capability: security knowledge, not authority"
              "msf.capability.read_only" false,
          rw (unlocked, clean, harmless),
          refl,
        )
        | inr carries ↦ (
          granted,
          rw (unlocked, clean, carries)
              (evaluate_broker-granted token (is_severe intent.capability) ascii present g),
          refl,
        )
      ]

-- HMAC gives a text that can be compared: hexadecimal digits, and not none of them.
pub record IsHex (host : Host) : Type 0 where
  pub ascii : (key message : String) → is_ascii (host.hmac_sha256 key message) ≡ true
  pub present : (key message : String) → (host.hmac_sha256 key message == "") ≡ false

module _ (host : Host) (hex : IsHex host) (signing_key : String) where
  pub hmac_signature_hex :
      (v : Value) (key s : String)
      → hmac_signature host v key ≡ ok s
      → (is_ascii s ≡ true) × ((s == "") ≡ false)
  unfolding hmac_signature
  hmac_signature_hex v key s e =
      let (t, canonical, same) =
        >>=-eq-ok (canonical_json host v) (λ x. ok (host.hmac_sha256 key x)) e in
      let p : host.hmac_sha256 key t ≡ s = ok_injective same in
      (rw (← p) (hex.ascii key t), rw (← p) (hex.present key t))

  mint_token-Grants :
      (intent : MetasploitIntent) (approver token_id : String) (ttl_seconds issued now : ℕ)
      (token : CapabilityToken)
      → mint_token host signing_key intent approver ttl_seconds issued token_id ≡ ok token
      → now < issued + ttl_seconds * 1000000
      → Grants host signing_key intent now token
        × ((is_ascii token.signature ≡ true) × ((token.signature == "") ≡ false))
  unfolding mint_token signing_payload
  mint_token-Grants intent approver token_id ttl_seconds issued now token e live =
      let draft = unsigned_token intent approver ttl_seconds issued token_id in
      let sign = λ (t : CapabilityToken) (s : String).
        let u : CapabilityToken = record t { signature = s } in u in
      let (h, hash, rest) =
        >>=-eq-ok (intent_hash host intent)
          (λ h. do
            s ← hmac_signature host (signing_payload host (draft h)) signing_key
            ok (sign (draft h) s))
          e in
      let (s, mac, same) =
        >>=-eq-ok (hmac_signature host (signing_payload host (draft h)) signing_key)
          (λ s. ok (sign (draft h) s)) rest in
      subst
        (λ (t : CapabilityToken).
          Grants host signing_key intent now t
          × ((is_ascii t.signature ≡ true) × ((t.signature == "") ≡ false)))
        (ok_injective same)
        (
          record { signed = mac; live = live; capability = refl; target = refl; intact = hash },
          hmac_signature_hex (signing_payload host (draft h)) signing_key s mac,
        )

  -- A token that is minted for an intent is honoured for that intent until it expires, in the broker
  -- lane, while the runtime is not locked and where nothing is injected: the ruling is an `allow`.
  pub mint_token_honoured :
      (intent : MetasploitIntent) (approver token_id : String) (ttl_seconds issued now : ℕ)
      (posture : Posture) (token : CapabilityToken)
      → mint_token host signing_key intent approver ttl_seconds issued token_id ≡ ok token
      → now < issued + ttl_seconds * 1000000
      → is_locked posture ≡ false
      → injection_of intent ≡ []
      → (r : Ruling) × (rule_on host signing_key intent lab_broker posture (some token) now ≡ ok r)
        × (r.decision ≡ allow)
  mint_token_honoured intent approver token_id ttl_seconds issued now posture token e live unlocked
        clean =
      let (g, (ascii, present)) =
        mint_token-Grants intent approver token_id ttl_seconds issued now token e live in
      rule_on_granted host signing_key intent now posture token unlocked clean g ascii present
