-- ===== src/Tests/Records.antt =====
-- The theorems on values, logs, audit chains and the registry, at concrete records.
use mathlib.Core.Path.{subst}
use mandare.Prelude.{
  ℕ, String, ◌≡◌, refl, true, false, some, none, List, [], ◌∷◌, ◌++◌, Result, ok, err, value_error,
  lookup, insert, has_key, length,
}
use mandare.Values.{
  Value, text, datetime, dict, seq, Items, nil, cons, Fields, end, field, has_field,
}
use mandare.Values.Normal.{normalize_for_json, normalize_fields, normalize_twice}
use mandare.Values.Redaction.{redact_secrets, IsClean, redact_secrets-IsClean}
use mandare.Audit.{AuditRecord, genesis_hash, with_hash, verify_chain, append_record, last_hash}
use mandare.Audit.Link.{verify_chain_tamper_evident}
use mandare.Storage.{Line, blank, row, breaks, read_all}
use mandare.Storage.Chain.{append_chained, chained_row, verify, verification, ChainVerification}
use mandare.Storage.Chain.Append.{verify-append_chained, append_chained_total}
use mandare.Capabilities.{
  CapabilityRecord, CapabilityRegistry, CapabilityEvaluation, evaluated, revoked, admitted, admit,
  add_evaluation,
}
use mandare.Capabilities.Admission.{
  IsAdmissible, admission, admit_needs_evidence, revoked_readmitted,
}
use mandare.Tests.Fixtures.{fixed_host}

abbrev event : Fields
event = field "actor" (text "agent") (field "at" (datetime 7) end)

abbrev plain_event : Fields
plain_event = field "actor" (text "agent") (field "at" (text "2026-01-01T00:00:00+00:00") end)

redact_secrets-IsClean_example :
    IsClean (redact_secrets (seq (cons (dict (field "Api-Key" (text "s3") end)) nil)))
    × (redact_secrets (redact_secrets (seq (cons (dict (field "Api-Key" (text "s3") end)) nil)))
        ≡ seq (cons (dict (field "Api-Key" (text "[REDACTED]") end)) nil))
unfolding redact_secrets mandare.Values.Redaction.should_redact_key mandare.Prelude.is_suffix
    mandare.Prelude.lower mandare.Prelude.is_infix
redact_secrets-IsClean_example =
    redact_secrets-IsClean (seq (cons (dict (field "Api-Key" (text "s3") end)) nil))

abbrev entry : String → AuditRecord
entry previous = with_hash "e1" "2026" (dict plain_event) previous "ab12"

verify_chain_tamper_evident_example :
    (entry genesis_hash ∷ entry "ab12" ∷ []) ≡ (entry genesis_hash ∷ entry "ab12" ∷ [])
unfolding verify_chain mandare.Audit.calculate_hash mandare.Values.Normal.sha256_digest
    normalize_for_json
verify_chain_tamper_evident_example =
    verify_chain_tamper_evident fixed_host (entry genesis_hash ∷ entry "ab12" ∷ [])
      (entry genesis_hash ∷ entry "ab12" ∷ []) refl refl refl refl ((λ e. refl), ((λ e. refl), tt))

abbrev written : Fields → String → Line
written payload previous =
    row (chained_row payload (with_hash "e1" "2026" (dict payload) previous "ab12"))

abbrev row_value : Line → Value
row_value (row v) = v
row_value _ = text ""

abbrev last_value : List Line → Value
last_value [] = text ""
last_value (l ∷ []) = row_value l
last_value (l ∷ k ∷ ls) = last_value (k ∷ ls)

abbrev one_row : List Line
one_row = written plain_event genesis_hash ∷ []

verify-append_chained_example :
    (v : Value) × (r : ChainVerification) × (read_all (one_row ++ written plain_event "ab12" ∷ [])
      ≡ ok (row_value (written plain_event genesis_hash) ∷ v ∷ []))
    × (verify fixed_host (row_value (written plain_event genesis_hash) ∷ v ∷ []) ≡ ok r)
    × (r.verified ≡ true)
    × (r.chained_rows ≡ 2)
    × (r.unchained_leading ≡ 0)
unfolding append_chained read_all verify normalize_fields mandare.Values.get_field
    mandare.Storage.Chain.tail_hash mandare.Values.as_dict mandare.Audit.new_record
    mandare.Values.Normal.sha256_digest mandare.Values.set_field mandare.Values.py_str breaks
    mandare.Values.without mandare.Values.is_text
verify-append_chained_example =
    verify-append_chained fixed_host "e1" "2026" event one_row
      (one_row ++ written plain_event "ab12" ∷ [])
      (row_value (written plain_event genesis_hash) ∷ []) (verification true 1 0 none) refl refl
      refl refl (λ v e. subst (λ ls. breaks (last_value ls) ≡ false) e refl)

append_chained_total_example :
    (v : Value) × (append_chained fixed_host "e1" "2026" event one_row ≡ ok (one_row ++ row v ∷ []))
unfolding append_chained read_all verify breaks mandare.Values.set_field mandare.Values.as_dict
    mandare.Values.get_field mandare.Audit.new_record mandare.Values.Normal.sha256_digest
    normalize_for_json mandare.Values.without mandare.Values.is_text
append_chained_total_example =
    append_chained_total fixed_host "e1" "2026" event one_row
      (row_value (written plain_event genesis_hash) ∷ []) (verification true 1 0 none) plain_event
      refl refl refl refl refl

abbrev passing : CapabilityEvaluation
passing = record { evaluator = "ci"; suite = "safety"; passed = true }

abbrev echo : CapabilityRecord
echo = record {
  id = "echo";
  name = "Echo";
  verified = true;
  evaluations = passing ∷ [];
  status = evaluated;
}

abbrev echo_revoked : CapabilityRecord
echo_revoked = record echo { status = revoked; evaluations = [] }

abbrev registry_with : CapabilityRecord → CapabilityRegistry
registry_with r = record { capabilities = []; records = ("echo", r) ∷ [] }

admit_needs_evidence_example :
    (r : CapabilityRecord) × (lookup "echo" (registry_with echo).records ≡ some r)
    × IsAdmissible r
    × (record echo { status = admitted } ≡ record r { status = admitted })
    × (lookup "echo" (admission "echo" echo (registry_with echo)).1.records
        ≡ some (record echo { status = admitted }))
    × ((admission "echo" echo (registry_with echo)).1 ≡ record (registry_with echo) {
      records = insert "echo" (record echo { status = admitted }) (registry_with echo).records;
    })
unfolding admit lookup
admit_needs_evidence_example =
    admit_needs_evidence "echo" (registry_with echo) (admission "echo" echo (registry_with echo)).1
      (record echo { status = admitted }) refl

revoked_readmitted_example :
    (registry' : CapabilityRegistry) × (out : CapabilityRecord × CapabilityRegistry)
    × (add_evaluation "echo" passing (registry_with echo_revoked) ≡ ok registry')
    × (admit "echo" registry' ≡ ok out)
unfolding insert lookup
revoked_readmitted_example =
    revoked_readmitted "echo" (registry_with echo_revoked) echo_revoked passing refl refl refl refl
