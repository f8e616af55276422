-- ===== src/Governance/Reflexive.antt =====
-- src/rif_runtime/governance/reflexive.py: record a decision, then let the denials of the last hour
-- raise the posture.
use mandare.Prelude.{ℕ}
use mandare.Schemas.{PolicyDecision, Posture}
use mandare.Governance.Posture.{next_posture}
use mandare.Governance.Telemetry.{TelemetryStore, record_event, denial_count}

-- The telemetry afterwards, and the posture that it calls for.
unfoldable pub observe : ℕ → TelemetryStore → PolicyDecision → Posture → TelemetryStore × Posture
observe now t decision current =
    let t' = record_event t decision in (t', next_posture current (denial_count now 60 t'))
