-- ===== src/Runtime/State.antt =====
-- The state of `RIFRuntime` (src/rif_runtime/runtime.py), and actions on it.
use mandare.Prelude.{ℕ, String, Bool, List, Dict, if◌then◌else◌, Result, ok, err}
use mandare.Schemas.{Posture, EnvironmentProfile}
use mandare.Governance.Telemetry.{TelemetryStore}
use mandare.PolicyStore.{PolicyRow}
use mandare.Storage.{Line}
use mandare.Capabilities.{CapabilityRegistry}

-- The files of the data directory are fields beside what the process holds; `G` is the type of graphs.
pub record Runtime (G : Type 0) : Type 0 where
  pub environment_name : String
  pub environments : Dict EnvironmentProfile
  pub policy_rows : List PolicyRow
  pub graph : G
  pub telemetry : TelemetryStore
  pub posture : Posture
  pub decisions : List Line
  pub posture_history : List Line
  pub evidence : List Line
  pub capability_evidence : List Line
  pub registry : CapabilityRegistry

-- What one call draws: the timestamp of the decision, the time at which telemetry is read, the
-- identifier and the time of the log row, the time of the governor and the identifier of its event.
pub record Draws : Type 0 where
  pub stamp : ℕ
  pub observed : ℕ
  pub event_id : String
  pub written_at : String
  pub now : ℕ
  pub decision_id : String

abbrev pub Action : Type 0 → Type 0 → Type 0
Action G A = Runtime G → Result A × Runtime G

module _ {G : Type 0} where
  abbrev pub pure : {A : Type 0} → A → Action G A
  pure a s = (ok a, s)

  abbrev pub lift : {A : Type 0} → Result A → Action G A
  lift r s = (r, s)

  abbrev pub gets : {A : Type 0} → (Runtime G → A) → Action G A
  gets f s = (ok (f s), s)

  abbrev pub modify : (Runtime G → Runtime G) → Action G (Unit {0})
  modify f s = (ok tt, f s)

  -- `if c: m`
  abbrev pub when : Bool → Action G (Unit {0}) → Action G (Unit {0})
  when c m s = if c then m s else (ok tt, s)

  infixl 5 ◌>>=◌ ◌>>◌
  abbrev pub ◌>>=◌ : {A B : Type 0} → Action G A → (A → Action G B) → Action G B
  ◌>>=◌ m f s = let (r, s') = m s in elim r [ ok a ↦ f a s' | err e ↦ (err e, s') ]

  abbrev pub ◌>>◌ : {A B : Type 0} → Action G A → Action G B → Action G B
  m >> k = m >>= λ _. k
