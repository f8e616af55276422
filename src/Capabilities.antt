-- ===== src/Capabilities.antt =====
-- src/rif_runtime/capabilities and execution/kernel.py: executable capabilities beside the records that
-- admit them. A record is shared by reference, so `admit` changes it where the registry holds it. The
-- fields of a record that no code reads are left out.
pub mod Admission
pub mod Echo
use mandare.Prelude.{
  ℕ, String, Bool, true, false, not, Option, none, some, List, [], ◌∷◌, ◌++◌, ◌==◌, any, Dict,
  lookup, insert, has_key, if◌then◌else◌, Result, ok, err, value_error, not_found, policy_violation,
  raise_if, ◌>>=◌, ◌>>◌,
}
use mandare.Values.{Value, Fields, end, field}

pub data CapabilityStatus : Type 0 where
  discovered identified inspected scanned evaluated admitted available revoked : CapabilityStatus

pub record CapabilityEvaluation : Type 0 where
  pub evaluator : String
  pub suite : String
  pub passed : Bool

pub record CapabilityRecord : Type 0 where
  pub id : String
  pub name : String
  pub verified : Bool
  pub evaluations : List CapabilityEvaluation
  pub status : CapabilityStatus

pub data ExecutionStatus : Type 0 where
  pending running succeeded failed denied : ExecutionStatus

pub record ExecutionManifest : Type 0 where
  pub actor : String
  pub capability : String
  pub action : String
  pub target : Option String
  pub parameters : Fields
  pub metadata : Fields
  pub manifest_id : String

pub record ExecutionResult : Type 0 where
  pub status : ExecutionStatus
  pub message : String
  pub output : Fields
  pub metadata : Fields
  pub completed_at : ℕ

-- An executable capability, as its name and its `execute`.
pub record Capability : Type 0 where
  pub name : String
  pub execute : ExecutionManifest → Result ExecutionResult

pub record CapabilityRegistry : Type 0 where
  pub capabilities : Dict Capability
  pub records : Dict CapabilityRecord

abbrev pub new_registry : CapabilityRegistry
new_registry = record { capabilities = []; records = [] }

-- `record is not None and record.id != capability.name`
abbrev pub mismatch : String → Option CapabilityRecord → Bool
mismatch name none = false
mismatch name (some r) = not (r.id == name)

abbrev pub with_record :
    String → Option CapabilityRecord → Dict CapabilityRecord → Dict CapabilityRecord
with_record name none records = records
with_record name (some r) records = insert name r records

-- `CapabilityRegistry.register`
unfoldable pub register :
    Capability → Option CapabilityRecord → CapabilityRegistry → Result CapabilityRegistry
register capability r registry = do
  raise_if (has_key capability.name registry.capabilities) value_error
  raise_if (mismatch capability.name r) value_error
  ok (record {
    capabilities = insert capability.name capability registry.capabilities;
    records = with_record capability.name r registry.records;
  })

-- `register_record`
unfoldable pub register_record : CapabilityRecord → CapabilityRegistry → Result CapabilityRegistry
register_record r registry = do
  raise_if (has_key r.id registry.records) value_error
  ok (record registry { records = insert r.id r registry.records })

abbrev pub or_raise {ℓ} : {A : Type ℓ} → Option A → Result A
or_raise none = err not_found
or_raise (some a) = ok a

-- `resolve`
unfoldable pub resolve : String → CapabilityRegistry → Result Capability
resolve name registry = or_raise (lookup name registry.capabilities)

-- `record`
unfoldable pub record_for : String → CapabilityRegistry → Result CapabilityRecord
record_for name registry = or_raise (lookup name registry.records)

-- `status in {evaluated, admitted, available}`
abbrev pub admissible : CapabilityStatus → Bool
admissible evaluated = true
admissible admitted = true
admissible available = true
admissible _ = false

abbrev pub has_passed : List CapabilityEvaluation → Bool
has_passed evaluations = any (λ e. e.passed) evaluations

-- `admit`: the record as it is afterwards, and the registry
unfoldable pub admit : String → CapabilityRegistry → Result (CapabilityRecord × CapabilityRegistry)
unfolding record_for
admit name registry = do
  r ← record_for name registry
  raise_if (not r.verified) policy_violation
  raise_if (not (has_passed r.evaluations)) policy_violation
  raise_if (not (admissible r.status)) policy_violation
  let r' : CapabilityRecord = record r { status = admitted }
  ok (r', record registry { records = insert name r' registry.records })

-- `add_evaluation`
unfoldable pub add_evaluation :
    String → CapabilityEvaluation → CapabilityRegistry → Result CapabilityRegistry
unfolding record_for
add_evaluation name evaluation registry = do
  r ← record_for name registry
  let r' : CapabilityRecord = record r {
    evaluations = r.evaluations ++ evaluation ∷ [];
    status = if evaluation.passed then evaluated else r.status;
  }
  ok (record registry { records = insert name r' registry.records })

-- `ExecutionKernel.execute`
unfoldable pub kernel_execute : ExecutionManifest → CapabilityRegistry → Result ExecutionResult
unfolding resolve
kernel_execute manifest registry = do
  capability ← resolve manifest.capability registry
  capability.execute manifest
