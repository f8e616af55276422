-- ===== src/Runs.antt =====
-- src/rif_runtime/runs/schemas.py: the requests and the records of runs. The free `context` is read
-- nowhere and is left out.
use mandare.Prelude.{ℕ, String, Option}

pub data RunStatus : Type 0 where
  created policy_approved denied failed : RunStatus

abbrev pub run_status_value : RunStatus → String
run_status_value created = "created"
run_status_value policy_approved = "policy_approved"
run_status_value denied = "denied"
run_status_value failed = "failed"

pub record RunRequest : Type 0 where
  pub prompt : String

pub record RunRecord : Type 0 where
  pub run_id : String
  pub identity_id : String
  pub status : RunStatus
  pub prompt : String
  pub created_at : ℕ
  pub policy_decision : Option String
  pub matched_rule : Option String
