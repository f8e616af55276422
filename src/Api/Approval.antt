-- ===== src/Api/Approval.antt =====
-- When `create_run` of src/rif_runtime/api.py approves a run.
use mandare.Prelude.{String, ◌≡◌}
use mandare.Auth.{returned}
use mandare.Runs.{policy_approved, RunRequest, RunRecord}
use mandare.Runtime.{evaluate as runtime_evaluate}
use mandare.Runtime.Execution.{IsAuthorised}
use mandare.Api.State.{Deployment, Service, Headers, ApiDraws, run_is}
use mandare.Api.Guards.{Route, require_identity}
use mandare.Api.Creation.{run_request}

module _ (dep : Deployment) where
  abbrev Replies : Route dep → Service dep.nx.Graph → RunRecord → Type 0
  Replies route s r = (route s).0 ≡ returned (run_is r)

  -- What stands behind a run that was created: the caller's identity was verified, the engine
  -- allowed the caller to create the run, and the record is the caller's.
  pub record IsApproval (headers : Headers) (fresh : ApiDraws) (req : RunRequest)
      (s : Service dep.nx.Graph) (r : RunRecord) : Type 0 where
    pub user : String
    pub verified : require_identity dep headers ≡ returned user
    pub authorised :
        IsAuthorised dep.host dep.nx dep.hostname fresh.draws (run_request dep user req) s.runtime
    pub owner : r.identity_id ≡ user
    pub status : r.status ≡ policy_approved
