-- ===== src/Api/Creation.antt =====
-- `create_run` of src/rif_runtime/api.py.
use mandare.Prelude.{String, true, some, text_append, first_chars, if◌then◌else◌, Result, ok, err}
use mandare.Schemas.{is_allow, decision_value, PolicyRequest, PolicyDecision}
use mandare.Auth.{Reply, returned, refused, raised}
use mandare.Supabase.{Tables, write_run, write_evidence}
use mandare.Runs.{policy_approved, denied, run_status_value, RunRequest, RunRecord}
use mandare.Runtime.State.{Runtime}
use mandare.Runtime.{evaluate as runtime_evaluate}
use mandare.Runtime.Governed.{json_dump}
use mandare.Api.State.{Deployment, Service, Headers, ApiDraws, Response, run_is}
use mandare.Api.Guards.{Route, require_identity}

module _ (dep : Deployment) where
  abbrev pub run_request : String → RunRequest → PolicyRequest
  run_request identity_id req = record {
    actor = text_append "user:" identity_id;
    action = "run.create";
    target = first_chars 200 req.prompt;
    reason = some "vercel-frontend-run";
  }

  abbrev pub run_record : ApiDraws → String → RunRequest → PolicyDecision → RunRecord
  run_record fresh identity_id req d = record {
    run_id = fresh.run_id;
    identity_id = identity_id;
    status = if is_allow d.decision then policy_approved else denied;
    prompt = req.prompt;
    created_at = fresh.created_at;
    policy_decision = some (decision_value d.decision);
    matched_rule = some d.matched_rule;
  }

  -- What is written to the remote tables before the reply.
  abbrev pub remote_after : ApiDraws → String → RunRequest → PolicyDecision → Tables → Tables
  remote_after fresh identity_id req d tables =
      let r = run_record fresh identity_id req d in
      write_evidence dep.env dep.supabase fresh.run_id "policy_decision"
        (json_dump dep.host dep.nx d)
        (write_run dep.env dep.supabase fresh.run_id identity_id (run_status_value r.status)
          req.prompt tables)

  -- The reply to a decision on a run.
  abbrev pub run_reply :
      ApiDraws → String → RunRequest → PolicyDecision → Reply (Response dep.floats)
  run_reply fresh identity_id req d =
      if is_allow d.decision
      then returned (run_is (run_record fresh identity_id req d))
      else refused 403 (text_append "policy denied: " d.reason)

  -- The body of `create_run`, for an identity that was verified.
  unfoldable pub create_run_for : ApiDraws → RunRequest → String → Route dep
  create_run_for fresh req identity_id s = after (
      runtime_evaluate dep.host dep.nx dep.hostname fresh.draws (run_request identity_id req) true
        s.runtime)
    where
      after :
          Result PolicyDecision × Runtime dep.nx.Graph
          → Reply (Response dep.floats) × Service dep.nx.Graph
      after (err e, t) = (raised e, record s { runtime = t })
      after (ok d, t) = (
        run_reply fresh identity_id req d,
        record { runtime = t; remote = remote_after fresh identity_id req d s.remote },
      )

  unfoldable pub create_run : Headers → ApiDraws → RunRequest → Route dep
  create_run headers fresh req s = after (require_identity dep headers)
    where
      after : Reply String → Reply (Response dep.floats) × Service dep.nx.Graph
      after (returned identity_id) = create_run_for fresh req identity_id s
      after (refused status detail) = (refused status detail, s)
      after (raised e) = (raised e, s)
