-- ===== src/Tests/Routes.antt =====
-- The theorems on the routes, at concrete requests.
use mandare.Prelude.{
  ℕ, String, ◌≡◌, refl, Bool, true, false, Option, none, some, List, [], ◌∷◌, Result, ok, err,
  value_error, Error, ltb,
}
use mandare.Schemas.{locked}
use mandare.Auth.{Reply, returned, Environ, configured_keys, require_api_key}
use mandare.Auth.Guard.{guard_of, listed_keys, require_api_key-eq-guard_of}
use mandare.Supabase.{SupabasePackage}
use mandare.Runs.{policy_approved, RunRequest, RunRecord}
use mandare.PolicyStore.{allow_run_create}
use mandare.Governance.Drift.{Floats, Scanner}
use mandare.Api.State.{Deployment, Service, Headers, ApiDraws, Call}
use mandare.Api.{dispatch}
use mandare.Api.Guarded.{dispatch_unauthorised}
use mandare.Tests.Fixtures.{fixed_host, counting, bare, start, draws}

abbrev floats : Floats
floats = record { Float = ℕ; literal = λ n. n; ltf = ltb; ratio = λ a b. a; shannon = λ n ns. n }

abbrev scanner : Scanner
scanner = record { urlparse = λ s. err value_error; unquote = λ s. s }

abbrev env : Environ
env =
    ("RIF_CONTROL_PLANE_API_KEYS", "alpha, beta")
    ∷ ("SUPABASE_URL", "https://db.example")
    ∷ ("SUPABASE_ANON_KEY", "anon")
    ∷ []

abbrev package_ : SupabasePackage
package_ = record {
  installed = true;
  get_user = λ token. ok (some "u1");
  inserts = λ table fields. true;
  updates = λ run. true;
}

abbrev deployment : Deployment
deployment = record {
  host = fixed_host;
  nx = counting;
  hostname = bare;
  env = env;
  supabase = package_;
  signing_key = "key";
  floats = floats;
  scanner = scanner;
  parse_intent = λ v. err value_error;
  parse_mode = λ v. err value_error;
  parse_token = λ v. err value_error;
  to_int = λ v. err value_error;
  same_key = λ v w. false;
  is_truthy = λ v. false;
  str_error = λ e. "invalid";
}

abbrev service : Service ℕ
service = record { runtime = record start { policy_rows = allow_run_create ∷ [] }; remote = [] }

abbrev fresh : ApiDraws
fresh = record { draws = draws; run_id = "r1"; created_at = 8; token_id = "t1"; issued = 8 }

abbrev wrong_key : Headers
wrong_key = record { x_api_key = some "gamma"; bearer = none }

abbrev signed_in : Headers
signed_in = record { x_api_key = none; bearer = some "jwt" }

require_api_key-eq-guard_of_example :
    require_api_key env (some "beta") ≡ guard_of (listed_keys env) (some "beta")
require_api_key-eq-guard_of_example = require_api_key-eq-guard_of env (some "beta")

dispatch_unauthorised_example :
    (dispatch deployment wrong_key fresh (Call.set_posture locked) service).1 ≡ service
unfolding configured_keys mandare.Auth.split_commas mandare.Prelude.lookup mandare.Prelude.strip
dispatch_unauthorised_example =
    dispatch_unauthorised deployment wrong_key fresh (Call.set_posture locked) service refl refl

abbrev request : RunRequest
request = record { prompt = "summarise" }

abbrev approved : RunRecord
approved = record {
  run_id = "r1";
  identity_id = "u1";
  status = policy_approved;
  prompt = "summarise";
  created_at = 8;
  policy_decision = some "allow";
  matched_rule = some "policy.allow_run_create";
}
