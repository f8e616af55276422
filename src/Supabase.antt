-- ===== src/Supabase.antt =====
-- src/rif_runtime/integrations/supabase.py: the identity check and the remote copies of runs and
-- evidence. The supabase package is a parameter; the rows that its tables received are a list.
pub mod Clients
use mandare.Prelude.{
  String, Bool, ◌||◌, Option, none, some, List, [], ◌∷◌, ◌++◌, ◌==◌, ◌&&◌, map, if◌then◌else◌,
  Error, Result, ok, err, runtime_error, import_error,
}
use mandare.Values.{Value, text, Fields, end, field, get_field, set_field, is_text}
use mandare.Auth.{Reply, returned, refused, Environ, getenv}

pub record SupabasePackage : Type 0 where
  -- whether `from supabase import create_client` works
  pub installed : Bool
  -- `client.auth.get_user(token)`: the identifier of the user, if there is one
  pub get_user : String → Result (Option String)
  -- whether an insert into a table, or an update of the status of a run, goes through
  pub inserts : String → Fields → Bool
  pub updates : String → Bool

abbrev pub Tables : Type 0
Tables = List (String × Fields)

-- `str(exc)` of the exceptions of `anon_client`
unfoldable pub anon_message : Error → String
anon_message import_error =
    "supabase package not installed — run: pip install 'rif-runtime[supabase]'"
anon_message _ = "SUPABASE_URL and SUPABASE_ANON_KEY must be set for JWT verification"

module _ (env : Environ) (package_ : SupabasePackage) where
  -- `_create_client`, after the test of the two variables
  unfoldable pub client_with : String → Result (Unit {0})
  client_with key_variable =
      if getenv "SUPABASE_URL" env == "" || getenv key_variable env == ""
      then err runtime_error
      else if package_.installed
      then ok tt
      else err import_error

  abbrev pub service_client : Result (Unit {0})
  service_client = client_with "SUPABASE_SERVICE_ROLE_KEY"

  abbrev pub anon_client : Result (Unit {0})
  anon_client = client_with "SUPABASE_ANON_KEY"

  -- What `get_user` says of a token.
  abbrev pub user_reply : Result (Option String) → Reply String
  user_reply (err e) = refused 401 "token verification failed"
  user_reply (ok none) = refused 401 "invalid or expired token"
  user_reply (ok (some user)) = returned user

  unfoldable pub verify_jwt : String → Reply String
  unfolding client_with anon_message
  verify_jwt token = elim anon_client [
    | err e ↦ refused 503 (anon_message e)
    | ok _ ↦ user_reply (package_.get_user token)
  ]

  -- The body of `write_evidence` and `write_run`: nothing without a URL, and no exception comes out.
  unfoldable pub insert_row : String → Fields → Tables → Tables
  unfolding client_with
  insert_row table fields tables =
      if getenv "SUPABASE_URL" env == "" then tables else elim service_client [
        | err e ↦ tables
        | ok _ ↦ if package_.inserts table fields then tables ++ (table, fields) ∷ [] else tables
      ]

  unfoldable pub write_evidence : String → String → Value → Tables → Tables
  unfolding insert_row
  write_evidence run_id kind payload tables =
      insert_row "evidence_ledger"
        (field "run_id" (text run_id) (field "kind" (text kind) (field "payload" payload end)))
        tables

  unfoldable pub write_run : String → String → String → String → Tables → Tables
  unfolding insert_row
  write_run run_id identity_id run_status prompt tables =
      insert_row "execution_runs"
        (field "run_id" (text run_id) (
          field "identity_id" (text identity_id)
            (field "status" (text run_status) (field "prompt" (text prompt) end))))
        tables

  abbrev pub with_status : String → String → String × Fields → String × Fields
  with_status run_id run_status (table, fields) =
      if table == "execution_runs" && is_text run_id (get_field "run_id" fields)
      then (table, set_field "status" (text run_status) fields)
      else (table, fields)

  unfoldable pub update_run_status : String → String → Tables → Tables
  unfolding client_with
  update_run_status run_id run_status tables =
      if getenv "SUPABASE_URL" env == "" then tables else elim service_client [
        | err e ↦ tables
        | ok _ ↦
            if package_.updates run_id then map (with_status run_id run_status) tables else tables
      ]
