-- ===== src/Api/Guarded.antt =====
-- Who can change anything through the routes of src/rif_runtime/api.py.
use mandare.Prelude.{
  String, ◌≡◌, refl, ap, inl, inr, Bool, true, false, ◌&&◌, Option, none, some, contains,
  Result-cases,
}
use mandare.Values.{Fields}
use mandare.Auth.{Reply, returned, refused, raised, Environ, configured_keys, require_read_api_key}
use mandare.Auth.Guard.{require_api_key-cases, Reply-cases}
use mandare.Runs.{RunRequest}
use mandare.Runtime.State.{Runtime, Draws}
use mandare.Runtime.DryRun.{evaluate-Reads, evaluate_metasploit-Reads}
use mandare.Api.State.{Deployment, Service, Headers, ApiDraws, Call}
use mandare.Api.Guards.{Route, control_plane, read_plane, require_identity}
use mandare.Api.Payloads.{invoke_request, mcp_invoke, evaluate_body, metasploit_evaluate}
use mandare.Api.Creation.{create_run}
use mandare.Api.{dispatch}

-- The header has a key that is configured.
abbrev pub authorised : Environ → Option String → Bool
authorised env key = elim key [ none ↦ false | some k ↦ contains (configured_keys env) k ]

abbrev pub is_returned {ℓ} : {A : Type ℓ} → Reply A → Bool
is_returned (returned a) = true
is_returned (refused status detail) = false
is_returned (raised e) = false

abbrev pub is_create_run : Call → Bool
is_create_run (Call.create_run req) = true
is_create_run _ = false

module _ (dep : Deployment) where
  abbrev with_runtime : Service dep.nx.Graph → Runtime dep.nx.Graph → Service dep.nx.Graph
  with_runtime s t = record s { runtime = t }

  abbrev Keeps : Route dep → Service dep.nx.Graph → Type 0
  Keeps route s = (route s).1 ≡ s

  control_plane-Keeps :
      (headers : Headers) (route : Route dep) (s : Service dep.nx.Graph)
      → authorised dep.env headers.x_api_key ≡ false
      → Keeps (control_plane dep headers route) s
  unfolding control_plane
  control_plane-Keeps headers route s h = elim (require_api_key-cases dep.env headers.x_api_key) [
    | inl (k, given, there, passed) ↦ cc (rw given at h, there)
    | inr (status, detail, stopped) ↦ rw stopped refl
  ]

  read_plane-Keeps :
      (headers : Headers) (route : Route dep) (s : Service dep.nx.Graph)
      → Keeps route s
      → Keeps (read_plane dep headers route) s
  unfolding read_plane
  read_plane-Keeps headers route s h =
      elim (Reply-cases (require_read_api_key dep.env headers.x_api_key)) [
        | inl (key, passed) ↦ rw passed h
        | inr (inl (status, detail, stopped)) ↦ rw stopped refl
        | inr (inr (e, stopped)) ↦ rw stopped refl
      ]

  create_run-Keeps :
      (headers : Headers) (fresh : ApiDraws) (req : RunRequest) (s : Service dep.nx.Graph)
      → is_returned (require_identity dep headers) ≡ false
      → Keeps (create_run dep headers fresh req) s
  unfolding create_run
  create_run-Keeps headers fresh req s h = elim (Reply-cases (require_identity dep headers)) [
    | inl (user, passed) ↦ cc (rw passed at h)
    | inr (inl (status, detail, stopped)) ↦ rw stopped refl
    | inr (inr (e, stopped)) ↦ rw stopped refl
  ]

  mcp_invoke-Keeps :
      (draws : Draws) (payload : Fields) (s : Service dep.nx.Graph)
      → Keeps (mcp_invoke dep draws payload) s
  unfolding mcp_invoke
  mcp_invoke-Keeps draws payload s = elim (Result-cases (invoke_request dep payload)) [
    | inr (e, wrong) ↦ rw (wrong, mcp_invoke) refl
    | inl (req, right) ↦
        rw (right, mcp_invoke)
          (ap (λ (t : Runtime dep.nx.Graph). with_runtime s t)
            (evaluate-Reads dep.host dep.nx dep.hostname draws req s.runtime))
  ]

  metasploit_evaluate-Keeps :
      (draws : Draws) (payload : Fields) (s : Service dep.nx.Graph)
      → Keeps (metasploit_evaluate dep draws payload) s
  unfolding metasploit_evaluate
  metasploit_evaluate-Keeps draws payload s = elim (Result-cases (evaluate_body dep payload)) [
    | inr (e, wrong) ↦ rw (wrong, metasploit_evaluate) refl
    | inl (body, right) ↦
        rw (right, metasploit_evaluate)
          (ap (λ (t : Runtime dep.nx.Graph). with_runtime s t)
            (evaluate_metasploit-Reads dep.host dep.nx dep.signing_key draws body.intent body.mode
              body.token s.runtime))
  ]

  -- A request without a configured API key changes nothing, neither in the runtime and its files nor in
  -- the remote tables, whichever route it takes and whatever the reply; but for the creation of a run
  -- by a caller whose identity was verified.
  pub dispatch_unauthorised :
      (headers : Headers) (fresh : ApiDraws) (c : Call) (s : Service dep.nx.Graph)
      → authorised dep.env headers.x_api_key ≡ false
      → (is_create_run c && is_returned (require_identity dep headers)) ≡ false
      → (dispatch dep headers fresh c s).1 ≡ s
  unfolding dispatch
  dispatch_unauthorised headers fresh Call.health s no_key no_user = refl
  dispatch_unauthorised headers fresh Call.environments s no_key no_user = refl
  dispatch_unauthorised headers fresh Call.root s no_key no_user = refl
  dispatch_unauthorised headers fresh Call.metasploit_capabilities s no_key no_user = refl
  dispatch_unauthorised headers fresh (Call.mcp_invoke payload) s no_key no_user =
      mcp_invoke-Keeps fresh.draws payload s
  dispatch_unauthorised headers fresh (Call.metasploit_evaluate payload) s no_key no_user =
      metasploit_evaluate-Keeps fresh.draws payload s
  dispatch_unauthorised headers fresh (Call.create_run req) s no_key no_user =
      create_run-Keeps headers fresh req s no_user
  dispatch_unauthorised headers fresh Call.graph_summary s no_key no_user =
      read_plane-Keeps headers _ s refl
  dispatch_unauthorised headers fresh Call.telemetry_summary s no_key no_user =
      read_plane-Keeps headers _ s refl
  dispatch_unauthorised headers fresh Call.audit s no_key no_user =
      read_plane-Keeps headers _ s refl
  dispatch_unauthorised headers fresh Call.persistence_summary s no_key no_user =
      read_plane-Keeps headers _ s refl
  dispatch_unauthorised headers fresh Call.recovered_state s no_key no_user =
      read_plane-Keeps headers _ s refl
  dispatch_unauthorised headers fresh Call.drift_recommend s no_key no_user =
      read_plane-Keeps headers _ s refl
  dispatch_unauthorised headers fresh Call.list_policies s no_key no_user =
      read_plane-Keeps headers _ s refl
  dispatch_unauthorised headers fresh Call.reset_posture s no_key no_user =
      control_plane-Keeps headers _ s no_key
  dispatch_unauthorised headers fresh (Call.set_environment name) s no_key no_user =
      control_plane-Keeps headers _ s no_key
  dispatch_unauthorised headers fresh (Call.set_posture p) s no_key no_user =
      control_plane-Keeps headers _ s no_key
  dispatch_unauthorised headers fresh (Call.evaluate req) s no_key no_user =
      control_plane-Keeps headers _ s no_key
  dispatch_unauthorised headers fresh (Call.metasploit_token payload) s no_key no_user =
      control_plane-Keeps headers _ s no_key
  dispatch_unauthorised headers fresh (Call.upsert_policy rule_id rule) s no_key no_user =
      control_plane-Keeps headers _ s no_key
  dispatch_unauthorised headers fresh (Call.delete_policy rule_id) s no_key no_user =
      control_plane-Keeps headers _ s no_key
