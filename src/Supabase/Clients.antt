-- ===== src/Supabase/Clients.antt =====
-- The cached clients of src/rif_runtime/integrations/supabase.py. In one environment a cache changes
-- nothing of what a call answers, which is why the other functions do without it.
use mandare.Prelude.{
  String, ◌||◌, ◌==◌, ◌≡◌, refl, sym, arith, inl, inr, Option, none, some, if◌then◌else◌, Result,
  ok, err, runtime_error, import_error, ◌>>=◌, Result-cases,
}
use mandare.Auth.{Environ, getenv}
use mandare.Supabase.{SupabasePackage, client_with}

pub record Client : Type 0 where
  pub url : String
  pub key : String

-- `_svc` and `_anon`
pub record Clients : Type 0 where
  pub svc : Option Client
  pub anon : Option Client

-- `reset_clients`
abbrev pub reset_clients : Clients → Clients
reset_clients clients = record { svc = none; anon = none }

module _ (package_ : SupabasePackage) where
  -- `_create_client`
  abbrev pub create_client : String → String → Result Client
  create_client url key =
      if package_.installed then ok (record { url = url; key = key }) else err import_error

  -- What a client is created from.
  unfoldable pub client_from : Environ → String → Result Client
  client_from env key_variable =
      let url = getenv "SUPABASE_URL" env in
      let key = getenv key_variable env in
      if url == "" || key == "" then err runtime_error else create_client url key

  -- `if _svc is None: _svc = ...`, and the same for `_anon`
  unfoldable pub obtain : Environ → String → Option Client → Result Client × Option Client
  unfolding client_from
  obtain env key_variable (some client) = (ok client, some client)
  obtain env key_variable none = created (client_from env key_variable)
    where
      created : Result Client → Result Client × Option Client
      created (ok client) = (ok client, some client)
      created (err e) = (err e, none)

  -- `service_client`
  abbrev pub service_client : Environ → Clients → Result Client × Clients
  service_client env clients =
      let (r, svc) = obtain env "SUPABASE_SERVICE_ROLE_KEY" clients.svc in
      (r, record clients { svc = svc })

  -- `anon_client`
  abbrev pub anon_client : Environ → Clients → Result Client × Clients
  anon_client env clients =
      let (r, anon) = obtain env "SUPABASE_ANON_KEY" clients.anon in
      (r, record clients { anon = anon })

  -- The cached client, if there is one, is that of the environment.
  abbrev pub IsOf : Environ → String → Option Client → Type 0
  IsOf env key_variable none = Unit
  IsOf env key_variable (some client) = client_from env key_variable ≡ ok client

  -- A call with a cache of the environment answers as one without, and leaves such a cache.
  pub obtain-IsOf :
      (env : Environ) (key_variable : String) (cached : Option Client)
      → IsOf env key_variable cached
      → ((obtain env key_variable cached).0 ≡ client_from env key_variable)
        × IsOf env key_variable (obtain env key_variable cached).1
  unfolding obtain
  obtain-IsOf env key_variable (some client) same = (sym same, same)
  obtain-IsOf env key_variable none same = elim (Result-cases (client_from env key_variable)) [
    | inl (client, made) ↦ rw made (refl, made)
    | inr (e, raised) ↦ rw raised (refl, tt)
  ]

  -- It raises where the test without a client does.
  pub client_from-client_with :
      (env : Environ) (key_variable : String)
      → (client_from env key_variable >>= λ client. ok tt) ≡ client_with env package_ key_variable
  unfolding client_from client_with
  client_from-client_with env key_variable = ground arith
