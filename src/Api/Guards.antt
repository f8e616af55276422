-- ===== src/Api/Guards.antt =====
-- What the routes of src/rif_runtime/api.py share: replies, and the guards that a route declares.
use mandare.Prelude.{
  String, Bool, true, false, Option, none, some, Error, Result, ok, err, value_error, type_error,
}
use mandare.Auth.{Reply, returned, refused, raised, require_api_key, require_read_api_key}
use mandare.Supabase.{verify_jwt}
use mandare.Runtime.State.{Action}
use mandare.Api.State.{Deployment, Service, Handler, Headers, Response}

-- `isinstance(e, ValueError)`, of which the `ValidationError` is one; `isinstance(e, TypeError)`
abbrev pub is_value_error : Error → Bool
is_value_error value_error = true
is_value_error _ = false

abbrev pub is_type_error : Error → Bool
is_type_error type_error = true
is_type_error _ = false

module _ (dep : Deployment) where
  abbrev pub Route : Type 0
  Route = Handler dep.nx.Graph (Response dep.floats)

  -- A route that answers from the state, and leaves it alone.
  abbrev pub answer : (Service dep.nx.Graph → Reply (Response dep.floats)) → Route
  answer f s = (f s, s)

  abbrev pub reply_of :
      {A : Type 0} → (A → Response dep.floats) → Result A → Reply (Response dep.floats)
  reply_of f (ok a) = returned (f a)
  reply_of f (err e) = raised e

  -- A route that calls a method of the runtime.
  abbrev pub call : {A : Type 0} → (A → Response dep.floats) → Action dep.nx.Graph A → Route
  call f m s = let (r, t) = m s.runtime in (reply_of f r, record s { runtime = t })

  -- `dependencies=[ControlPlaneAuth]`
  unfoldable pub control_plane : Headers → Route → Route
  control_plane headers route s = after (require_api_key dep.env headers.x_api_key)
    where
      after : Reply String → Reply (Response dep.floats) × Service dep.nx.Graph
      after (returned key) = route s
      after (refused status detail) = (refused status detail, s)
      after (raised e) = (raised e, s)

  -- `dependencies=[ReadPlaneAuth]`
  unfoldable pub read_plane : Headers → Route → Route
  read_plane headers route s = after (require_read_api_key dep.env headers.x_api_key)
    where
      after : Reply (Option String) → Reply (Response dep.floats) × Service dep.nx.Graph
      after (returned key) = route s
      after (refused status detail) = (refused status detail, s)
      after (raised e) = (raised e, s)

  -- `_require_identity`
  unfoldable pub require_identity : Headers → Reply String
  require_identity headers = elim headers.bearer [
    | none ↦ refused 401 "missing Authorization header"
    | some token ↦ verify_jwt dep.env dep.supabase token
  ]
