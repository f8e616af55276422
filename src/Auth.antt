-- ===== src/Auth.antt =====
-- src/rif_runtime/auth.py: the guards of the HTTP routes. The process environment is a dict of texts,
-- and a reply is a value, an `HTTPException` or another exception.
pub mod Guard
use Prim.Native.Nat.{ℕ}
use Prim.Native.Char.{Char}
use Prim.Native.String
use mandare.Prelude.{
  String, Bool, true, false, not, ◌||◌, Option, none, some, List, [], ◌∷◌, ◌==◌, any, filter, map,
  contains, Dict, lookup, lower, strip, same_char, if◌then◌else◌, Error, Result, ok, err,
}

pub data Reply {ℓ} (A : Type ℓ) : Type ℓ where
  returned : A → Reply A
  -- `HTTPException(status_code, detail)`
  refused : ℕ → String → Reply A
  raised : Error → Reply A

abbrev pub Environ : Type 0
Environ = Dict String

-- `os.getenv(name, "")`
abbrev pub getenv : String → Environ → String
getenv name env = elim (lookup name env) [ none ↦ "" | some s ↦ s ]

-- The part before the first comma is `c` and what was read of it; the parts after it are `rest`.
push_char : Char → List String → List String
push_char c [] = String.◌∷◌ c "" ∷ []
push_char c (s ∷ ss) = String.◌∷◌ c s ∷ ss

-- `text.split(",")`
unfoldable pub split_commas : String → List String
unfolding push_char
split_commas String.[] = "" ∷ []
split_commas (String.◌∷◌ c s) =
    let rest = split_commas s in if same_char c "," then "" ∷ rest else push_char c rest

abbrev pub env_var : String
env_var = "RIF_CONTROL_PLANE_API_KEYS"

abbrev pub read_auth_env_var : String
read_auth_env_var = "RIF_REQUIRE_READ_AUTH"

abbrev pub truthy : List String
truthy = "1" ∷ "true" ∷ "yes" ∷ "on" ∷ []

-- `_configured_keys`: the set, as a list
unfoldable pub configured_keys : Environ → List String
configured_keys env =
    filter (λ key. not (key == "")) (map strip (split_commas (getenv env_var env)))

-- `matches`: every key is compared. The UTF-8 bytes of two texts are equal when the texts are.
unfoldable pub key_matches : List String → String → List Bool
key_matches configured candidate = map (λ key. candidate == key) configured

-- `if not x_api_key or not any(matches)`
unfoldable pub check_key : List String → Option String → Reply String
unfolding key_matches
check_key configured none = refused 401 "invalid or missing API key"
check_key configured (some key) =
    if key == "" || not (any (λ b. b) (key_matches configured key))
    then refused 401 "invalid or missing API key"
    else returned key

-- `if not configured`
unfoldable pub check_configured : List String → Option String → Reply String
check_configured [] key = refused 503 "control-plane authentication is not configured"
check_configured (k ∷ ks) key = check_key (k ∷ ks) key

unfoldable pub require_api_key : Environ → Option String → Reply String
unfolding configured_keys check_configured check_key
require_api_key env key = check_configured (configured_keys env) key

unfoldable pub read_auth_required : Environ → Bool
read_auth_required env = contains truthy (lower (strip (getenv read_auth_env_var env)))

-- `require_read_api_key`: `none` stands for the answer of a guard that is switched off.
unfoldable pub require_read_api_key : Environ → Option String → Reply (Option String)
unfolding read_auth_required
require_read_api_key env key =
    if read_auth_required env then some_of (require_api_key env key) else returned none
  where
    some_of : Reply String → Reply (Option String)
    some_of (returned k) = returned (some k)
    some_of (refused status detail) = refused status detail
    some_of (raised e) = raised e
