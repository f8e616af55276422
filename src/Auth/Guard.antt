-- ===== src/Auth/Guard.antt =====
-- Whom the guards of src/rif_runtime/auth.py let pass.
use mathlib.Core.Path.{subst}
use mandare.Prelude.{
  ℕ, String, ◌≡◌, refl, sym, ◌⊎◌, inl, inr, true, false, not, Bool-cases, Option, none, some, List,
  [], ◌∷◌, arith, ◌==◌, eq_iff, any, map, filter, contains, strip, Error, if◌then◌else◌, ◌&&◌, Bool,
  ◌∙◌,
}
use mandare.Auth.{
  split_commas, getenv, env_var, Reply, returned, refused, raised, Environ, configured_keys,
  key_matches, check_key, check_configured, require_api_key,
}

any-key_matches :
    (configured : List String) (key : String)
    → any (λ b. b) (key_matches configured key) ≡ contains configured key
unfolding key_matches
any-key_matches [] key = refl
any-key_matches (k ∷ ks) key = ground (arith, any-key_matches ks key)

-- A blank key is never configured.
configured_not_blank : (keys : List String) → contains (filter (λ k. not (k == "")) keys) "" ≡ false
configured_not_blank [] = refl
configured_not_blank (k ∷ ks) = ground (arith, eq_iff k "", eq_iff "" k, configured_not_blank ks)

-- The answer of the guard, for the keys that are configured.
abbrev answer_to : List String → Option String → Reply String
answer_to [] key = refused 503 "control-plane authentication is not configured"
answer_to (k ∷ ks) none = refused 401 "invalid or missing API key"
answer_to (k ∷ ks) (some key) =
    if contains (k ∷ ks) key then returned key else refused 401 "invalid or missing API key"

check_configured-eq-answer_to :
    (keys : List String) (key : Option String)
    → contains keys "" ≡ false
    → check_configured keys key ≡ answer_to keys key
unfolding check_configured check_key
check_configured-eq-answer_to [] key clean = refl
check_configured-eq-answer_to (k ∷ ks) none clean = refl
check_configured-eq-answer_to (k ∷ ks) (some key) clean = elim (Bool-cases (key == "")) [
  | inl blank ↦
      let same : key ≡ "" = (eq_iff key "").0 blank in
      let gone : contains (k ∷ ks) key ≡ false =
        subst (λ t. contains (k ∷ ks) t ≡ false) (sym same) clean in
      ground (arith, gone)
  | inr present ↦ rw (present, any-key_matches (k ∷ ks) key) (ground arith)
]

require_api_key-eq-answer_to :
    (env : Environ) (key : Option String)
    → require_api_key env key ≡ answer_to (configured_keys env) key
unfolding require_api_key configured_keys
require_api_key-eq-answer_to env key =
    check_configured-eq-answer_to (configured_keys env) key
      (configured_not_blank (map strip (split_commas (getenv env_var env))))

-- The parts between the commas of the variable, with no space at their ends; some may be blank.
abbrev pub listed_keys : Environ → List String
listed_keys env = map strip (split_commas (getenv env_var env))

-- The guard described from the parts of the variable, in which a blank part counts for nothing.
abbrev pub all_blank : List String → Bool
all_blank [] = true
all_blank (part ∷ parts) = part == "" && all_blank parts

abbrev pub passes : List String → String → Bool
passes parts key = not (key == "") && contains parts key

abbrev pub guard_of : List String → Option String → Reply String
guard_of parts none =
    if all_blank parts
    then refused 503 "control-plane authentication is not configured"
    else refused 401 "invalid or missing API key"
guard_of parts (some key) =
    if all_blank parts
    then refused 503 "control-plane authentication is not configured"
    else if passes parts key
    then returned key
    else refused 401 "invalid or missing API key"

contains-filter :
    (parts : List String) (key : String)
    → contains (filter (λ k. not (k == "")) parts) key ≡ passes parts key
contains-filter [] key = ground arith
contains-filter (part ∷ parts) key = ground (
  arith,
  eq_iff part "",
  eq_iff key "",
  eq_iff part key,
  eq_iff key part,
  contains-filter parts key,
)

abbrev is_empty : List String → Bool
is_empty [] = true
is_empty (k ∷ ks) = false

all_blank-filter :
    (parts : List String) → all_blank parts ≡ is_empty (filter (λ k. not (k == "")) parts)
all_blank-filter [] = refl
all_blank-filter (part ∷ parts) = ground (arith, all_blank-filter parts)

answer_to-filter :
    (parts kept : List String) (key : Option String)
    → all_blank parts ≡ is_empty kept
    → ((k : String) → contains kept k ≡ passes parts k)
    → answer_to kept key ≡ guard_of parts key
answer_to-filter parts [] none blank same = rw blank refl
answer_to-filter parts [] (some key) blank same = rw blank refl
answer_to-filter parts (k ∷ ks) none blank same = rw blank refl
answer_to-filter parts (k ∷ ks) (some key) blank same = rw (blank, ← same key) refl

-- The guard of the control plane, described from the parts between the commas of the variable, each
-- without the space at its ends. Where every part is blank, every request is refused with 503.
-- Otherwise a request passes exactly when it presents a key that is one of the parts and is not blank,
-- and any other is refused with 401. So a blank key does not pass, whatever the variable has.
pub require_api_key-eq-guard_of :
    (env : Environ) (key : Option String) → require_api_key env key ≡ guard_of (listed_keys env) key
unfolding configured_keys
require_api_key-eq-guard_of env key =
    require_api_key-eq-answer_to env key
    ∙ answer_to-filter (listed_keys env) (configured_keys env) key
        (all_blank-filter (listed_keys env)) (contains-filter (listed_keys env))

answer_to-cases :
    (keys : List String) (key : Option String)
    → ((k : String) × (key ≡ some k) × (contains keys k ≡ true) × (answer_to keys key ≡ returned k))
      ⊎ ((status : ℕ) × (detail : String) × (answer_to keys key ≡ refused status detail))
answer_to-cases [] key = inr (503, _, refl)
answer_to-cases (k ∷ ks) none = inr (401, _, refl)
answer_to-cases (k ∷ ks) (some key) = elim (Bool-cases (contains (k ∷ ks) key)) [
  | inl there ↦ inl (key, refl, there, rw there refl)
  | inr missing ↦ inr (401, "invalid or missing API key", rw missing refl)
]

-- A guarded request passes with its key, or it is refused; the guard raises nothing else.
pub require_api_key-cases :
    (env : Environ) (key : Option String)
    → ((k : String) × (key ≡ some k)
        × (contains (configured_keys env) k ≡ true)
        × (require_api_key env key ≡ returned k))
      ⊎ ((status : ℕ) × (detail : String) × (require_api_key env key ≡ refused status detail))
require_api_key-cases env key =
    rw (require_api_key-eq-answer_to env key) (answer_to-cases (configured_keys env) key)

pub Reply-cases {ℓ} :
    {A : Type ℓ} (r : Reply A)
    → ((a : A) × (r ≡ returned a))
      ⊎ (((status : ℕ) × (detail : String) × (r ≡ refused status detail))
          ⊎ ((e : Error) × (r ≡ raised e)))
Reply-cases (returned a) = inl (a, refl)
Reply-cases (refused status detail) = inr (inl (status, detail, refl))
Reply-cases (raised e) = inr (inr (e, refl))
