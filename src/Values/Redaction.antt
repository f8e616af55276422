-- ===== src/Values/Redaction.antt =====
-- `should_redact_key` and `redact_secrets` of src/rif_runtime/security.py.
use mandare.Prelude.{
  String, ◌≡◌, refl, Bool, true, false, List, [], ◌∷◌, any, lower, is_suffix, is_infix, same_char,
  if◌then◌else◌, ap,
}
use mandare.Values.{
  Value, null, bool, number, text, datetime, uuid, bytes, seq, set, dict, opaque, Items, nil, cons,
  Fields, end, field,
}

abbrev redact_substrings : List String
redact_substrings = "api_key" ∷ "apikey" ∷ "authorization" ∷ "password" ∷ "secret" ∷ "token" ∷ []

abbrev safe_suffixes : List String
safe_suffixes = "_hash" ∷ "_digest" ∷ "_id" ∷ []

-- `key.replace("-", "_")`
underscores : String → String
underscores String.[] = String.[]
underscores (String.◌∷◌ c s) = String.◌∷◌ (if same_char c "-" then "_" else c) (underscores s)

unfoldable pub should_redact_key : String → Bool
unfolding underscores
should_redact_key key =
    let normalized = underscores (lower key) in
    if any (λ s. is_suffix s normalized) safe_suffixes
    then false
    else any (λ f. is_infix f normalized) redact_substrings

abbrev pub redacted : Value
redacted = text "[REDACTED]"

unfoldable mutual
  pub redact_secrets : Value → Value
  redact_secrets (dict fs) = dict (redact_fields fs)
  redact_secrets (seq xs) = seq (redact_items xs)
  redact_secrets null = null
  redact_secrets (bool b) = bool b
  redact_secrets (number n) = number n
  redact_secrets (text s) = text s
  redact_secrets (datetime t) = datetime t
  redact_secrets (uuid s) = uuid s
  redact_secrets (bytes b) = bytes b
  redact_secrets (set xs) = set xs
  redact_secrets opaque = opaque

  pub redact_items : Items → Items
  redact_items nil = nil
  redact_items (cons v xs) = cons (redact_secrets v) (redact_items xs)

  pub redact_fields : Fields → Fields
  redact_fields end = end
  redact_fields (field k v fs) =
      field k (if should_redact_key k then redacted else redact_secrets v) (redact_fields fs)

-- Wherever a dict stands, at any depth below dicts, lists and tuples, a key that is to be redacted
-- has the mark for its value. (A set holds no dict.)
abbrev mutual
  pub IsClean : Value → Type 0
  IsClean (dict fs) = AreCleanFields fs
  IsClean (seq xs) = AreCleanItems xs
  IsClean null = Unit
  IsClean _ = Unit

  pub AreCleanItems : Items → Type 0
  AreCleanItems nil = Unit
  AreCleanItems (cons v xs) = IsClean v × AreCleanItems xs

  pub AreCleanFields : Fields → Type 0
  AreCleanFields end = Unit
  AreCleanFields (field k v fs) =
      (should_redact_key k ≡ true → v ≡ redacted) × IsClean v × AreCleanFields fs

-- The value that `redact_secrets` gives a key.
abbrev under : Bool → Value → Value
under secret v = if secret then redacted else redact_secrets v

under-IsClean : (secret : Bool) (v : Value) → IsClean (redact_secrets v) → IsClean (under secret v)
under-IsClean true v h = tt
under-IsClean false v h = h

under-redacted : (secret : Bool) (v : Value) → secret ≡ true → under secret v ≡ redacted
under-redacted true v e = refl
under-redacted false v e = cc

under_twice :
    (secret : Bool) (v : Value)
    → redact_secrets (redact_secrets v) ≡ redact_secrets v
    → under secret (under secret v) ≡ under secret v
under_twice true v h = refl
under_twice false v h = h

mutual
  unfolding redact_secrets

  IsClean-value : (v : Value) → IsClean (redact_secrets v)
  IsClean-value (dict fs) = IsClean-fields fs
  IsClean-value (seq xs) = IsClean-items xs
  IsClean-value null = tt
  IsClean-value (bool b) = tt
  IsClean-value (number n) = tt
  IsClean-value (text s) = tt
  IsClean-value (datetime t) = tt
  IsClean-value (uuid s) = tt
  IsClean-value (bytes b) = tt
  IsClean-value (set xs) = tt
  IsClean-value opaque = tt

  IsClean-items : (xs : Items) → AreCleanItems (redact_items xs)
  IsClean-items nil = tt
  IsClean-items (cons v xs) = (IsClean-value v, IsClean-items xs)

  IsClean-fields : (fs : Fields) → AreCleanFields (redact_fields fs)
  IsClean-fields end = tt
  IsClean-fields (field k v fs) = (
    under-redacted (should_redact_key k) v,
    under-IsClean (should_redact_key k) v (IsClean-value v),
    IsClean-fields fs,
  )

mutual
  unfolding redact_secrets

  redact_value_again : (v : Value) → redact_secrets (redact_secrets v) ≡ redact_secrets v
  redact_value_again (dict fs) = ap dict (redact_fields_again fs)
  redact_value_again (seq xs) = ap seq (redact_items_again xs)
  redact_value_again null = refl
  redact_value_again (bool b) = refl
  redact_value_again (number n) = refl
  redact_value_again (text s) = refl
  redact_value_again (datetime t) = refl
  redact_value_again (uuid s) = refl
  redact_value_again (bytes b) = refl
  redact_value_again (set xs) = refl
  redact_value_again opaque = refl

  redact_items_again : (xs : Items) → redact_items (redact_items xs) ≡ redact_items xs
  redact_items_again nil = refl
  redact_items_again (cons v xs) = cc (redact_value_again v, redact_items_again xs)

  redact_fields_again : (fs : Fields) → redact_fields (redact_fields fs) ≡ redact_fields fs
  redact_fields_again end = refl
  redact_fields_again (field k v fs) =
      cc (under_twice (should_redact_key k) v (redact_value_again v), redact_fields_again fs)

-- After redaction no key that is to be redacted shows its value, at any depth below dicts, lists and
-- tuples; and redacting a second time changes nothing.
pub redact_secrets-IsClean :
    (v : Value)
    → IsClean (redact_secrets v) × (redact_secrets (redact_secrets v) ≡ redact_secrets v)
redact_secrets-IsClean v = (IsClean-value v, redact_value_again v)
