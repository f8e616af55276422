-- ===== src/Values.antt =====
-- Python's values, as far as the program hashes, logs and redacts them: src/rif_runtime/security.py.
pub mod Normal
pub mod Redaction
pub mod Secrets
use mandare.Prelude.{
  ℕ, String, Bool, true, false, Option, none, some, List, ◌==◌, ◌||◌, ◌&&◌, is_ascii, if◌then◌else◌,
  Error, type_error, attribute_error, Result, ok, err, ◌>>=◌,
}
use Prim.Native.Char.{code}
use Prim.Native.Nat.{compare, Ordering}

-- `number` is an int or a float, by the text that JSON has for it; `seq` is a list or a tuple;
-- `opaque` is a value of any type that `normalize_for_json` does not know, and a set is one too.
mutual
  pub data Value : Type 0 where
    null : Value
    bool : Bool → Value
    number : String → Value
    text : String → Value
    datetime : ℕ → Value
    uuid : String → Value
    bytes : List ℕ → Value
    seq : Items → Value
    set : Items → Value
    dict : Fields → Value
    opaque : Value

  pub data Items : Type 0 where
    nil : Items
    cons : Value → Items → Items

  -- a dict with text keys, in insertion order
  pub data Fields : Type 0 where
    end : Fields
    field : String → Value → Fields → Fields

-- What Python's library computes for the program, which the model takes as given.
pub record Host : Type 0 where
  -- `value.astimezone(UTC).isoformat()`
  pub isoformat : ℕ → String
  -- `base64.urlsafe_b64encode(value).decode()`
  pub encode_bytes : List ℕ → String
  -- `json.dumps(value, sort_keys=True, separators=(",", ":"))`
  pub dumps : Value → String
  -- `hashlib.sha256(text.encode()).hexdigest()`
  pub sha256 : String → String
  -- `hmac.new(key.encode(), text.encode(), hashlib.sha256).hexdigest()`, with the key first
  pub hmac_sha256 : String → String → String
  -- `str(value)` of a value that is no text
  pub str_of : Value → String

-- `d.get(key)`
unfoldable pub get_field : String → Fields → Option Value
get_field k end = none
get_field k (field j v fs) = if j == k then some v else get_field k fs

-- `d[key] = value`
unfoldable pub set_field : String → Value → Fields → Fields
set_field k v end = field k v end
set_field k v (field j w fs) = if j == k then field j v fs else field j w (set_field k v fs)

-- `{key: value for key, value in d.items() if key != k}`
unfoldable pub without : String → Fields → Fields
without k end = end
without k (field j v fs) = let rest = without k fs in if j == k then rest else field j v rest

-- `key in d`
abbrev pub has_field : String → Fields → Bool
has_field k fs = elim (get_field k fs) [ none ↦ false | some _ ↦ true ]

-- A value on which a method of `dict` is called.
unfoldable pub as_dict : Value → Result Fields
as_dict (dict fs) = ok fs
as_dict _ = err attribute_error

-- `str(value)`
unfoldable pub py_str : Host → Value → String
py_str host (text s) = s
py_str host v = host.str_of v

-- `value == s`, for a text `s`
unfoldable pub is_text : String → Option Value → Bool
is_text s (some (text t)) = t == s
is_text s _ = false

-- `hmac.compare_digest` of two texts, which raises on one that is not ASCII.
unfoldable pub compare_digest : String → String → Result Bool
compare_digest a b = if is_ascii a && is_ascii b then ok (a == b) else err type_error
