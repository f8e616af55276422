-- ===== src/Values/Normal.antt =====
-- `normalize_for_json`, `canonical_json` and `sha256_digest` of src/rif_runtime/security.py.
use mandare.Prelude.{String, ◌≡◌, refl, Result, ok, err, type_error, ◌>>=◌, OkAnd}
use mandare.Values.{
  Value, null, bool, number, text, datetime, uuid, bytes, seq, set, dict, opaque, Items, nil, cons,
  Fields, end, field, Host,
}

unfoldable mutual
  pub normalize_for_json : Host → Value → Result Value
  normalize_for_json host (dict fs) = do fs' ← normalize_fields host fs; ok (dict fs')
  normalize_for_json host (seq xs) = do xs' ← normalize_items host xs; ok (seq xs')
  normalize_for_json host (datetime t) = ok (text (host.isoformat t))
  normalize_for_json host (uuid s) = ok (text s)
  normalize_for_json host (bytes b) = ok (text (host.encode_bytes b))
  normalize_for_json host null = ok null
  normalize_for_json host (bool b) = ok (bool b)
  normalize_for_json host (number n) = ok (number n)
  normalize_for_json host (text s) = ok (text s)
  normalize_for_json host (set xs) = err type_error
  normalize_for_json host opaque = err type_error

  pub normalize_items : Host → Items → Result Items
  normalize_items host nil = ok nil
  normalize_items host (cons v xs) = do
    v' ← normalize_for_json host v
    xs' ← normalize_items host xs
    ok (cons v' xs')

  pub normalize_fields : Host → Fields → Result Fields
  normalize_fields host end = ok end
  normalize_fields host (field k v fs) = do
    v' ← normalize_for_json host v
    fs' ← normalize_fields host fs
    ok (field k v' fs')

-- `json.dumps(normalize_for_json(value), sort_keys=True, separators=(",", ":"))`
unfoldable pub canonical_json : Host → Value → Result String
canonical_json host v = do v' ← normalize_for_json host v; ok (host.dumps v')

unfoldable pub sha256_digest : Host → Value → Result String
unfolding canonical_json
sha256_digest host v = do s ← canonical_json host v; ok (host.sha256 s)

unfoldable pub hmac_signature : Host → Value → String → Result String
unfolding canonical_json
hmac_signature host v key = do s ← canonical_json host v; ok (host.hmac_sha256 key s)

module _ (host : Host) where
  -- A value that normalisation leaves as it is.
  abbrev pub IsNormal : Value → Type 0
  IsNormal v = normalize_for_json host v ≡ ok v

  abbrev pub IsNormalFields : Fields → Type 0
  IsNormalFields fs = normalize_fields host fs ≡ ok fs

  abbrev IsNormalItems : Items → Type 0
  IsNormalItems xs = normalize_items host xs ≡ ok xs

  dict-IsNormal :
      (r : Result Fields) → OkAnd IsNormalFields r → OkAnd IsNormal (r >>= λ fs. ok (dict fs))
  unfolding normalize_for_json
  dict-IsNormal (ok fs) h = rw h
  dict-IsNormal (err e) h = tt

  seq-IsNormal :
      (r : Result Items) → OkAnd IsNormalItems r → OkAnd IsNormal (r >>= λ xs. ok (seq xs))
  unfolding normalize_for_json
  seq-IsNormal (ok xs) h = rw h
  seq-IsNormal (err e) h = tt

  cons-IsNormal :
      (r : Result Value) (q : Result Items)
      → OkAnd IsNormal r
      → OkAnd IsNormalItems q
      → OkAnd IsNormalItems (r >>= λ v. q >>= λ xs. ok (cons v xs))
  unfolding normalize_for_json
  cons-IsNormal (ok v) (ok xs) h k = rw (h, k)
  cons-IsNormal (ok v) (err e) h k = tt
  cons-IsNormal (err e) q h k = tt

  field-IsNormal :
      (j : String) (r : Result Value) (q : Result Fields)
      → OkAnd IsNormal r
      → OkAnd IsNormalFields q
      → OkAnd IsNormalFields (r >>= λ v. q >>= λ fs. ok (field j v fs))
  unfolding normalize_for_json
  field-IsNormal j (ok v) (ok fs) h k = rw (h, k)
  field-IsNormal j (ok v) (err e) h k = tt
  field-IsNormal j (err e) q h k = tt

  mutual
    unfolding normalize_for_json

    IsNormal-value : (v : Value) → OkAnd IsNormal (normalize_for_json host v)
    IsNormal-value (dict fs) = dict-IsNormal (normalize_fields host fs) (IsNormal-fields fs)
    IsNormal-value (seq xs) = seq-IsNormal (normalize_items host xs) (IsNormal-items xs)
    IsNormal-value (datetime t) = refl
    IsNormal-value (uuid s) = refl
    IsNormal-value (bytes b) = refl
    IsNormal-value null = refl
    IsNormal-value (bool b) = refl
    IsNormal-value (number n) = refl
    IsNormal-value (text s) = refl
    IsNormal-value (set xs) = tt
    IsNormal-value opaque = tt

    IsNormal-items : (xs : Items) → OkAnd IsNormalItems (normalize_items host xs)
    IsNormal-items nil = refl
    IsNormal-items (cons v xs) =
        cons-IsNormal (normalize_for_json host v) (normalize_items host xs) (IsNormal-value v)
          (IsNormal-items xs)

    IsNormal-fields : (fs : Fields) → OkAnd IsNormalFields (normalize_fields host fs)
    IsNormal-fields end = refl
    IsNormal-fields (field k v fs) =
        field-IsNormal k (normalize_for_json host v) (normalize_fields host fs) (IsNormal-value v)
          (IsNormal-fields fs)

  -- Normalising a second time changes nothing, and does not raise: what is hashed is what is written.
  pub normalize_twice :
      (v w : Value) → normalize_for_json host v ≡ ok w → normalize_for_json host w ≡ ok w
  normalize_twice v w h = rw h at (IsNormal-value v)

  pub normalize_fields_twice :
      (fs gs : Fields) → normalize_fields host fs ≡ ok gs → normalize_fields host gs ≡ ok gs
  normalize_fields_twice fs gs h = rw h at (IsNormal-fields fs)
