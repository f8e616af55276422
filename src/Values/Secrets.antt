-- ===== src/Values/Secrets.antt =====
-- The encryption of texts and the hashing of secrets in src/rif_runtime/security.py, over the library's
-- functions. A record is a dict with text keys; a count of iterations is a natural number.
pub mod Recovery
use mandare.Prelude.{
  ℕ, String, Bool, ◌≡◌, Option, none, some, List, [], ◌∷◌, Result, ok, err, value_error, key_error,
  ◌>>=◌,
}
use mandare.Values.{
  Value, number, text, Fields, end, field, Host, get_field, py_str, compare_digest,
}
use mandare.Values.Normal.{hmac_signature}

abbrev pub Bytes : Type 0
Bytes = List ℕ

-- What Python and the cryptography package compute for the program.
pub record Crypto : Type 0 where
  -- `hashlib.pbkdf2_hmac("sha256", password.encode(), salt, iterations, dklen)`
  pub pbkdf2_hmac : String → Bytes → ℕ → Option ℕ → Result Bytes
  -- `base64.urlsafe_b64decode(value.encode())`
  pub decode_bytes : String → Result Bytes
  -- `Fernet(key).encrypt(plaintext.encode()).decode()`, for a time and a vector that it draws, with the
  -- key in base64
  pub encrypt : String → ℕ → String → Result String
  -- `Fernet(key).decrypt(ciphertext.encode()).decode()`; `none` stands for `InvalidToken`
  pub decrypt : String → String → Result (Option String)
  -- `int(value)`
  pub int_of : Value → Result ℕ
  -- the text of an int in JSON
  pub numeral : ℕ → String

-- `record[key]`
unfoldable pub item : String → Fields → Result Value
item key fs = elim (get_field key fs) [ none ↦ err key_error | some v ↦ ok v ]

-- `salt or random_salt()`, with the salt that is drawn
unfoldable pub actual_salt : Option Bytes → Bytes → Bytes
actual_salt none drawn = drawn
actual_salt (some []) drawn = drawn
actual_salt (some (b ∷ bs)) drawn = b ∷ bs

module _ (host : Host) (crypto : Crypto) where
  unfoldable pub derive_fernet_key : String → Bytes → ℕ → Result String
  derive_fernet_key passphrase salt iterations = do
    raw ← crypto.pbkdf2_hmac passphrase salt iterations (some 32)
    ok (host.encode_bytes raw)

  -- `encrypt_text`, with the salt and the nonce that it would draw
  unfoldable pub encrypt_text : Bytes → ℕ → String → String → Option Bytes → ℕ → Result Fields
  unfolding actual_salt derive_fernet_key
  encrypt_text drawn nonce plaintext passphrase salt iterations = do
    let used = actual_salt salt drawn
    key ← derive_fernet_key passphrase used iterations
    ciphertext ← crypto.encrypt key nonce plaintext
    ok (
        field "ciphertext" (text ciphertext) (
          field "salt" (text (host.encode_bytes used)) (
            field "kdf" (text "pbkdf2_hmac_sha256")
              (field "iterations" (number (crypto.numeral iterations)) end))))

  -- `decrypt_text`
  unfoldable pub decrypt_text : String → String → String → ℕ → Result String
  unfolding derive_fernet_key
  decrypt_text ciphertext passphrase salt_b64 iterations = do
    salt ← crypto.decode_bytes salt_b64
    key ← derive_fernet_key passphrase salt iterations
    found ← crypto.decrypt key ciphertext
    elim found [ none ↦ err value_error | some plaintext ↦ ok plaintext ]

  unfoldable pub decrypt_text_from_record : Fields → String → Result String
  unfolding decrypt_text item
  decrypt_text_from_record fs passphrase = do
    ciphertext ← item "ciphertext" fs
    salt ← item "salt" fs
    iterations ← item "iterations" fs
    n ← crypto.int_of iterations
    decrypt_text (py_str host ciphertext) passphrase (py_str host salt) n

  -- `hash_secret`, with the salt that it would draw
  unfoldable pub hash_secret : Bytes → String → Option Bytes → ℕ → Result Fields
  unfolding actual_salt
  hash_secret drawn secret salt iterations = do
    let used = actual_salt salt drawn
    digest ← crypto.pbkdf2_hmac secret used iterations none
    ok (
        field "algorithm" (text "pbkdf2_hmac_sha256") (
          field "iterations" (number (crypto.numeral iterations)) (
            field "salt" (text (host.encode_bytes used))
              (field "digest" (text (host.encode_bytes digest)) end))))

  -- `verify_secret`, with the salt that is drawn where that of the record is empty
  unfoldable pub verify_secret : Bytes → String → Fields → Result Bool
  unfolding hash_secret item
  verify_secret drawn secret fs = do
    salt_b64 ← item "salt" fs
    salt ← crypto.decode_bytes (py_str host salt_b64)
    expected ← item "digest" fs
    iterations ← item "iterations" fs
    n ← crypto.int_of iterations
    hashed ← hash_secret drawn secret (some salt) n
    candidate ← item "digest" hashed
    compare_digest (py_str host candidate) (py_str host expected)

unfoldable pub verify_hmac_signature : Host → Value → String → String → Result Bool
unfolding hmac_signature compare_digest
verify_hmac_signature host v key signature = do
  expected ← hmac_signature host v key
  compare_digest expected signature
