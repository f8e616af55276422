-- ===== src/Values/Secrets/Recovery.antt =====
-- What was encrypted or hashed is recovered or recognised (src/rif_runtime/security.py).
use mandare.Prelude.{
  ℕ, String, true, ◌≡◌, refl, sym, ap, ◌∙◌, ◌↔◌, inl, inr, ◌==◌, eq_iff, eq_refl, is_ascii, Option,
  none, some, [], ◌∷◌, ok, Result-cases, ok_injective,
}
use mandare.Values.{number, Fields, Host, get_field, py_str, compare_digest}
use mandare.Values.Secrets.{
  Bytes, Crypto, item, actual_salt, derive_fernet_key, encrypt_text, decrypt_text,
  decrypt_text_from_record, hash_secret, verify_secret,
}

-- A salt that is used is used again: it is not empty, and so no other is drawn.
actual_salt_again :
    (salt : Option Bytes) (b : ℕ) (bs drawn : Bytes)
    → actual_salt (some (actual_salt salt (b ∷ bs))) drawn ≡ actual_salt salt (b ∷ bs)
unfolding actual_salt
actual_salt_again none b bs drawn = refl
actual_salt_again (some []) b bs drawn = refl
actual_salt_again (some (c ∷ cs)) b bs drawn = refl

module _ (host : Host) (crypto : Crypto)
    (decode-encode : (b : Bytes) → crypto.decode_bytes (host.encode_bytes b) ≡ ok b)
    (int_of-numeral : (n : ℕ) → crypto.int_of (number (crypto.numeral n)) ≡ ok n) where
  -- A record that `encrypt_text` returns is decrypted to the text under the same passphrase, whether
  -- a salt was given, an empty one, or none, if base64 and numerals are read back, and Fernet
  -- decrypts what it encrypted with the same key.
  pub decrypt_text_from_record-encrypt_text :
      ((key : String) (nonce : ℕ) (plaintext ciphertext : String)
        → crypto.encrypt key nonce plaintext ≡ ok ciphertext
        → crypto.decrypt key ciphertext ≡ ok (some plaintext))
      → (drawn : Bytes) (nonce : ℕ) (plaintext passphrase : String) (salt : Option Bytes)
        (iterations : ℕ) (fs : Fields)
      → encrypt_text host crypto drawn nonce plaintext passphrase salt iterations ≡ ok fs
      → decrypt_text_from_record host crypto fs passphrase ≡ ok plaintext
  unfolding encrypt_text decrypt_text_from_record decrypt_text item get_field py_str
  decrypt_text_from_record-encrypt_text decrypts drawn nonce plaintext passphrase salt iterations fs
        encrypted =
      let used = actual_salt salt drawn in
      elim (Result-cases (derive_fernet_key host crypto passphrase used iterations)) [
        | inr (e, raised) ↦ cc (rw raised at encrypted)
        | inl (key, derived) ↦ elim (Result-cases (crypto.encrypt key nonce plaintext)) [
          | inr (e, raised) ↦ cc (rw (derived, raised) at encrypted)
          | inl (ciphertext, made) ↦
              let written = ok_injective (rw (derived, made) at encrypted) in
              rw
                (
                  ← written,
                  int_of-numeral iterations,
                  decode-encode used,
                  derived,
                  decrypts key nonce plaintext ciphertext made,
                )
                refl
        ]
      ]

  module _ (encode-IsAscii : (b : Bytes) → is_ascii (host.encode_bytes b) ≡ true) where
    compare_encoded :
        (a b : Bytes)
        → (compare_digest (host.encode_bytes a) (host.encode_bytes b) ≡ ok true) ↔ (a ≡ b)
    unfolding compare_digest
    compare_encoded a b = (
      (λ accepted.
          let same : (host.encode_bytes a == host.encode_bytes b) ≡ true =
            ok_injective (rw (encode-IsAscii a, encode-IsAscii b) at accepted) in
          let texts = (eq_iff (host.encode_bytes a) (host.encode_bytes b)).0 same in
          ok_injective (sym (decode-encode a) ∙ ap crypto.decode_bytes texts ∙ decode-encode b)),
      (λ e. rw (e, encode-IsAscii b, eq_refl (host.encode_bytes b)) refl),
    )

    -- A record that `hash_secret` returns verifies a secret exactly when that secret has the digest of
    -- the one that was hashed, under the salt that was used: the secret itself, and otherwise only a
    -- collision. Whatever salt is given, and whatever a later draw would be; the drawn salt is not
    -- empty, base64 and numerals are read back, and base64 is ASCII.
    pub verify_secret-hash_secret :
        (b : ℕ) (bs drawn : Bytes) (secret other : String) (salt : Option Bytes) (iterations : ℕ)
        (fs : Fields)
        → hash_secret host crypto (b ∷ bs) secret salt iterations ≡ ok fs
        → (verify_secret host crypto drawn other fs ≡ ok true) ↔ (
            crypto.pbkdf2_hmac other (actual_salt salt (b ∷ bs)) iterations none
            ≡ crypto.pbkdf2_hmac secret (actual_salt salt (b ∷ bs)) iterations none)
    unfolding hash_secret verify_secret item get_field py_str
    verify_secret-hash_secret b bs drawn secret other salt iterations fs hashed =
        let used = actual_salt salt (b ∷ bs) in
        let again = actual_salt_again salt b bs drawn in
        elim (Result-cases (crypto.pbkdf2_hmac secret used iterations none)) [
          | inr (e, raised) ↦ cc (rw raised at hashed)
          | inl (digest, made) ↦
              let written = ok_injective (rw made at hashed) in
              elim (Result-cases (crypto.pbkdf2_hmac other used iterations none)) [
                | inr (e, raised) ↦ (
                  (λ accepted. cc (
                      rw (← written, decode-encode used, int_of-numeral iterations, again, raised)
                        at accepted)),
                  (λ same. cc (raised, made, same)),
                )
                | inl (candidate, found) ↦
                    rw
                      (← written, decode-encode used, int_of-numeral iterations, again, found, made)
                      (
                        (λ accepted. ap ok ((compare_encoded candidate digest).0 accepted)),
                        (λ same. (compare_encoded candidate digest).1 (ok_injective same)),
                      )
              ]
        ]
