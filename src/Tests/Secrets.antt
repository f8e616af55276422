-- ===== src/Tests/Secrets.antt =====
-- The theorems on encrypted texts and hashed secrets, over a codec in base one and ciphers that can be
-- computed.
use mandare.Prelude.{
  ℕ, zero, suc, ◌+◌, String, ◌≡◌, refl, ◌∙◌, ap, ◌↔◌, true, none, some, [], ◌∷◌, ◌++◌, is_ascii,
  same_char, if◌then◌else◌, arith, Result, ok, err, value_error, ◌>>=◌,
}
use mandare.Values.{Host, number, text, Fields, end, field}
use mandare.Values.Secrets.{
  Bytes, Crypto, encrypt_text, decrypt_text_from_record, hash_secret, verify_secret, actual_salt,
}
use mandare.Values.Secrets.Recovery.{
  decrypt_text_from_record-encrypt_text, verify_secret-hash_secret,
}
use mandare.Tests.Fixtures.{fixed_host}

-- A number as so many strokes before a text.
strokes : ℕ → String → String
strokes zero s = s
strokes (suc n) s = String.◌∷◌ "I" (strokes n s)

encode : Bytes → String
unfolding strokes
encode [] = ""
encode (n ∷ ns) = strokes n (String.◌∷◌ "." (encode ns))

-- The text with so many strokes before it that were read already.
decode_from : ℕ → String → Bytes
decode_from n String.[] = []
decode_from n (String.◌∷◌ c s) =
    let rest = decode_from 0 s in
    let more = decode_from (suc n) s in if same_char c "I" then more else n ∷ rest

count_strokes : String → ℕ
count_strokes String.[] = 0
count_strokes (String.◌∷◌ c s) = suc (count_strokes s)

decode_from-strokes :
    (m n k : ℕ) (s : String)
    → m + n ≡ k
    → decode_from m (strokes n (String.◌∷◌ "." s)) ≡ k ∷ decode_from 0 s
unfolding decode_from strokes
decode_from-strokes m zero k s e = ap (λ j. j ∷ decode_from 0 s) (omega arith)
decode_from-strokes m (suc n) k s e = decode_from-strokes (suc m) n k s (omega arith)

decode-encode : (b : Bytes) → ◌≡◌ {A = Result Bytes} (ok (decode_from 0 (encode b))) (ok b)
unfolding encode decode_from
decode-encode [] = refl
decode-encode (n ∷ ns) =
    ap (λ b. ok b) (decode_from-strokes 0 n n (encode ns) (omega arith))
    ∙ ap (λ b. b >>= λ ns'. ok (n ∷ ns')) (decode-encode ns)

count_strokes-numeral : (n : ℕ) → ◌≡◌ {A = Result ℕ} (ok (count_strokes (strokes n ""))) (ok n)
unfolding count_strokes strokes
count_strokes-numeral zero = refl
count_strokes-numeral (suc n) = ap (λ r. r >>= λ k. ok (suc k)) (count_strokes-numeral n)

strokes-IsAscii : (n : ℕ) (s : String) → is_ascii s ≡ true → is_ascii (strokes n s) ≡ true
unfolding is_ascii strokes
strokes-IsAscii zero s h = h
strokes-IsAscii (suc n) s h = strokes-IsAscii n s h

encode-IsAscii : (b : Bytes) → is_ascii (encode b) ≡ true
unfolding encode is_ascii
encode-IsAscii [] = refl
encode-IsAscii (n ∷ ns) = strokes-IsAscii n (String.◌∷◌ "." (encode ns)) (encode-IsAscii ns)

abbrev stroke_host : Host
stroke_host = record fixed_host { encode_bytes = encode }

-- The digest is the salt with the length of the password; the cipher leaves a text as it is.
abbrev crypto : Crypto
crypto = record {
  pbkdf2_hmac = λ password salt iterations dklen. ok (salt ++ count_strokes password ∷ []);
  decode_bytes = λ s. ok (decode_from 0 s);
  encrypt = λ key nonce plaintext. ok plaintext;
  decrypt = λ key ciphertext. ok (some ciphertext);
  int_of = λ v. elim v [ number s ↦ ok (count_strokes s) | _ ↦ err value_error ];
  numeral = λ n. strokes n "";
}

abbrev encrypted : Fields
encrypted = field "ciphertext" (text "hello") (
    field "salt" (text "II.")
      (field "kdf" (text "pbkdf2_hmac_sha256") (field "iterations" (number "III") end)))

decrypt_text_from_record-encrypt_text_example :
    decrypt_text_from_record stroke_host crypto encrypted "pass" ≡ ok "hello"
unfolding encrypt_text encode strokes
decrypt_text_from_record-encrypt_text_example =
    decrypt_text_from_record-encrypt_text stroke_host crypto decode-encode count_strokes-numeral
      (λ key nonce plaintext ciphertext e. cc) (2 ∷ []) 5 "hello" "pass" (some []) 3 encrypted refl

abbrev hashed : Fields
hashed = field "algorithm" (text "pbkdf2_hmac_sha256") (
    field "iterations" (number "III")
      (field "salt" (text "I.") (field "digest" (text "I.IIIIII.") end)))

verify_secret-hash_secret_example :
    (verify_secret stroke_host crypto (9 ∷ []) "other" hashed ≡ ok true)
    ↔ (crypto.pbkdf2_hmac "other" (1 ∷ []) 3 none ≡ crypto.pbkdf2_hmac "s3cret" (1 ∷ []) 3 none)
unfolding hash_secret actual_salt strokes encode count_strokes
verify_secret-hash_secret_example =
    verify_secret-hash_secret stroke_host crypto decode-encode count_strokes-numeral encode-IsAscii
      2 [] (9 ∷ []) "s3cret" "other" (some (1 ∷ [])) 3 hashed refl
