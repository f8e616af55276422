-- ===== src/Storage/Chain/Verified.antt =====
-- What the verification of src/rif_runtime/storage/jsonl.py passes, and that an append keeps it.
use mathlib.Core.Path.{subst}
use mandare.Prelude.{
  ℕ, ◌+◌, String, ◌≡◌, refl, ◌∙◌, ap, Bool, true, false, Bool-cases, inl, inr, none, some, List, [],
  ◌∷◌, ◌++◌, arith, eq_refl, ok, err, Result-cases, >>=-eq-ok, ok_injective, ◌==◌,
}
use mandare.Values.{
  Value, dict, Fields, end, field, Host, get_field, set_field, without, has_field, as_dict, py_str,
  is_text,
}
use mandare.Values.Normal.{sha256_digest}
use mandare.Audit.{AuditRecord, genesis_hash, with_hash, hashed, new_record}
use mandare.Storage.Chain.{
  chain_key, envelope, chained_row, ChainVerification, linked, leading, broken, verification,
  str_field, recompute, link_holds, envelope_of, judge_fields, judge_row, verify_rows, verify,
}

pub get_field-set_field :
    (k : String) (v : Value) (fs : Fields) → get_field k (set_field k v fs) ≡ some v
unfolding get_field set_field
get_field-set_field k v end = ground (arith, eq_refl k)
get_field-set_field k v (field j w fs) = ground (arith, get_field-set_field k v fs)

without-set_field :
    (k : String) (v : Value) (fs : Fields)
    → has_field k fs ≡ false
    → without k (set_field k v fs) ≡ fs
unfolding get_field set_field without
without-set_field k v end h = ground (arith, eq_refl k)
without-set_field k v (field j w fs) h = elim (Bool-cases (j == k)) [
  | inl same ↦ cc (rw (same, has_field) at h)
  | inr other ↦
      rw (other, other) (ap (field j w) (without-set_field k v fs (rw (other, has_field) at h)))
]

-- The hash that the row after these must link to.
unfoldable pub after_all : Host → String → Bool → List Value → String
after_all host p s [] = p
after_all host p s (v ∷ vs) = elim (judge_row host p s v) [
  | ok verdict ↦ elim verdict [
    | linked h ↦ after_all host h true vs
    | leading ↦ after_all host p s vs
    | broken ↦ p
  ]
  | err e ↦ p
]

module _ (host : Host) (w : Value) (h : String) where
  -- One more row that is linked to the end of a log that verifies.
  verify_rows-concat :
      (i : ℕ) (p : String) (c l : ℕ) (s : Bool) (vs : List Value) (cv : ChainVerification)
      → verify_rows host i p c l s vs ≡ ok cv
      → cv.verified ≡ true
      → ((started : Bool) → judge_row host (after_all host p s vs) started w ≡ ok (linked h))
      → (r : ChainVerification) × (verify_rows host i p c l s (vs ++ w ∷ []) ≡ ok r)
        × (r.verified ≡ true)
        × (r.chained_rows ≡ cv.chained_rows + 1)
        × (r.unchained_leading ≡ cv.unchained_leading)
  unfolding verify_rows after_all
  verify_rows-concat i p c l s [] cv e good link = (
    verification true (c + 1) l none,
    rw (link s),
    refl,
    ap (λ (x : ChainVerification). x.chained_rows + 1) (ok_injective e),
    ap (λ (x : ChainVerification). x.unchained_leading) (ok_injective e),
  )
  verify_rows-concat i p c l s (v ∷ vs) cv e good link =
      elim (Result-cases (judge_row host p s v)) [
        | inr (x, raised) ↦ cc (rw raised at e)
        | inl (linked k, judged) ↦ rw judged (
            verify_rows-concat (i + 1) k (c + 1) l true vs cv (rw judged at e) good
              (rw (judged, after_all) at link))
        | inl (leading, judged) ↦ rw judged (
            verify_rows-concat (i + 1) p c (l + 1) s vs cv (rw judged at e) good
              (rw (judged, after_all) at link))
        | inl (broken, judged) ↦ cc (rw judged at e)
      ]

  -- The same, for the whole log.
  pub verify-concat :
      (vs : List Value) (cv : ChainVerification)
      → verify host vs ≡ ok cv
      → cv.verified ≡ true
      → ((started : Bool)
          → judge_row host (after_all host genesis_hash false vs) started w ≡ ok (linked h))
      → (r : ChainVerification) × (verify host (vs ++ w ∷ []) ≡ ok r)
        × (r.verified ≡ true)
        × (r.chained_rows ≡ cv.chained_rows + 1)
        × (r.unchained_leading ≡ cv.unchained_leading)
  unfolding verify
  verify-concat vs cv e good link = verify_rows-concat 0 genesis_hash 0 0 false vs cv e good link

envelope_of-set_field :
    (chain fs : Fields) → envelope_of (set_field chain_key (dict chain) fs) ≡ some chain
unfolding envelope_of
envelope_of-set_field chain fs = rw (get_field-set_field chain_key)

module _ (host : Host) (event_id timestamp previous : String) (payload : Fields) where
  link-with_hash :
      (x : String)
      → has_field chain_key payload ≡ false
      → sha256_digest host (hashed event_id timestamp (dict payload) previous) ≡ ok x
      → let e = envelope (with_hash event_id timestamp (dict payload) previous x) in
        link_holds host previous (set_field chain_key (dict e) payload) e ≡ ok true
  unfolding link_holds recompute new_record py_str get_field is_text
  link-with_hash x new digest =
      rw (without-set_field chain_key _ payload new, link_holds)
        (rw digest (rw (eq_refl previous, eq_refl x)))

  -- A row whose envelope has this digest links to the hash that it was given, and the next row to
  -- its own.
  judge-with_hash :
      (started : Bool) (x : String)
      → has_field chain_key payload ≡ false
      → sha256_digest host (hashed event_id timestamp (dict payload) previous) ≡ ok x
      → judge_row host previous started
          (chained_row payload (with_hash event_id timestamp (dict payload) previous x))
        ≡ ok (linked x)
  unfolding judge_row as_dict str_field py_str get_field
  judge-with_hash started x new digest =
      let e = envelope (with_hash event_id timestamp (dict payload) previous x) in
      let fs = set_field chain_key (dict e) payload in
      ap (judge_fields host previous started fs) (envelope_of-set_field e payload)
      ∙ rw (link-with_hash x new digest)

  pub judge-chained_row :
      (started : Bool) (entry : AuditRecord)
      → has_field chain_key payload ≡ false
      → new_record host event_id timestamp (dict payload) previous ≡ ok entry
      → judge_row host previous started (chained_row payload entry) ≡ ok (linked entry.current_hash)
  unfolding new_record
  judge-chained_row started entry new made =
      let (x, digest, same) =
        >>=-eq-ok (sha256_digest host (hashed event_id timestamp (dict payload) previous))
          (λ h. ok (with_hash event_id timestamp (dict payload) previous h)) made in
      subst
        (λ (q : AuditRecord).
          judge_row host previous started (chained_row payload q) ≡ ok (linked q.current_hash))
        (ok_injective same) (judge-with_hash started x new digest)
