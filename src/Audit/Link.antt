-- ===== src/Audit/Link.antt =====
-- What a verified chain of src/rif_runtime/audit.py promises.
use mandare.Prelude.{
  String, ◌≡◌, refl, sym, ◌∙◌, ap, true, Bool-cases, inl, inr, List, [], ◌∷◌, ◌++◌, arith, length,
  ◌==◌, eq_iff, eq_refl, ok, Result-cases, >>=-eq-ok, ok_injective,
}
use mathlib.Core.Path.{subst}
use mandare.Values.{Value, Host}
use mandare.Values.Normal.{sha256_digest}
use mandare.Audit.{
  AuditRecord, genesis_hash, hashed, with_hash, calculate_hash, new_record, last_hash,
  append_record, verify_from, verify_chain,
}

module _ (host : Host) where
  -- The record that a verification passes: it is linked to `prev`, and its digest is its own.
  pub record IsLinked (prev : String) (r : AuditRecord) : Type 0 where
    pub previous : r.previous_hash ≡ prev
    pub intact : calculate_hash host r ≡ ok r.current_hash

  -- Each record is linked to the one before it.
  abbrev pub AreLinked : String → List AuditRecord → Type 0
  AreLinked prev [] = Unit
  AreLinked prev (r ∷ rs) = IsLinked prev r × AreLinked r.current_hash rs

  verify_from-AreLinked :
      (prev : String) (rs : List AuditRecord)
      → verify_from host prev rs ≡ ok true
      → AreLinked prev rs
  unfolding verify_from
  verify_from-AreLinked prev [] h = tt
  verify_from-AreLinked prev (r ∷ rs) h = elim (Bool-cases (r.previous_hash == prev)) [
    | inr unlinked ↦ cc (rw unlinked at h)
    | inl linked ↦ elim (Result-cases (calculate_hash host r)) [
      | inr (e, raised) ↦ cc (rw (linked, raised) at h)
      | inl (x, hashes) ↦ elim (Bool-cases (r.current_hash == x)) [
        | inr broken ↦ cc (rw (linked, hashes, broken) at h)
        | inl intact ↦ (
          record {
            previous = (eq_iff r.previous_hash prev).0 linked;
            intact = hashes ∙ ap ok (sym ((eq_iff r.current_hash x).0 intact));
          },
          verify_from-AreLinked r.current_hash rs (rw (linked, hashes, intact) at h),
        )
      ]
    ]
  ]

  AreLinked-verify_from :
      (prev : String) (rs : List AuditRecord)
      → AreLinked prev rs
      → verify_from host prev rs ≡ ok true
  unfolding verify_from
  AreLinked-verify_from prev [] h = refl
  AreLinked-verify_from prev (r ∷ rs) h =
      rw ((eq_iff r.previous_hash prev).1 h.0.previous, h.0.intact, eq_refl r.current_hash)
        (AreLinked-verify_from r.current_hash rs h.1)

  -- The hash that the next record links to.
  abbrev pub end_hash : String → List AuditRecord → String
  end_hash prev [] = prev
  end_hash prev (r ∷ rs) = end_hash r.current_hash rs

  last_hash-eq-end_hash : (rs : List AuditRecord) → last_hash rs ≡ end_hash genesis_hash rs
  unfolding last_hash
  last_hash-eq-end_hash [] = refl
  last_hash-eq-end_hash (r ∷ []) = refl
  last_hash-eq-end_hash (r ∷ q ∷ rs) = last_hash-eq-end_hash (q ∷ rs)

  AreLinked-concat :
      (prev : String) (rs : List AuditRecord) (r : AuditRecord)
      → AreLinked prev rs
      → IsLinked (end_hash prev rs) r
      → AreLinked prev (rs ++ r ∷ [])
  AreLinked-concat prev [] r h k = (k, tt)
  AreLinked-concat prev (q ∷ rs) r h k = (h.0, AreLinked-concat q.current_hash rs r h.1 k)

  new_record-IsLinked :
      (event_id timestamp : String) (payload : Value) (prev : String) (r : AuditRecord)
      → new_record host event_id timestamp payload prev ≡ ok r
      → IsLinked prev r
  unfolding new_record calculate_hash
  new_record-IsLinked event_id timestamp payload prev r e =
      let (x, digest, made) =
        >>=-eq-ok (sha256_digest host (hashed event_id timestamp payload prev))
          (λ h. ok (with_hash event_id timestamp payload prev h)) e in
      subst (λ q. IsLinked prev q) (ok_injective made) (record { previous = refl; intact = digest })

  -- If a chain verifies, then it still verifies with the record that `append_record` makes for it.
  pub verify_chain-append_record :
      (chain : List AuditRecord) (payload : Value) (event_id timestamp : String) (r : AuditRecord)
      → verify_chain host chain ≡ ok true
      → append_record host chain payload event_id timestamp ≡ ok r
      → verify_chain host (chain ++ r ∷ []) ≡ ok true
  unfolding verify_chain append_record
  verify_chain-append_record chain payload event_id timestamp r v e =
      AreLinked-verify_from genesis_hash (chain ++ r ∷ []) (
        AreLinked-concat genesis_hash chain r (verify_from-AreLinked genesis_hash chain v) (
          rw (← last_hash-eq-end_hash chain)
            (new_record-IsLinked event_id timestamp payload (last_hash chain) r e)))

  -- What the digest of a record is taken over, of the record.
  abbrev pub content : AuditRecord → Value
  content r = hashed r.event_id r.timestamp r.payload r.previous_hash

  -- No two different contents have one digest, at the same place of the two chains.
  abbrev pub NoCollision : List AuditRecord → List AuditRecord → Type 0
  NoCollision (r ∷ rs) (q ∷ qs) =
      (calculate_hash host r ≡ calculate_hash host q → content r ≡ content q) × NoCollision rs qs
  NoCollision _ _ = Unit

  record_of_content :
      (r q : AuditRecord) → content r ≡ content q → r.current_hash ≡ q.current_hash → r ≡ q
  record_of_content r q same hashes = ground arith

  linked_agree :
      (p q : String) (rs qs : List AuditRecord)
      → AreLinked p rs
      → AreLinked q qs
      → length rs ≡ length qs
      → end_hash p rs ≡ end_hash q qs
      → NoCollision rs qs
      → (p ≡ q) × (rs ≡ qs)
  linked_agree p q [] [] h k len e n = (e, refl)
  linked_agree p q [] (y ∷ ys) h k len e n = absurd (omega arith)
  linked_agree p q (x ∷ xs) [] h k len e n = absurd (omega arith)
  linked_agree p q (x ∷ xs) (y ∷ ys) h k len e n =
      let (hashes, rest) =
        linked_agree x.current_hash y.current_hash xs ys h.1 k.1 (omega arith) e n.1 in
      let digests : calculate_hash host x ≡ calculate_hash host y =
        h.0.intact ∙ ap ok hashes ∙ sym k.0.intact in
      let same : x ≡ y = record_of_content x y (n.0 digests) hashes in
      (
        sym h.0.previous ∙ ap (λ (r : AuditRecord). r.previous_hash) same ∙ k.0.previous,
        cc (same, rest),
      )

  -- Two chains of the same length that verify and whose last records store the same hash are equal,
  -- record by record, unless at one place the contents of the two chains differ and yet have the same
  -- digest: the last hash pins the whole history.
  pub verify_chain_tamper_evident :
      (rs qs : List AuditRecord)
      → verify_chain host rs ≡ ok true
      → verify_chain host qs ≡ ok true
      → length rs ≡ length qs
      → last_hash rs ≡ last_hash qs
      → NoCollision rs qs
      → rs ≡ qs
  unfolding verify_chain
  verify_chain_tamper_evident rs qs v w len e n =
      (linked_agree genesis_hash genesis_hash rs qs (verify_from-AreLinked genesis_hash rs v)
        (verify_from-AreLinked genesis_hash qs w) len
        (sym (last_hash-eq-end_hash rs) ∙ e ∙ last_hash-eq-end_hash qs) n).1
