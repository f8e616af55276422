-- ===== src/Capabilities/Admission.antt =====
-- When src/rif_runtime/capabilities/registry.py admits a capability.
use mandare.Prelude.{
  String, ◌≡◌, refl, true, some, List, [], ◌∷◌, ◌++◌, arith, eq_refl, ap, sym, ◌∙◌, ok_injective,
  Option-cases, Bool-cases, inl, inr, lookup, insert, lookup-insert, ok,
}
use mandare.Capabilities.{
  admitted, evaluated, revoked, CapabilityEvaluation, CapabilityRecord, CapabilityRegistry,
  admissible, has_passed, admit, add_evaluation,
}

-- A record with the evidence that admission asks for.
pub record IsAdmissible (r : CapabilityRecord) : Type 0 where
  pub verified : r.verified ≡ true
  pub passed : has_passed r.evaluations ≡ true
  pub status : admissible r.status ≡ true

-- What `admit` returns for a record with the evidence.
abbrev pub admission :
    String → CapabilityRecord → CapabilityRegistry → CapabilityRecord × CapabilityRegistry
admission name r registry =
    let r' : CapabilityRecord = record r { status = admitted } in
    (r', record registry { records = insert name r' registry.records })

-- A record that has the evidence is admitted.
pub admit_total :
    (name : String) (registry : CapabilityRegistry) (r : CapabilityRecord)
    → lookup name registry.records ≡ some r
    → IsAdmissible r
    → (admit name registry ≡ ok (admission name r registry))
unfolding admit
admit_total name registry r found good = rw (found, good.verified, good.passed, good.status)

admit-cases :
    (name : String) (registry : CapabilityRegistry) (out : CapabilityRecord × CapabilityRegistry)
    → admit name registry ≡ ok out
    → (r : CapabilityRecord) × (lookup name registry.records ≡ some r)
      × IsAdmissible r
      × (admission name r registry ≡ out)
unfolding admit
admit-cases name registry out e = elim (Option-cases (lookup name registry.records)) [
  | inl missing ↦ cc (rw missing at e)
  | inr (r, found) ↦ elim (Bool-cases r.verified) [
    | inr unverified ↦ cc (rw (found, unverified) at e)
    | inl verified ↦ elim (Bool-cases (has_passed r.evaluations)) [
      | inr untested ↦ cc (rw (found, verified, untested) at e)
      | inl passed ↦ elim (Bool-cases (admissible r.status)) [
        | inr early ↦ cc (rw (found, verified, passed, early) at e)
        | inl status ↦ (
          r,
          found,
          record { verified = verified; passed = passed; status = status },
          let good : IsAdmissible r = record {
            verified = verified;
            passed = passed;
            status = status;
          } in
              ok_injective (sym (admit_total name registry r found good) ∙ e),
        )
      ]
    ]
  ]
]

-- If a capability is admitted, its record had verified integrity, a passing evaluation and a status
-- from `evaluated` on; the record is then `admitted`, stands under its name, and
-- nothing else in the registry has changed.
pub admit_needs_evidence :
    (name : String) (registry registry' : CapabilityRegistry) (r' : CapabilityRecord)
    → admit name registry ≡ ok (r', registry')
    → (r : CapabilityRecord) × (lookup name registry.records ≡ some r)
      × IsAdmissible r
      × (r' ≡ record r { status = admitted })
      × (lookup name registry'.records ≡ some r')
      × (registry' ≡ record registry { records = insert name r' registry.records })
admit_needs_evidence name registry registry' r' e =
    let (r, found, good, same) = admit-cases name registry (r', registry') e in
    let now : record r { status = admitted } ≡ r' =
      ap (λ (o : CapabilityRecord × CapabilityRegistry). o.0) same in
    let rest : record registry {
      records = insert name (record r { status = admitted }) registry.records;
    }
        ≡ registry' =
      ap (λ (o : CapabilityRecord × CapabilityRegistry). o.1) same in
    (
      r,
      found,
      good,
      sym now,
      rw (← rest, ← now) (rw lookup-insert (rw (eq_refl name))),
      rw (← rest, ← now) refl,
    )

has_passed-concat :
    (es : List CapabilityEvaluation) (e : CapabilityEvaluation)
    → e.passed ≡ true
    → has_passed (es ++ e ∷ []) ≡ true
has_passed-concat [] e h = rw h
has_passed-concat (x ∷ xs) e h = ground (arith, has_passed-concat xs e h)

-- Revocation does not last: after a passing evaluation of a revoked capability with verified
-- integrity, `admit` admits it.
pub revoked_readmitted :
    (name : String) (registry : CapabilityRegistry) (r : CapabilityRecord)
    (evaluation : CapabilityEvaluation)
    → lookup name registry.records ≡ some r
    → r.status ≡ revoked
    → r.verified ≡ true
    → evaluation.passed ≡ true
    → (registry' : CapabilityRegistry) × (out : CapabilityRecord × CapabilityRegistry)
      × (add_evaluation name evaluation registry ≡ ok registry')
      × (admit name registry' ≡ ok out)
unfolding add_evaluation
revoked_readmitted name registry r evaluation found was verified passed =
    let r' : CapabilityRecord = record r {
      evaluations = r.evaluations ++ evaluation ∷ [];
      status = evaluated;
    } in
    let registry' : CapabilityRegistry = record registry {
      records = insert name r' registry.records;
    } in
    (
      registry',
      admission name r' registry',
      rw (found, passed),
      admit_total name registry' r' (rw lookup-insert (rw (eq_refl name))) (record {
        verified = verified;
        passed = has_passed-concat r.evaluations evaluation passed;
        status = refl;
      }),
    )
