-- ===== src/PolicyStore/Seed.antt =====
-- The repair of the rules at start-up, of src/rif_runtime/configuration/policies.py.
use mandare.Prelude.{
  ◌≡◌, refl, ap, ◌∙◌, Bool, true, false, not, List, [], ◌∷◌, arith, any, filter, Bool-cases, inl,
  inr, if◌then◌else◌,
}
use mandare.PolicyStore.{
  PolicyRow, allow_run_create, has_id, missing_from, insert_missing, repair, ensure_required,
}

-- The required rule is in the file.
abbrev pub has_required : List PolicyRow → Bool
has_required rows = any (has_id "allow_run_create") rows

missing_from-eq :
    (rows : List PolicyRow)
    → missing_from rows ≡ (if has_required rows then [] else allow_run_create ∷ [])
unfolding missing_from
missing_from-eq rows = elim (Bool-cases (has_required rows)) [
  | inl there ↦ rw there
  | inr gone ↦ rw gone
]

-- The rows but those with the required id.
abbrev pub without_required : List PolicyRow → List PolicyRow
without_required rows = filter (λ r. not (has_id "allow_run_create" r)) rows

insert_missing-has_required :
    (rows : List PolicyRow) → has_required (insert_missing (allow_run_create ∷ []) rows) ≡ true
unfolding insert_missing
insert_missing-has_required [] = refl
insert_missing-has_required (r ∷ rs) = ground (arith, insert_missing-has_required rs)

without_required-insert_missing :
    (rows : List PolicyRow)
    → without_required (insert_missing (allow_run_create ∷ []) rows) ≡ without_required rows
unfolding insert_missing
without_required-insert_missing [] = refl
without_required-insert_missing (r ∷ rs) = ground (arith, without_required-insert_missing rs)

ensure_required-eq :
    (rows : List PolicyRow)
    → ensure_required rows
      ≡ (if has_required rows then rows else insert_missing (allow_run_create ∷ []) rows)
unfolding ensure_required
ensure_required-eq rows = ap (λ m. repair m rows) (missing_from-eq rows) ∙ split (has_required rows)
  where
    split :
        (b : Bool)
        → repair (if b then [] else allow_run_create ∷ []) rows
          ≡ (if b then rows else insert_missing (allow_run_create ∷ []) rows)
    split true = unfold repair in refl
    split false = unfold repair in refl

-- After start-up the required rule is in the file, the other rows stand as they stood, and a second
-- start-up changes nothing.
pub ensure_required_repairs :
    (rows : List PolicyRow)
    → (has_required (ensure_required rows) ≡ true)
      × (without_required (ensure_required rows) ≡ without_required rows)
      × (ensure_required (ensure_required rows) ≡ ensure_required rows)
ensure_required_repairs rows = elim (Bool-cases (has_required rows)) [
  | inl there ↦
      let same : ensure_required rows ≡ rows = rw (ensure_required-eq rows, there) in
      (rw same there, ap without_required same, ap ensure_required same)
  | inr gone ↦
      let new : ensure_required rows ≡ insert_missing (allow_run_create ∷ []) rows =
        rw (ensure_required-eq rows, gone) in
      let present : has_required (ensure_required rows) ≡ true =
        rw new (insert_missing-has_required rows) in
      (
        present,
        ap without_required new ∙ without_required-insert_missing rows,
        rw (ensure_required-eq (ensure_required rows), present),
      )
]
