-- ===== src/Evals/SessionFile.antt =====
-- The name of the file of a session: `write_session` of
-- src/rif-evals/code_refinement_mst/runners/run_session.py.
use mandare.Prelude.{
  ℕ, zero, suc, String, ◌≡◌, refl, ap, inl, inr, Bool, true, false, Bool-cases, ◌||◌, is_prefix,
  same_char, text_append, if◌then◌else◌, arith,
}

-- `text.replace(":", "")`
unfoldable pub without_colons : String → String
without_colons String.[] = String.[]
without_colons (String.◌∷◌ c s) =
    let rest = without_colons s in if same_char c ":" then rest else String.◌∷◌ c rest

-- `text.replace("+00:00", "Z")`, with the number of characters left of a replaced occurrence
unfoldable pub replace_offset : ℕ → String → String
replace_offset left String.[] = String.[]
replace_offset (suc left) (String.◌∷◌ c s) = replace_offset left s
replace_offset zero (String.◌∷◌ c s) =
    let replaced = replace_offset 5 s in
    let rest = replace_offset 0 s in
    if is_prefix "+00:00" (String.◌∷◌ c s) then String.◌∷◌ "Z" replaced else String.◌∷◌ c rest

-- `safe_timestamp`
unfoldable pub safe_timestamp : String → String
unfolding without_colons replace_offset
safe_timestamp completed_at = replace_offset 0 (without_colons completed_at)

-- The name under which `write_session` writes.
unfoldable pub session_file_name : String → String → String → String
unfolding safe_timestamp
session_file_name task_id model completed_at = text_append task_id (
    text_append "__"
      (text_append model (text_append "__" (text_append (safe_timestamp completed_at) ".json"))))

has_colon : String → Bool
has_colon String.[] = false
has_colon (String.◌∷◌ c s) = same_char c ":" || has_colon s

has_colon-is_prefix :
    (p s : String) → is_prefix p s ≡ true → has_colon p ≡ true → has_colon s ≡ true
unfolding has_colon is_prefix
has_colon-is_prefix String.[] s h k = cc
has_colon-is_prefix (String.◌∷◌ c p) String.[] h k = cc
has_colon-is_prefix (String.◌∷◌ c p) (String.◌∷◌ d s) h k = ground (arith, has_colon-is_prefix p s)

has_colon-without_colons : (s : String) → has_colon (without_colons s) ≡ false
unfolding has_colon without_colons
has_colon-without_colons String.[] = refl
has_colon-without_colons (String.◌∷◌ c s) = ground (arith, has_colon-without_colons s)

replace_offset-same : (s : String) → has_colon s ≡ false → replace_offset 0 s ≡ s
unfolding replace_offset has_colon
replace_offset-same String.[] h = refl
replace_offset-same (String.◌∷◌ c s) h = elim (Bool-cases (is_prefix "+00:00" (String.◌∷◌ c s))) [
  | inl here ↦ cc (has_colon-is_prefix "+00:00" (String.◌∷◌ c s) here refl, h)
  | inr absent ↦ rw absent (ap (String.◌∷◌ c) (replace_offset-same s (ground arith)))
]

-- The colons are taken out before the offset is looked for, so that no offset is ever found: the
-- timestamp in a file's name is the text without its colons, and no `Z` stands for the offset.
safe_timestamp_without_z : (s : String) → safe_timestamp s ≡ without_colons s
unfolding safe_timestamp
safe_timestamp_without_z s = replace_offset-same (without_colons s) (has_colon-without_colons s)

safe_timestamp_run : safe_timestamp "2026-01-01T10:00:00+00:00" ≡ "2026-01-01T100000+0000"
unfolding safe_timestamp is_prefix
safe_timestamp_run = refl
