-- ===== src/Storage/Chain/Append.antt =====
-- What an append of src/rif_runtime/storage/jsonl.py does to a log, on each of its paths.
use mandare.Prelude.{
  ◌+◌, Bool, ◌||◌, ◌==◌, arith, String, ◌≡◌, refl, sym, ◌∙◌, true, false, inl, inr, Bool-cases,
  List, [], ◌∷◌, ◌++◌, Result, ok, err, Result-cases, >>=-eq-ok, ok_injective, ◌>>=◌,
}
use mandare.Values.{Value, dict, Fields, Host, has_field, set_field, get_field, end, field}
use mandare.Values.Normal.{
  normalize_fields, normalize_for_json, sha256_digest, normalize_fields_twice,
}
use mandare.Audit.{AuditRecord, genesis_hash, hashed, with_hash, new_record}
use mandare.Storage.{
  Line, blank, damaged, row, breaks, breaks_text, breaks_fields, read_line, read_all,
}
use mandare.Storage.Chain.{
  chain_key, tail_hash, chained_row, envelope, append_chained, ChainVerification, verify,
}
use mandare.Storage.Chain.Verified.{after_all, verify-concat, judge-chained_row}
use mandare.Storage.Chain.Tail.{tail_hash-after_all}

add_first :
    (x : Value) (ws : List Value) (r : Result Value)
    → ((r >>= λ y. ok (ws ++ y ∷ [])) >>= λ ys. ok (x ∷ ys)) ≡ (r >>= λ y. ok (x ∷ (ws ++ y ∷ [])))
add_first x ws (ok y) = refl
add_first x ws (err e) = refl

-- The row that is written last is read last, or cannot be read.
pub read_all-concat :
    (ls : List Line) (vs : List Value) (v : Value)
    → read_all ls ≡ ok vs
    → read_all (ls ++ row v ∷ []) ≡ (read_line v >>= λ w. ok (vs ++ w ∷ []))
unfolding read_all
read_all-concat [] vs v h = rw (← ok_injective h)
read_all-concat (blank ∷ ls) vs v h = read_all-concat ls vs v h
read_all-concat (damaged ∷ ls) vs v h = cc
read_all-concat (row w ∷ ls) vs v h =
    let (x, read, rest) = >>=-eq-ok (read_line w) (λ y. do ys ← read_all ls; ok (y ∷ ys)) h in
    let (ws, more, made) = >>=-eq-ok (read_all ls) (λ ys. ok (x ∷ ys)) rest in
    rw (read, read_all-concat ls ws v more, ← ok_injective made) (add_first x ws (read_line v))

or_last : (a b x y : Bool) → (x ≡ true → y ≡ true) → (a || b || x) ≡ true → (a || b || y) ≡ true
or_last true b x y keep h = ground arith
or_last false true x y keep h = ground arith
or_last false false x y keep h = keep h

-- A field that was not there is put at the end.
breaks_fields-set_field :
    (key : String) (v : Value) (fs : Fields)
    → has_field key fs ≡ false
    → breaks_fields fs ≡ true
    → breaks_fields (set_field key v fs) ≡ true
unfolding breaks set_field has_field get_field
breaks_fields-set_field key v end free torn = cc
breaks_fields-set_field key v (field k w fs) free torn = elim (Bool-cases (k == key)) [
  | inl there ↦ cc (rw (there, has_field) at free)
  | inr other ↦ rw other (
      or_last (breaks_text k) (breaks w) (breaks_fields fs) (breaks_fields (set_field key v fs))
        (breaks_fields-set_field key v fs (rw (other, has_field) at free)) torn)
]

pub row_breaks :
    (payload : Fields) (entry : AuditRecord)
    → has_field chain_key payload ≡ false
    → breaks_fields payload ≡ true
    → breaks (chained_row payload entry) ≡ true
unfolding breaks
row_breaks payload entry free torn =
    breaks_fields-set_field chain_key (dict (envelope entry)) payload free torn

-- What a successful append has computed.
pub record Appended (host : Host) (event_id timestamp : String) (fields : Fields)
    (lines lines' : List Line) : Type 0 where
  pub payload : Fields
  pub normal : normalize_fields host fields ≡ ok payload
  pub free : has_field chain_key payload ≡ false
  pub previous : String
  pub tail : tail_hash host lines ≡ ok previous
  pub entry : AuditRecord
  pub made : new_record host event_id timestamp (dict payload) previous ≡ ok entry
  pub written : lines ++ row (chained_row payload entry) ∷ [] ≡ lines'

-- The record that comes next after rows that verify.
abbrev pub next_entry : Host → String → String → Fields → List Value → AuditRecord
next_entry host event_id timestamp payload vs =
    let previous = after_all host genesis_hash false vs in
    with_hash event_id timestamp (dict payload) previous
      (host.sha256 (host.dumps (hashed event_id timestamp (dict payload) previous)))

module _ (host : Host) (event_id timestamp : String) (fields : Fields) (lines : List Line) where
  pub append_chained-Appended :
      (lines' : List Line)
      → append_chained host event_id timestamp fields lines ≡ ok lines'
      → Appended host event_id timestamp fields lines lines'
  unfolding append_chained
  append_chained-Appended lines' e = elim (Result-cases (normalize_fields host fields)) [
    | inr (x, raised) ↦ cc (rw raised at e)
    | inl (payload, normal) ↦ elim (Bool-cases (has_field chain_key payload)) [
      | inl reserved ↦ cc (rw (normal, reserved) at e)
      | inr free ↦ elim (Result-cases (tail_hash host lines)) [
        | inr (x, raised) ↦ cc (rw (normal, free, raised) at e)
        | inl (previous, tail) ↦
            elim (Result-cases (new_record host event_id timestamp (dict payload) previous)) [
              | inr (x, raised) ↦ cc (rw (normal, free, tail, raised) at e)
              | inl (entry, made) ↦ record {
                payload = payload;
                normal = normal;
                free = free;
                previous = previous;
                tail = tail;
                entry = entry;
                made = made;
                written = ok_injective (rw (normal, free, tail, made) at e);
              }
            ]
      ]
    ]
  ]

  module _ (lines' : List Line) (vs : List Value) (cv : ChainVerification) where
    -- If a log can be read and verifies, and a record is appended to it, and the new row has no text
    -- with a line separator, then the log can still be read, with one more row at its end, and still
    -- verifies, with one more chained row and as many rows before the chain as there were.
    pub verify-append_chained :
        (written : append_chained host event_id timestamp fields lines ≡ ok lines')
        → read_all lines ≡ ok vs
        → verify host vs ≡ ok cv
        → cv.verified ≡ true
        → ((v : Value) → lines' ≡ lines ++ row v ∷ [] → breaks v ≡ false)
        → (v : Value) × (r : ChainVerification) × (read_all lines' ≡ ok (vs ++ v ∷ []))
          × (verify host (vs ++ v ∷ []) ≡ ok r)
          × (r.verified ≡ true)
          × (r.chained_rows ≡ cv.chained_rows + 1)
          × (r.unchained_leading ≡ cv.unchained_leading)
    unfolding read_line
    verify-append_chained written read e good clean =
        let a = append_chained-Appended lines' written in
        let v = chained_row a.payload a.entry in
        let readable : read_all lines' ≡ ok (vs ++ v ∷ []) =
          rw (← a.written)
            (read_all-concat lines vs v read ∙ rw (clean v (sym a.written), read_line)) in
        let p : a.previous ≡ after_all host genesis_hash false vs =
          ok_injective (sym a.tail ∙ tail_hash-after_all host lines vs cv read e good) in
        let (r, verifies, sound, more, same) =
          verify-concat host v a.entry.current_hash vs cv e good (λ started. rw (← p) (
            judge-chained_row host event_id timestamp a.previous a.payload started a.entry a.free
              a.made)) in
        (v, r, readable, verifies, sound, more, same)

  pub append_chained-next_entry :
      (vs : List Value) (cv : ChainVerification) (payload : Fields)
      → read_all lines ≡ ok vs
      → verify host vs ≡ ok cv
      → cv.verified ≡ true
      → normalize_fields host fields ≡ ok payload
      → has_field chain_key payload ≡ false
      → append_chained host event_id timestamp fields lines
        ≡ ok (
            lines ++ row (chained_row payload (next_entry host event_id timestamp payload vs)) ∷ [])
  unfolding append_chained new_record sha256_digest normalize_for_json
  append_chained-next_entry vs cv payload read e good normal free =
      rw (normal, free, tail_hash-after_all host lines vs cv read e good)
        (rw (normalize_fields_twice host fields payload normal))

  -- An append to a log that can be read and verifies succeeds, if the record can be normalised and
  -- does not use the reserved key: it adds one row at the end.
  pub append_chained_total :
      (vs : List Value) (cv : ChainVerification) (payload : Fields)
      → read_all lines ≡ ok vs
      → verify host vs ≡ ok cv
      → cv.verified ≡ true
      → normalize_fields host fields ≡ ok payload
      → has_field chain_key payload ≡ false
      → (v : Value) × (append_chained host event_id timestamp fields lines
          ≡ ok (lines ++ row v ∷ []))
  append_chained_total vs cv payload read e good normal free = (
    chained_row payload (next_entry host event_id timestamp payload vs),
    append_chained-next_entry vs cv payload read e good normal free,
  )
