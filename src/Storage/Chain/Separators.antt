-- ===== src/Storage/Chain/Separators.antt =====
-- A record whose text has a line separator, in a log of src/rif_runtime/storage/jsonl.py: from the
-- append to the text of the file.
use mandare.Prelude.{String, ◌≡◌, true, false, Option, List, [], ◌∷◌, ◌++◌, ok, err, value_error}
use mandare.Values.{Value, Fields, Host, has_field}
use mandare.Values.Normal.{normalize_fields}
use mandare.Storage.{row, breaks_fields, read_all}
use mandare.Storage.Text.{
  join, read_text, IsJson, text_onto, lines_of, AreJson, read_text_stuck, read_text_torn,
}
use mandare.Storage.Chain.{chain_key, chained_row, append_chained, ChainVerification, verify}
use mandare.Storage.Chain.Append.{next_entry, append_chained-next_entry, row_breaks}

module _ (host : Host) (loads : String → Option Value) (event_id timestamp : String)
    (fields payload : Fields) where
  -- A log can be read and verifies; a record can be normalised, does not use the reserved key, and has
  -- a key or a text with one of the separators U+0085, U+2028 and U+2029. Then the append succeeds all
  -- the same: the row is written at the end. But a read of the file's text raises from then on,
  -- whatever is written after the row. Of JSON it is assumed, for the rows of the log and the new one,
  -- what `IsJson` says of the texts that `json.dumps` writes for them.
  pub append_chained_unreadable :
      (rows : List (String × Value)) (vs : List Value) (cv : ChainVerification)
      (body later : String)
      → AreJson loads rows
      → read_all (lines_of rows) ≡ ok vs
      → verify host vs ≡ ok cv
      → cv.verified ≡ true
      → normalize_fields host fields ≡ ok payload
      → has_field chain_key payload ≡ false
      → breaks_fields payload ≡ true
      → IsJson loads body (chained_row payload (next_entry host event_id timestamp payload vs))
      → (append_chained host event_id timestamp fields (lines_of rows)
          ≡ ok (
              lines_of rows
              ++ row (chained_row payload (next_entry host event_id timestamp payload vs)) ∷ []))
        × (read_text loads (text_onto rows (join (String.◌∷◌ "{" body) (String.◌∷◌ "\n" later)))
            ≡ err value_error)
  append_chained_unreadable rows vs cv body later json read e good normal free torn written =
      let lines = lines_of rows in
      let entry = next_entry host event_id timestamp payload vs in
      (
        append_chained-next_entry host event_id timestamp fields lines vs cv payload read e good
            normal free,
        read_text_stuck loads rows (join (String.◌∷◌ "{" body) (String.◌∷◌ "\n" later)) vs json read
            (read_text_torn loads body later (chained_row payload entry) written
              (row_breaks payload entry free torn)),
      )
