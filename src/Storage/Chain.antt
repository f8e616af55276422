-- ===== src/Storage/Chain.antt =====
-- `HashChainedJsonlStore` of src/rif_runtime/storage/jsonl.py: each row carries the hash of the one
-- before it.
pub mod Verified
pub mod Tail
pub mod Append
pub mod Separators
pub mod Window
pub mod Doubling
use mandare.Prelude.{
  ℕ, suc, ◌+◌, String, Bool, true, false, ◌&&◌, Option, none, some, List, [], ◌∷◌, ◌++◌, Result, ok,
  err, value_error, raise_if, ◌>>=◌, ◌>>◌, if◌then◌else◌,
}
use mandare.Values.{
  Value, text, dict, Fields, end, field, Host, get_field, set_field, without, has_field, as_dict,
  py_str, is_text,
}
use mandare.Values.Normal.{normalize_fields}
use mandare.Audit.{AuditRecord, genesis_hash, new_record}
use mandare.Storage.{Line, blank, damaged, row, breaks}

abbrev pub chain_key : String
chain_key = "_chain"

-- The last line that is not blank: its row, or `none` where it is damaged.
unfoldable pub last_line : List Line → Option (Option Value)
last_line [] = none
last_line (l ∷ ls) = or_else l (last_line ls)
  where
    or_else : Line → Option (Option Value) → Option (Option Value)
    or_else l (some m) = some m
    or_else blank none = none
    or_else damaged none = some none
    or_else (row v) none = some (some v)

-- The hash in an envelope, if there is one: `isinstance(chain, dict) and "current_hash" in chain`.
unfoldable pub envelope_hash : Host → Option Value → String
envelope_hash host (some (dict chain)) = elim (get_field "current_hash" chain) [
  | none ↦ genesis_hash
  | some h ↦ py_str host h
]
envelope_hash host _ = genesis_hash

-- `_tail_hash`
unfoldable pub tail_hash : Host → List Line → Result String
unfolding last_line envelope_hash
tail_hash host lines = elim (last_line lines) [
  | none ↦ ok genesis_hash
  | some none ↦ err value_error
  | some (some v) ↦ do fs ← as_dict v; ok (envelope_hash host (get_field chain_key fs))
]

abbrev pub envelope : AuditRecord → Fields
envelope entry = field "event_id" (text entry.event_id) (
    field "timestamp" (text entry.timestamp) (
      field "previous_hash" (text entry.previous_hash)
        (field "current_hash" (text entry.current_hash) end)))

-- The row that an append writes.
abbrev pub chained_row : Fields → AuditRecord → Value
chained_row payload entry = dict (set_field chain_key (dict (envelope entry)) payload)

-- `append`: the event identifier and the time are those that it draws.
unfoldable pub append_chained : Host → String → String → Fields → List Line → Result (List Line)
append_chained host event_id timestamp record_fields lines = do
  payload ← normalize_fields host record_fields
  raise_if (has_field chain_key payload) value_error
  previous ← tail_hash host lines
  entry ← new_record host event_id timestamp (dict payload) previous
  ok (lines ++ row (chained_row payload entry) ∷ [])

pub record ChainVerification : Type 0 where
  pub verified : Bool
  pub chained_rows : ℕ
  pub unchained_leading : ℕ
  pub broken_at : Option ℕ

-- `str(chain.get(key, ""))`
unfoldable pub str_field : Host → String → Fields → String
str_field host key chain = elim (get_field key chain) [ none ↦ "" | some v ↦ py_str host v ]

-- The record that the digest of a row is recomputed from.
unfoldable pub recompute : Host → Fields → Fields → Result AuditRecord
unfolding str_field
recompute host fs chain =
    new_record host (str_field host "event_id" chain) (str_field host "timestamp" chain)
      (dict (without chain_key fs)) (str_field host "previous_hash" chain)

-- `linked and intact`
unfoldable pub link_holds : Host → String → Fields → Fields → Result Bool
unfolding recompute
link_holds host previous_hash fs chain = do
  recomputed ← recompute host fs chain
  ok (
      is_text previous_hash (get_field "previous_hash" chain)
      && is_text recomputed.current_hash (get_field "current_hash" chain))

-- `chain if isinstance(chain, dict)`, for the envelope of a row
unfoldable pub envelope_of : Fields → Option Fields
envelope_of fs = is_dict (get_field chain_key fs)
  where
    is_dict : Option Value → Option Fields
    is_dict (some (dict chain)) = some chain
    is_dict _ = none

-- What one row means to the loop of `verify`: it is linked, and the next row links to this hash; or it
-- stands before the chain begins; or the chain breaks at it.
pub data RowVerdict : Type 0 where
  linked : String → RowVerdict
  leading broken : RowVerdict

unfoldable pub judge_fields : Host → String → Bool → Fields → Option Fields → Result RowVerdict
judge_fields host previous_hash started fs none = ok (if started then broken else leading)
judge_fields host previous_hash started fs (some chain) = do
  holds ← link_holds host previous_hash fs chain
  ok (if holds then linked (str_field host "current_hash" chain) else broken)

unfoldable pub judge_row : Host → String → Bool → Value → Result RowVerdict
unfolding judge_fields
judge_row host previous_hash started v = do
  fs ← as_dict v
  judge_fields host previous_hash started fs (envelope_of fs)

abbrev pub verification : Bool → ℕ → ℕ → Option ℕ → ChainVerification
verification verified chained leading_rows at = record {
  verified = verified;
  chained_rows = chained;
  unchained_leading = leading_rows;
  broken_at = at;
}

-- The loop of `verify`, at a row's index, with the variables of the loop.
unfoldable pub verify_rows :
    Host → ℕ → String → ℕ → ℕ → Bool → List Value → Result ChainVerification
verify_rows host index previous_hash chained unchained started [] =
    ok (verification true chained unchained none)
verify_rows host index previous_hash chained unchained started (v ∷ vs) = do
  verdict ← judge_row host previous_hash started v
  elim verdict [
    | linked h ↦ verify_rows host (index + 1) h (chained + 1) unchained true vs
    | leading ↦ verify_rows host (index + 1) previous_hash chained (unchained + 1) started vs
    | broken ↦ ok (verification false chained unchained (some index))
  ]

-- `verify`
unfoldable pub verify : Host → List Value → Result ChainVerification
unfolding verify_rows judge_row link_holds envelope_of
verify host rows = verify_rows host 0 genesis_hash 0 0 false rows
