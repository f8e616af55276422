-- ===== src/Audit.antt =====
-- src/rif_runtime/audit.py: records linked by their digests. The event identifier (`uuid4`) and the
-- time are arguments.
pub mod Link
use mandare.Prelude.{
  ℕ, String, ◌==◌, ◌&&◌, not, Bool, true, false, Option, none, some, List, [], ◌∷◌, get_last?,
  Result, ok, ◌>>=◌, if◌then◌else◌,
}
use mandare.Values.{Value, text, dict, Fields, end, field, Host}
use mandare.Values.Normal.{sha256_digest}

abbrev pub genesis_hash : String
genesis_hash = "0000000000000000000000000000000000000000000000000000000000000000"

pub record AuditRecord : Type 0 where
  pub event_id : String
  pub timestamp : String
  pub payload : Value
  pub previous_hash : String
  pub current_hash : String

-- What the digest of a record is taken over.
abbrev pub hashed : String → String → Value → String → Value
hashed event_id timestamp payload previous_hash = dict (
    field "event_id" (text event_id) (
      field "timestamp" (text timestamp)
        (field "payload" payload (field "previous_hash" (text previous_hash) end))))

unfoldable pub calculate_hash : Host → AuditRecord → Result String
calculate_hash host r = sha256_digest host (hashed r.event_id r.timestamp r.payload r.previous_hash)

-- A record with the digest given.
abbrev pub with_hash : String → String → Value → String → String → AuditRecord
with_hash event_id timestamp payload previous_hash h = record {
  event_id = event_id;
  timestamp = timestamp;
  payload = payload;
  previous_hash = previous_hash;
  current_hash = h;
}

-- The constructor: `__post_init__` fills in `current_hash`.
unfoldable pub new_record : Host → String → String → Value → String → Result AuditRecord
new_record host event_id timestamp payload previous_hash = do
  h ← sha256_digest host (hashed event_id timestamp payload previous_hash)
  ok (with_hash event_id timestamp payload previous_hash h)

-- `chain[-1].current_hash if chain else GENESIS_HASH`
unfoldable pub last_hash : List AuditRecord → String
last_hash chain = elim (get_last? chain) [ none ↦ genesis_hash | some r ↦ r.current_hash ]

-- `append_record`: the record that comes next; the caller appends it.
unfoldable pub append_record :
    Host → List AuditRecord → Value → String → String → Result AuditRecord
append_record host chain payload event_id timestamp =
    new_record host event_id timestamp payload (last_hash chain)

-- The loop of `verify_chain`.
unfoldable pub verify_from : Host → String → List AuditRecord → Result Bool
verify_from host previous_hash [] = ok true
verify_from host previous_hash (r ∷ rs) =
    let rest = verify_from host r.current_hash rs in
    if r.previous_hash == previous_hash
    then (do h ← calculate_hash host r; if r.current_hash == h then rest else ok false)
    else ok false

unfoldable pub verify_chain : Host → List AuditRecord → Result Bool
unfolding verify_from
verify_chain host chain = verify_from host genesis_hash chain
