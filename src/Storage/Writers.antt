-- ===== src/Storage/Writers.antt =====
-- `_locked` and `_read_locked` of src/rif_runtime/storage/jsonl.py: several processes over one
-- chained log. `flock` grants an exclusive lock when no process has a lock, and a shared lock when no
-- process has an exclusive one. A process does not die in the middle of an append.
pub mod Exclusive
pub mod Serial
pub mod Readers
pub mod Alone
use mandare.Prelude.{
  ℕ, String, ◌≡◌, Bool, true, false, not, List, [], ◌∷◌, ◌++◌, eqb, if◌then◌else◌, Error, Result,
  ok, err,
}
use mandare.Values.{Value, dict, Fields, Host, has_field}
use mandare.Values.Normal.{normalize_fields}
use mandare.Audit.{AuditRecord, new_record}
use mandare.Storage.{Line, damaged, row, breaks}
use mandare.Storage.Chain.{chain_key, tail_hash, chained_row}

-- Where a process stands in `append` or in `read_all`.
pub data Phase : Type 0 where
  -- it has no lock, and no call is under way
  outside : Phase
  -- `append` has normalised the record, and waits for the exclusive lock
  waiting : Fields → Phase
  -- it has the exclusive lock
  locked : Fields → Phase
  -- `handle.write` has the row in its buffer
  buffered : Value → Phase
  -- some bytes of the row are in the file
  writing : Value → Phase
  -- the buffer is flushed, and the lock is still held
  flushed : Phase
  -- `read_all` has the shared lock
  reading : Phase

-- The process has the exclusive lock.
abbrev pub is_exclusive : Phase → Bool
is_exclusive (locked payload) = true
is_exclusive (buffered v) = true
is_exclusive (writing v) = true
is_exclusive flushed = true
is_exclusive _ = false

abbrev pub has_lock : Phase → Bool
has_lock reading = true
has_lock phase = is_exclusive phase

-- The file as its whole lines, whether a part of a further row follows them, and the processes.
pub record Shared : Type 0 where
  pub lines : List Line
  pub torn : Bool
  pub phase_of : ℕ → Phase

-- What a read of the file finds at this moment.
unfoldable pub visible : Shared → List Line
visible s = if s.torn then s.lines ++ damaged ∷ [] else s.lines

abbrev pub phases_with : ℕ → Phase → (ℕ → Phase) → ℕ → Phase
phases_with p phase phase_of q = if eqb p q then phase else phase_of q

abbrev pub enter : ℕ → Phase → Shared → Shared
enter p phase s = record s { phase_of = phases_with p phase s.phase_of }

-- The row as a whole line of the file.
abbrev pub with_row : Value → Shared → Shared
with_row v s = record s { lines = s.lines ++ row v ∷ []; torn = false }

-- One process takes one step.
pub data Step (host : Host) (s : Shared) : Shared → Type 0 where
  -- `normalize_for_json(record)`, and the test for the reserved key
  normalise :
      (p : ℕ) (fields payload : Fields)
      → s.phase_of p ≡ outside
      → normalize_fields host fields ≡ ok payload
      → has_field chain_key payload ≡ false
      → Step host s (enter p (waiting payload) s)
  -- `flock(LOCK_EX)`
  lock :
      (p : ℕ) (payload : Fields)
      → s.phase_of p ≡ waiting payload
      → ((q : ℕ) → has_lock (s.phase_of q) ≡ false)
      → Step host s (enter p (locked payload) s)
  -- `_tail_hash`, the new link, and `handle.write`
  link :
      (p : ℕ) (payload : Fields) (event_id timestamp previous : String) (entry : AuditRecord)
      → s.phase_of p ≡ locked payload
      → tail_hash host (visible s) ≡ ok previous
      → new_record host event_id timestamp (dict payload) previous ≡ ok entry
      → Step host s (enter p (buffered (chained_row payload entry)) s)
  -- `_tail_hash` raises; the handle is closed
  refuse :
      (p : ℕ) (payload : Fields) (e : Error)
      → s.phase_of p ≡ locked payload
      → tail_hash host (visible s) ≡ err e
      → Step host s (enter p outside s)
  -- `flush` in one write, or the first and the last of several
  flush :
      (p : ℕ) (v : Value) → s.phase_of p ≡ buffered v → Step host s (enter p flushed (with_row v s))
  flush_part :
      (p : ℕ) (v : Value)
      → s.phase_of p ≡ buffered v
      → Step host s (enter p (writing v) (record s { torn = true }))
  flush_rest :
      (p : ℕ) (v : Value) → s.phase_of p ≡ writing v → Step host s (enter p flushed (with_row v s))
  -- `flock(LOCK_UN)`
  unlock : (p : ℕ) → s.phase_of p ≡ flushed → Step host s (enter p outside s)
  -- `flock(LOCK_SH)`
  share :
      (p : ℕ)
      → s.phase_of p ≡ outside
      → ((q : ℕ) → is_exclusive (s.phase_of q) ≡ false)
      → Step host s (enter p reading s)
  unshare : (p : ℕ) → s.phase_of p ≡ reading → Step host s (enter p outside s)

pub data Reach (host : Host) (s : Shared) : Shared → Type 0 where
  here : Reach host s s
  next : {t u : Shared} → Reach host s t → Step host t u → Reach host s u

-- Some row of the file has a text with a line separator.
unfoldable pub any_breaks : List Line → Bool
any_breaks [] = false
any_breaks (row v ∷ ls) = if breaks v then true else any_breaks ls
any_breaks (l ∷ ls) = any_breaks ls

-- A log that nobody uses.
abbrev pub unused : List Line → Shared
unused lines = record { lines = lines; torn = false; phase_of = λ q. outside }
