-- ===== src/Storage/Writers/Alone.antt =====
-- An append of src/rif_runtime/storage/jsonl.py by a process that has the log to itself.
use mandare.Prelude.{ℕ, String, ◌≡◌, refl, false, List, arith, ok}
use mandare.Values.{Fields, Host}
use mandare.Storage.{Line}
use mandare.Storage.Chain.{chained_row, append_chained}
use mandare.Storage.Chain.Append.{append_chained-Appended}
use mandare.Storage.Writers.{
  Phase, outside, waiting, locked, buffered, flushed, has_lock, Shared, visible, phases_with, enter,
  with_row, normalise, lock, link, flush, unlock, Reach, here, next, unused,
}
use mandare.Storage.Writers.Exclusive.{phases_with-All}

at_own : (p : ℕ) (phase : Phase) (phase_of : ℕ → Phase) → phases_with p phase phase_of p ≡ phase
at_own p phase phase_of = ground arith

module _ (host : Host) (p : ℕ) (fields : Fields) (event_id timestamp : String) where
  -- A process that appends while nobody else uses the log ends with the file that an append in one
  -- step gives, and then nobody holds a lock.
  append_chained-Reach :
      (lines lines' : List Line)
      → append_chained host event_id timestamp fields lines ≡ ok lines'
      → (s : Shared) × Reach host (unused lines) s
        × (visible s ≡ lines')
        × ((q : ℕ) → s.phase_of q ≡ outside)
  unfolding visible
  append_chained-Reach lines lines' written =
      let a = append_chained-Appended host event_id timestamp fields lines lines' written in
      let v = chained_row a.payload a.entry in
      let asked = enter p (waiting a.payload) (unused lines) in
      let granted = enter p (locked a.payload) asked in
      let filled = enter p (buffered v) granted in
      let done = enter p flushed (with_row v filled) in
      (
        enter p outside done,
        next
            (next
              (next
                (next (next here (normalise p fields a.payload refl a.normal a.free)) (
                  lock p a.payload (at_own p (waiting a.payload) (λ q. outside)) (
                    phases_with-All p (waiting a.payload) (λ q. outside) (λ x. has_lock x ≡ false)
                      refl (λ q other. refl))))
                (link p a.payload event_id timestamp a.previous a.entry
                  (at_own p (locked a.payload) asked.phase_of) a.tail a.made))
              (flush p v (at_own p (buffered v) granted.phase_of)))
            (unlock p (at_own p flushed filled.phase_of)),
        a.written,
        phases_with-All p outside done.phase_of (λ x. x ≡ outside) refl (λ q other. rw other refl),
      )
