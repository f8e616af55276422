-- ===== src/Storage/Writers/Readers.antt =====
-- What a process reads from a log that others append to (src/rif_runtime/storage/jsonl.py).
use mandare.Prelude.{ℕ, ◌+◌, ◌≡◌, refl, true, false, List, [], ◌++◌, append-nil, length, arith, ok}
use mandare.Values.{Value, Host}
use mandare.Storage.{Line, read_all}
use mandare.Storage.Chain.{ChainVerification, verify}
use mandare.Storage.Writers.{reading, Shared, visible, Reach, here, next, any_breaks, unused}
use mandare.Storage.Writers.Exclusive.{whole}
use mandare.Storage.Writers.Serial.{IsSerial, Step-IsSerial}

module _ (host : Host) (vs : List Value) (cv : ChainVerification) where
  Reach-IsSerial : {s t : Shared} → IsSerial host vs cv s → Reach host s t → IsSerial host vs cv t
  Reach-IsSerial serial here = serial
  Reach-IsSerial serial (next r step) = Step-IsSerial host vs cv step (Reach-IsSerial serial r)

  unused-IsSerial :
      (lines : List Line)
      → read_all lines ≡ ok vs
      → verify host vs ≡ ok cv
      → cv.verified ≡ true
      → IsSerial host vs cv (unused lines)
  unused-IsSerial lines read verifies sound = record {
    alone = λ p q other. refl;
    tear = λ torn. cc;
    promise = λ p. tt;
    grown = λ unbroken.
        let whole_log = append-nil vs in
        ([], cv, rw whole_log read, rw whole_log verifies, sound, omega arith, refl);
  }

  -- Several processes append to one log and read it, step by step and in any order, each append under
  -- the exclusive lock and each read under the shared one. If the log could be read and verified
  -- before, then a process that has the shared lock reads a log that verifies: the rows that were
  -- there, and then the new ones, each of them chained. No row of the file may have a text with a
  -- line separator.
  pub Reach-reads_verified :
      (lines : List Line) (s : Shared) (p : ℕ)
      → read_all lines ≡ ok vs
      → verify host vs ≡ ok cv
      → cv.verified ≡ true
      → Reach host (unused lines) s
      → s.phase_of p ≡ reading
      → any_breaks s.lines ≡ false
      → (ws : List Value) × (r : ChainVerification) × (read_all (visible s) ≡ ok (vs ++ ws))
        × (verify host (vs ++ ws) ≡ ok r)
        × (r.verified ≡ true)
        × (r.chained_rows ≡ cv.chained_rows + length ws)
        × (r.unchained_leading ≡ cv.unchained_leading)
  Reach-reads_verified lines s p read verifies sound reach at unbroken =
      let serial = Reach-IsSerial (unused-IsSerial lines read verifies sound) reach in
      rw (whole s p serial.alone serial.tear (rw at refl) (rw at refl)) (serial.grown unbroken)
