-- ===== src/Tests/Writers.antt =====
-- The theorems on the processes that share a log, at concrete steps.
use mandare.Prelude.{◌≡◌, refl, true, none, List, [], ◌∷◌, ◌+◌, arith, length, ok}
use mandare.Values.{Value, dict, text, datetime, Fields, end, field}
use mandare.Audit.{genesis_hash, with_hash}
use mandare.Storage.{Line, row, read_all}
use mandare.Storage.Chain.{chained_row, verify, verification, ChainVerification}
use mandare.Storage.Writers.{
  Shared, visible, Reach, here, next, enter, with_row, outside, waiting, locked, buffered, writing,
  flushed, reading, normalise, lock, link, flush_part, flush_rest, unlock, share, unused,
}
use mandare.Storage.Writers.Readers.{Reach-reads_verified}
use mandare.Tests.Fixtures.{fixed_host}

abbrev event : Fields
event = field "actor" (text "agent") (field "at" (datetime 7) end)

abbrev payload : Fields
payload = field "actor" (text "agent") (field "at" (text "2026-01-01T00:00:00+00:00") end)

abbrev first_row : Value
first_row = chained_row payload (with_hash "e1" "2026" (dict payload) genesis_hash "ab12")

-- Process 0 appends in two writes while process 1 waits for the lock, and then process 2 reads.
abbrev both_wait : Shared
both_wait = enter 1 (waiting payload) (enter 0 (waiting payload) (unused []))

abbrev half_written : Shared
half_written =
    record (enter 0 (writing first_row)
      (enter 0 (buffered first_row) (enter 0 (locked payload) both_wait))) { torn = true }

abbrev appended : Shared
appended = enter 0 outside (enter 0 flushed (with_row first_row half_written))

abbrev read : Shared
read = enter 2 reading appended

both_wait-Reach : Reach fixed_host (unused []) both_wait
unfolding mandare.Values.Normal.normalize_fields mandare.Values.get_field
both_wait-Reach =
    next (next here (normalise 0 event payload refl refl refl))
      (normalise 1 event payload refl refl refl)

half_written-Reach : Reach fixed_host (unused []) half_written
unfolding visible mandare.Storage.Chain.tail_hash mandare.Audit.new_record
    mandare.Values.Normal.sha256_digest mandare.Values.Normal.normalize_for_json
half_written-Reach =
    next
      (next (next both_wait-Reach (lock 0 payload refl (λ q. ground arith))) (
        link 0 payload "e1" "2026" genesis_hash
          (with_hash "e1" "2026" (dict payload) genesis_hash "ab12") refl refl refl))
      (flush_part 0 first_row refl)

read-Reach : Reach fixed_host (unused []) read
read-Reach =
    next (next (next half_written-Reach (flush_rest 0 first_row refl)) (unlock 0 refl))
      (share 2 refl (λ q. ground arith))

Reach-reads_verified_example :
    (ws : List Value) × (r : ChainVerification) × (read_all (row first_row ∷ []) ≡ ok ws)
    × (verify fixed_host ws ≡ ok r)
    × (r.verified ≡ true)
    × (r.chained_rows ≡ 0 + length ws)
    × (r.unchained_leading ≡ 0)
unfolding visible read_all verify mandare.Storage.Writers.any_breaks mandare.Storage.breaks
    mandare.Values.set_field
Reach-reads_verified_example =
    Reach-reads_verified fixed_host [] (verification true 0 0 none) [] read 2 refl refl refl
      read-Reach refl refl
