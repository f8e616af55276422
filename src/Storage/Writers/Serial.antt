-- ===== src/Storage/Writers/Serial.antt =====
-- Whatever order the processes that share a log take their steps in (src/rif_runtime/storage/jsonl.py,
-- `_locked` and `_read_locked`), their appends come one after the other.
use mathlib.Core.Path.{subst}
use mandare.Prelude.{
  ℕ, ◌+◌, String, ◌≡◌, refl, ◌∙◌, true, false, inl, inr, Bool-cases, List, [], ◌∷◌, ◌++◌,
  append_assoc, length, length-append, arith, eqb, ok,
}
use mandare.Values.{Value, dict, Fields, Host, has_field}
use mandare.Values.Normal.{normalize_fields, normalize_fields_twice}
use mandare.Audit.{AuditRecord, new_record}
use mandare.Storage.{Line, blank, damaged, row, breaks, read_all}
use mandare.Storage.Chain.{
  chain_key, tail_hash, chained_row, append_chained, ChainVerification, verify,
}
use mandare.Storage.Chain.Append.{verify-append_chained}
use mandare.Storage.Writers.{
  Phase, outside, waiting, locked, buffered, writing, flushed, reading, is_exclusive, Shared, enter,
  with_row, Step, normalise, lock, link, refuse, flush, flush_part, flush_rest, unlock, share,
  unshare, any_breaks,
}
use mandare.Storage.Writers.Exclusive.{
  IsExclusive, IsTorn, clash, clash_exclusive, clash_sym, clash_unlocked, eqb_eq, is_writing,
  not_exclusive, phases_with-All, phases_with-IsExclusive, shares, whole,
}

pub any_breaks-concat :
    (ls : List Line) (v : Value)
    → any_breaks (ls ++ row v ∷ []) ≡ false
    → (any_breaks ls ≡ false) × (breaks v ≡ false)
unfolding any_breaks
any_breaks-concat [] v h = ground arith
any_breaks-concat (blank ∷ ls) v h = any_breaks-concat ls v h
any_breaks-concat (damaged ∷ ls) v h = any_breaks-concat ls v h
any_breaks-concat (row w ∷ ls) v h = ground (arith, any_breaks-concat ls v)

module _ (host : Host) (vs : List Value) (cv : ChainVerification) where
  -- The log can be read and verifies, with some rows more than `vs`, and as many more chained.
  abbrev pub Grown : List Line → Type 0
  Grown lines =
      (ws : List Value) × (r : ChainVerification) × (read_all lines ≡ ok (vs ++ ws))
      × (verify host (vs ++ ws) ≡ ok r)
      × (r.verified ≡ true)
      × (r.chained_rows ≡ cv.chained_rows + length ws)
      × (r.unchained_leading ≡ cv.unchained_leading)

  abbrev Ready : Fields → Type 0
  Ready payload =
      (normalize_fields host payload ≡ ok payload) × (has_field chain_key payload ≡ false)

  -- The row is the one that an append in one step adds to the lines.
  abbrev IsNext : List Line → Value → Type 0
  IsNext lines v =
      (event_id timestamp : String) × (payload : Fields) × (append_chained host event_id timestamp
          payload lines
        ≡ ok (lines ++ row v ∷ []))

  abbrev pub Promise : List Line → Phase → Type 0
  Promise lines (waiting payload) = Ready payload
  Promise lines (locked payload) = Ready payload
  Promise lines (buffered v) = IsNext lines v
  Promise lines (writing v) = IsNext lines v
  Promise lines _ = Unit

  Promise-is_exclusive :
      (lines lines' : List Line) (phase : Phase)
      → is_exclusive phase ≡ false
      → Promise lines phase
      → Promise lines' phase
  Promise-is_exclusive lines lines' outside e h = tt
  Promise-is_exclusive lines lines' (waiting payload) e h = h
  Promise-is_exclusive lines lines' (locked payload) e h = cc
  Promise-is_exclusive lines lines' (buffered v) e h = cc
  Promise-is_exclusive lines lines' (writing v) e h = cc
  Promise-is_exclusive lines lines' flushed e h = tt
  Promise-is_exclusive lines lines' reading e h = tt

  pub record IsSerial (s : Shared) : Type 0 where
    pub alone : IsExclusive s.phase_of
    pub tear : s.torn ≡ true → IsTorn s
    pub promise : (p : ℕ) → Promise s.lines (s.phase_of p)
    pub grown : any_breaks s.lines ≡ false → Grown s.lines

  IsNext-append :
      (lines : List Line) (payload : Fields) (event_id timestamp previous : String)
      (entry : AuditRecord)
      → Ready payload
      → tail_hash host lines ≡ ok previous
      → new_record host event_id timestamp (dict payload) previous ≡ ok entry
      → IsNext lines (chained_row payload entry)
  unfolding append_chained
  IsNext-append lines payload event_id timestamp previous entry ready tail made =
      (event_id, timestamp, payload, rw (ready.0, ready.1, tail, made) refl)

  pub Grown-append :
      (lines : List Line) (v : Value)
      → Grown lines
      → IsNext lines v
      → any_breaks (lines ++ row v ∷ []) ≡ false
      → Grown (lines ++ row v ∷ [])
  Grown-append lines v (ws, r, read, verifies, sound, more, same)
        (event_id, timestamp, payload, written) unbroken =
      let (v', r', read', verifies', sound', more', same') =
        verify-append_chained host event_id timestamp payload lines (lines ++ row v ∷ []) (vs ++ ws)
          r written read verifies sound
          (λ w e. (any_breaks-concat lines w (rw (← e) unbroken)).1) in
      let one_more = length-append ws (v' ∷ []) in
      (
        ws ++ v' ∷ [],
        r',
        rw (← append_assoc vs ws (v' ∷ [])) read',
        rw (← append_assoc vs ws (v' ∷ [])) verifies',
        sound',
        omega arith,
        same' ∙ same,
      )

  -- A step of a process that leaves the file alone.
  stay-IsSerial :
      (s : Shared) (p : ℕ) (phase : Phase)
      → IsSerial s
      → is_writing (s.phase_of p) ≡ false
      → ((q : ℕ) → eqb p q ≡ false → clash phase (s.phase_of q) ≡ false)
      → Promise s.lines phase
      → IsSerial (enter p phase s)
  stay-IsSerial s p phase serial still fits kept = record {
    alone = phases_with-IsExclusive p phase s.phase_of serial.alone fits;
    tear = λ torn.
        let (q, at_it) = serial.tear torn in
        elim (Bool-cases (eqb p q)) [
          | inl same ↦ cc (eqb_eq p q same, at_it, still)
          | inr other ↦ (q, rw other at_it)
        ];
    promise =
        phases_with-All p phase s.phase_of (Promise s.lines) kept (λ q other. serial.promise q);
    grown = serial.grown;
  }

  -- A process that holds the exclusive lock, and whose row is the next one, ends the row.
  append-IsSerial :
      (s : Shared) (p : ℕ) (v : Value)
      → IsSerial s
      → is_exclusive (s.phase_of p) ≡ true
      → IsNext s.lines v
      → IsSerial (enter p flushed (with_row v s))
  append-IsSerial s p v serial held is_next = record {
    alone = phases_with-IsExclusive p flushed s.phase_of serial.alone (λ q other.
        clash_exclusive (s.phase_of p) flushed (s.phase_of q) held refl (serial.alone p q other));
    tear = λ torn. cc;
    promise = phases_with-All p flushed s.phase_of (Promise (s.lines ++ row v ∷ [])) tt (λ q other.
        Promise-is_exclusive s.lines (s.lines ++ row v ∷ []) (s.phase_of q)
          (not_exclusive (s.phase_of p) (s.phase_of q) held (serial.alone p q other))
          (serial.promise q));
    grown = λ unbroken.
        Grown-append s.lines v (serial.grown (any_breaks-concat s.lines v unbroken).0) is_next
          unbroken;
  }

  -- What a process has promised, where it stands at a known phase.
  promised :
      (s : Shared) (p : ℕ) (phase : Phase)
      → IsSerial s
      → s.phase_of p ≡ phase
      → Promise s.lines phase
  promised s p phase serial at = subst (Promise s.lines) at (serial.promise p)

  -- The others stand clear of a process that keeps the exclusive lock.
  keeps_lock :
      (s : Shared) (p : ℕ) (before after : Phase)
      → IsSerial s
      → s.phase_of p ≡ before
      → is_exclusive before ≡ true
      → is_exclusive after ≡ true
      → (q : ℕ) → eqb p q ≡ false
      → clash after (s.phase_of q) ≡ false
  keeps_lock s p before after serial at held holds q other =
      clash_exclusive before after (s.phase_of q) held holds (rw (← at) (serial.alone p q other))

  flush_part-IsSerial :
      (s : Shared) (p : ℕ) (v : Value)
      → IsSerial s
      → s.phase_of p ≡ buffered v
      → IsSerial (enter p (writing v) (record s { torn = true }))
  flush_part-IsSerial s p v serial at = record {
    alone =
        phases_with-IsExclusive p (writing v) s.phase_of serial.alone
          (keeps_lock s p (buffered v) (writing v) serial at refl refl);
    tear = λ torn. (p, ground arith);
    promise =
        phases_with-All p (writing v) s.phase_of (Promise s.lines)
          (promised s p (buffered v) serial at) (λ q other. serial.promise q);
    grown = serial.grown;
  }

  pub Step-IsSerial : {s t : Shared} → Step host s t → IsSerial s → IsSerial t
  Step-IsSerial {s} (normalise p fields payload at normal free) serial =
      stay-IsSerial s p (waiting payload) serial (rw at refl)
        (λ q other. clash_unlocked (waiting payload) (s.phase_of q) refl)
        (normalize_fields_twice host fields payload normal, free)
  Step-IsSerial {s} (lock p payload at granted) serial =
      stay-IsSerial s p (locked payload) serial (rw at refl)
        (λ q other.
          clash_sym (s.phase_of q) (locked payload)
            (clash_unlocked (s.phase_of q) (locked payload) (granted q)))
        (promised s p (waiting payload) serial at)
  Step-IsSerial {s} (link p payload event_id timestamp previous entry at tail made) serial =
      stay-IsSerial s p (buffered (chained_row payload entry)) serial (rw at refl)
        (keeps_lock s p (locked payload) (buffered (chained_row payload entry)) serial at refl refl)
        (IsNext-append s.lines payload event_id timestamp previous entry
          (promised s p (locked payload) serial at)
          (rw (← whole s p serial.alone serial.tear (rw at refl) (rw at refl)) tail) made)
  Step-IsSerial {s} (refuse p payload e at raised) serial =
      stay-IsSerial s p outside serial (rw at refl)
        (λ q other. clash_unlocked outside (s.phase_of q) refl) tt
  Step-IsSerial {s} (flush p v at) serial =
      append-IsSerial s p v serial (rw at refl) (promised s p (buffered v) serial at)
  Step-IsSerial {s} (flush_part p v at) serial = flush_part-IsSerial s p v serial at
  Step-IsSerial {s} (flush_rest p v at) serial =
      append-IsSerial s p v serial (rw at refl) (promised s p (writing v) serial at)
  Step-IsSerial {s} (unlock p at) serial =
      stay-IsSerial s p outside serial (rw at refl)
        (λ q other. clash_unlocked outside (s.phase_of q) refl) tt
  Step-IsSerial {s} (share p at granted) serial =
      stay-IsSerial s p reading serial (rw at refl) (λ q other. shares (s.phase_of q) (granted q))
        tt
  Step-IsSerial {s} (unshare p at) serial =
      stay-IsSerial s p outside serial (rw at refl)
        (λ q other. clash_unlocked outside (s.phase_of q) refl) tt
