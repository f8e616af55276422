-- ===== src/Runtime/Integrity.antt =====
-- What the methods of src/rif_runtime/runtime.py leave of the log of decisions.
use mathlib.Core.Path.{subst}
use mandare.Prelude.{
  ◌+◌, String, ◌≡◌, refl, inl, inr, Bool-cases, true, false, List, [], ◌∷◌, ◌++◌, append-nil,
  length, arith, has_key, ok, Result-cases,
}
use mandare.Schemas.{Posture, PolicyDecision}
use mandare.Values.{Value, Fields, Host}
use mandare.Graph.{MultiDiGraph}
use mandare.Storage.{Line, row, read_all}
use mandare.Storage.Chain.{append_chained, chained_row, ChainVerification, verify}
use mandare.Storage.Chain.Append.{append_chained-Appended}
use mandare.Storage.Writers.{any_breaks}
use mandare.Storage.Writers.Serial.{Grown, Grown-append, any_breaks-concat}
use mandare.Runtime.State.{Runtime, Draws}
use mandare.Runtime.{model_dump, differs, log_transition, log_decision, set_environment}
use mandare.Runtime.Calls.{Calls}
use mandare.Runtime.Stable.{IsStable, Calls-Keeps}

-- A log grows by appends alone.
data Appends (host : Host) (lines : List Line) : List Line → Type 0 where
  done : Appends host lines lines
  more :
      {before after : List Line}
      → Appends host lines before
      → (event_id timestamp : String) (fields : Fields)
      → append_chained host event_id timestamp fields before ≡ ok after
      → Appends host lines after

Appends-trans :
    (host : Host) {lines before after : List Line}
    → Appends host lines before
    → Appends host before after
    → Appends host lines after
Appends-trans host first done = first
Appends-trans host first (more rest event_id timestamp fields written) =
    more (Appends-trans host first rest) event_id timestamp fields written

module _ (host : Host) (vs : List Value) (cv : ChainVerification) (lines : List Line) where
  Appends-Grown :
      {after : List Line}
      → Appends host lines after
      → read_all lines ≡ ok vs
      → verify host vs ≡ ok cv
      → cv.verified ≡ true
      → any_breaks after ≡ false
      → Grown host vs cv after
  Appends-Grown done read verifies sound unbroken =
      let whole_log = append-nil vs in
      ([], cv, rw whole_log read, rw whole_log verifies, sound, omega arith, refl)
  Appends-Grown {after} (more {before} rest event_id timestamp fields written) read verifies sound
        unbroken =
      let a = append_chained-Appended host event_id timestamp fields before after written in
      let v = chained_row a.payload a.entry in
      let unbroken' : any_breaks (before ++ row v ∷ []) ≡ false = rw (a.written) unbroken in
      let earlier = (any_breaks-concat before v unbroken').0 in
      subst (Grown host vs cv) a.written (
        Grown-append host vs cv before v (Appends-Grown rest read verifies sound earlier)
          (event_id, timestamp, fields, rw (a.written) written) unbroken')

module _ (host : Host) (nx : MultiDiGraph) where
  abbrev KeepsLog : Runtime nx.Graph → Runtime nx.Graph → Type 0
  KeepsLog s t = Appends host s.decisions t.decisions

  log_decision-KeepsLog :
      (draws : Draws) (d : PolicyDecision) (s : Runtime nx.Graph)
      → KeepsLog s (log_decision host nx draws d s).1
  unfolding log_decision
  log_decision-KeepsLog draws d s =
      elim (Result-cases
        (append_chained host draws.event_id draws.written_at (model_dump d) s.decisions)) [
          | inl (lines, e) ↦ rw e (more done draws.event_id draws.written_at (model_dump d) e)
          | inr (x, e) ↦ rw e done
        ]

  log_transition-KeepsLog :
      (old : Posture) (s : Runtime nx.Graph) → KeepsLog s (log_transition host nx old s).1
  unfolding log_transition
  log_transition-KeepsLog old s = elim (Bool-cases (differs old s.posture)) [
    | inl moved ↦ rw moved done
    | inr same ↦ rw same done
  ]

  set_environment-KeepsLog :
      (name : String) (s : Runtime nx.Graph) → KeepsLog s (set_environment host nx name s).1
  unfolding set_environment
  set_environment-KeepsLog name s = elim (Bool-cases (has_key name s.environments)) [
    | inl known ↦ rw known done
    | inr unknown ↦ rw unknown done
  ]

  log-IsStable : IsStable host nx KeepsLog
  unfolding mandare.Runtime.take_in
  log-IsStable = record {
    same = λ s. done;
    both = λ s t u h k. Appends-trans host h k;
    takes_in = λ draws d s. done;
    climbs = λ severe s. done;
    logs_decision = log_decision-KeepsLog;
    logs_transition = log_transition-KeepsLog;
    logs_evidence = λ e s. done;
    logs_capability = λ fs s. done;
    registers = λ g s. done;
    switches = set_environment-KeepsLog;
  }

  -- Over any sequence of calls of `evaluate`, `record_decision`, `execute_capability`,
  -- `evaluate_metasploit`, `register_capability` and `set_environment`, whatever they return or raise,
  -- the log of decisions stays sound: if it could be read and verified before, it can be read and
  -- verifies afterwards, with the rows that were there and then the new ones, each of them chained.
  -- No row of the log may have a text with a line separator.
  pub Calls-keep_log :
      (s t : Runtime nx.Graph) (vs : List Value) (cv : ChainVerification)
      → Calls host nx s t
      → read_all s.decisions ≡ ok vs
      → verify host vs ≡ ok cv
      → cv.verified ≡ true
      → any_breaks t.decisions ≡ false
      → (ws : List Value) × (r : ChainVerification) × (read_all t.decisions ≡ ok (vs ++ ws))
        × (verify host (vs ++ ws) ≡ ok r)
        × (r.verified ≡ true)
        × (r.chained_rows ≡ cv.chained_rows + length ws)
        × (r.unchained_leading ≡ cv.unchained_leading)
  Calls-keep_log s t vs cv calls read verifies sound unbroken =
      Appends-Grown host vs cv s.decisions (Calls-Keeps host nx KeepsLog log-IsStable s t calls)
        read verifies sound unbroken
