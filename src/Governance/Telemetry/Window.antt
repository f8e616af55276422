-- ===== src/Governance/Telemetry/Window.antt =====
-- The window never holds more than its bound, and what it drops is the oldest.
use mandare.Prelude.{
  ℕ, zero, suc, ◌+◌, ◌≤◌, ◌≡◌, refl, List, [], ◌∷◌, ◌++◌, arith, length, length-append, Bool-cases,
  ltb, inl, inr, ltb→lt, if◌then◌else◌,
}
use mandare.Schemas.{PolicyDecision}
use mandare.Governance.Telemetry.{TelemetryStore, evict, record_event}

abbrev pub drop : ℕ → List PolicyDecision → List PolicyDecision
drop zero xs = xs
drop (suc n) [] = []
drop (suc n) (x ∷ xs) = drop n xs

length-evict : (max : ℕ) (es : List PolicyDecision) → length (evict max es) ≤ max
unfolding evict
length-evict max [] = omega arith
length-evict max (e ∷ es) = ground (arith, length-evict max es)

evict-eq-drop :
    (max k : ℕ) (es : List PolicyDecision) → length es ≡ k + max → evict max es ≡ drop k es
unfolding evict
evict-eq-drop max zero [] h = refl
evict-eq-drop max (suc k) [] h = absurd (omega arith)
evict-eq-drop max zero (e ∷ es) h = ground arith
evict-eq-drop max (suc k) (e ∷ es) h = ground (arith, evict-eq-drop max k es)

evict_short : (max : ℕ) (es : List PolicyDecision) → length es ≤ max → evict max es ≡ es
unfolding evict
evict_short max [] h = refl
evict_short max (e ∷ es) h = ground arith

-- Recording a decision keeps the window within its bound.
pub record_event_bounded :
    (t : TelemetryStore) (d : PolicyDecision) → length (record_event t d).events ≤ t.max_events
unfolding record_event
record_event_bounded t d = length-evict t.max_events (t.events ++ d ∷ [])

-- From a window within its bound, recording a decision drops nothing below the bound and exactly the
-- oldest event at the bound: the window is the last `max_events` decisions.
pub record_event_window :
    (t : TelemetryStore) (d : PolicyDecision)
    → length t.events ≤ t.max_events
    → (record_event t d).events ≡ (
        if ltb (length t.events) t.max_events
        then t.events ++ d ∷ []
        else drop 1 (t.events ++ d ∷ []))
unfolding record_event
record_event_window t d h =
    let len : length (t.events ++ d ∷ []) ≡ length t.events + 1 = length-append t.events (d ∷ []) in
    elim (Bool-cases (ltb (length t.events) t.max_events)) [
      | inl below ↦
          let room = ltb→lt (length t.events) t.max_events below in
          rw below (evict_short t.max_events (t.events ++ d ∷ []) (omega (arith, len, room)))
      | inr full ↦
          let at_bound : t.max_events ≤ length t.events = ground arith in
          rw full
            (evict-eq-drop t.max_events 1 (t.events ++ d ∷ []) (omega (arith, len, h, at_bound)))
    ]
