-- ===== src/Governance/Telemetry.antt =====
-- src/rif_runtime/governance/telemetry.py: a bounded window of recent decisions. The deque is a list,
-- oldest first; `now` is what the clock reads.
pub mod Window
use mandare.Prelude.{
  ℕ, ◌+◌, ◌*◌, Bool, List, [], ◌∷◌, ◌++◌, ltb, leb, length, filter, count, if◌then◌else◌,
}
use mandare.Schemas.{PolicyDecision, is_deny}

pub record TelemetryStore : Type 0 where
  pub max_events : ℕ
  pub events : List PolicyDecision

abbrev pub new_telemetry : TelemetryStore
new_telemetry = record { max_events = 1000; events = [] }

-- `while len(self.events) > self.max_events: self.events.popleft()`
unfoldable pub evict : ℕ → List PolicyDecision → List PolicyDecision
evict max [] = []
evict max (e ∷ es) = let rest = evict max es in if ltb max (length (e ∷ es)) then rest else e ∷ es

unfoldable pub record_event : TelemetryStore → PolicyDecision → TelemetryStore
unfolding evict
record_event t d = record t { events = evict t.max_events (t.events ++ d ∷ []) }

-- The microseconds in a minute, for `timedelta(minutes=minutes)`.
abbrev pub minute : ℕ
minute = 60000000

-- `e.timestamp >= now - timedelta(minutes=minutes)`, with the subtraction moved to the left
abbrev pub is_recent : ℕ → ℕ → PolicyDecision → Bool
is_recent now minutes e = leb now (e.timestamp + minutes * minute)

unfoldable pub recent : ℕ → ℕ → TelemetryStore → List PolicyDecision
recent now minutes t = filter (is_recent now minutes) t.events

unfoldable pub denial_count : ℕ → ℕ → TelemetryStore → ℕ
unfolding recent
denial_count now minutes t = count (λ e. is_deny e.decision) (recent now minutes t)
