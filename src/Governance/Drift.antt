-- ===== src/Governance/Drift.antt =====
-- src/rif_runtime/governance/drift.py: how far recent decisions are from the ordinary, and the posture
-- that this recommends. Floats, `urlparse` and `unquote` are parameters.
pub mod Thresholds
pub mod Patterns
use mandare.Prelude.{
  ℕ, ◌+◌, String, Bool, true, false, ◌&&◌, ◌||◌, ◌==◌, List, [], ◌∷◌, contains, count, length,
  text_append, map, if◌then◌else◌, Result, ok, err, ◌>>=◌, ◌>>◌,
}
use mandare.Governance.Drift.Patterns.{is_adversarial}
use mandare.Schemas.{Posture, normal, elevated, restricted, locked, PolicyDecision, is_deny}

-- Python's floats, as far as they are used: `literal n` is the numeral of n tenths.
pub record Floats : Type 1 where
  pub Float : Type 0
  pub literal : ℕ → Float
  pub ltf : Float → Float → Bool
  -- `a / b`
  pub ratio : ℕ → ℕ → Float
  -- `-sum((c / total) * math.log(c / total) for c in counts)`
  pub shannon : ℕ → List ℕ → Float

pub record Url : Type 0 where
  pub scheme : String
  pub netloc : String
  pub path : String
  pub params : String
  pub query : String

-- What the scan of a target calls.
pub record Scanner : Type 0 where
  pub urlparse : String → Result Url
  pub unquote : String → String

abbrev pub with_part : String → String → String → String
with_part payload separator part =
    if part == "" then payload else text_append payload (text_append separator part)

module _ (scan : Scanner) where
  -- `_extract_payload`
  unfoldable pub extract_payload : String → Result String
  extract_payload target = do
    parsed ← scan.urlparse target
    ok (
        if contains ("http" ∷ "https" ∷ []) parsed.scheme
          && (if parsed.netloc == "" then false else true)
        then scan.unquote (with_part (with_part parsed.path ";" parsed.params) "?" parsed.query)
        else target)

  -- The number of events whose target has an adversarial payload.
  unfoldable pub adversarial_hits : List PolicyDecision → Result ℕ
  unfolding extract_payload is_adversarial
  adversarial_hits [] = ok 0
  adversarial_hits (e ∷ es) = do
    payload ← extract_payload e.target
    n ← adversarial_hits es
    ok ((if is_adversarial payload then 1 else 0) + n)

-- One more of a value.
unfoldable pub count_in : String → List (String × ℕ) → List (String × ℕ)
count_in v [] = (v, 1) ∷ []
count_in v ((w, n) ∷ counts) = if w == v then (w, n + 1) ∷ counts else (w, n) ∷ count_in v counts

-- `Counter(values)`
unfoldable pub counter : List String → List (String × ℕ) → List (String × ℕ)
unfolding count_in
counter [] counts = counts
counter (v ∷ vs) counts = counter vs (count_in v counts)

module _ (fl : Floats) where
  pub record DriftVector : Type 0 where
    pub denial_rate : fl.Float
    pub adversarial_score : fl.Float
    pub action_entropy : fl.Float
    pub target_entropy : fl.Float

  -- `_entropy`
  unfoldable pub entropy : List String → fl.Float
  unfolding counter
  entropy [] = fl.literal 0
  entropy (v ∷ vs) =
      fl.shannon (length (v ∷ vs)) (map (λ (p : String × ℕ). p.1) (counter (v ∷ vs) []))

  -- `DriftVector.from_events`
  unfoldable pub from_events : Scanner → List PolicyDecision → Result DriftVector
  unfolding adversarial_hits entropy
  from_events scan [] = ok (record {
    denial_rate = fl.literal 0;
    adversarial_score = fl.literal 0;
    action_entropy = fl.literal 0;
    target_entropy = fl.literal 0;
  })
  from_events scan (e ∷ es) = do
    hits ← adversarial_hits scan (e ∷ es)
    ok (record {
      denial_rate = fl.ratio (count (λ d. is_deny d.decision) (e ∷ es)) (length (e ∷ es));
      adversarial_score = fl.ratio hits (length (e ∷ es));
      action_entropy = entropy (map (λ (d : PolicyDecision). d.action) (e ∷ es));
      target_entropy = entropy (map (λ (d : PolicyDecision). d.target) (e ∷ es));
    })

  -- `a > b`
  abbrev pub gtf : fl.Float → fl.Float → Bool
  gtf a b = fl.ltf b a

  abbrev pub focused_probe : DriftVector → Bool
  focused_probe v = fl.ltf v.target_entropy (fl.literal 5) && gtf v.denial_rate (fl.literal 3)

  unfoldable pub recommend_correction : DriftVector → Posture
  recommend_correction v =
      if gtf v.adversarial_score (fl.literal 3) || gtf v.denial_rate (fl.literal 8)
      then locked
      else if gtf v.adversarial_score (fl.literal 1)
          || gtf v.denial_rate (fl.literal 5)
          || focused_probe v
      then restricted
      else if gtf v.denial_rate (fl.literal 2)
      then elevated
      else normal
