-- ===== src/Governance/Drift/Thresholds.antt =====
-- What src/rif_runtime/governance/drift.py recommends, over its thresholds.
use mandare.Prelude.{◌≤◌, ◌≡◌, refl, true, false, not, ◌||◌, Bool-cases, inl, inr, arith}
use mandare.Governance.Posture.{posture_severity}
use mandare.Governance.Drift.{Floats, DriftVector, gtf, recommend_correction}

-- Comparison of floats that are no NaN: what is above `a` and not above `c` puts `c` above `a`.
pub record IsOrdered (fl : Floats) : Type 0 where
  pub lt_le : (a b c : fl.Float) → fl.ltf a b ≡ true → fl.ltf c b ≡ false → fl.ltf a c ≡ true
  pub le_lt : (a b c : fl.Float) → fl.ltf b a ≡ false → fl.ltf b c ≡ true → fl.ltf a c ≡ true

module _ (fl : Floats) (order : IsOrdered fl) where
  -- The second window is at least as bad: as many denials and adversarial targets, and no more varied
  -- targets.
  pub record IsWorse (v w : DriftVector fl) : Type 0 where
    pub denials : fl.ltf w.denial_rate v.denial_rate ≡ false
    pub adversarial : fl.ltf w.adversarial_score v.adversarial_score ≡ false
    pub targets : fl.ltf v.target_entropy w.target_entropy ≡ false

  module _ (v w : DriftVector fl) (worse : IsWorse v w) where
    rises :
        (t : fl.Float) (x y : fl.Float)
        → fl.ltf y x ≡ false
        → (not (gtf fl x t) || gtf fl y t) ≡ true
    rises t x y h = elim (Bool-cases (gtf fl x t)) [
      | inr below ↦ rw below refl
      | inl above ↦ rw (above, order.lt_le t x y above h) refl
    ]

    falls :
        (t : fl.Float) (x y : fl.Float)
        → fl.ltf x y ≡ false
        → (not (fl.ltf x t) || fl.ltf y t) ≡ true
    falls t x y h = elim (Bool-cases (fl.ltf x t)) [
      | inr above ↦ rw above refl
      | inl below ↦ rw (below, order.le_lt y x t h below) refl
    ]

    -- A window that is at least as bad as another never gets a milder recommendation, whichever of the
    -- thresholds the two fall between.
    pub recommend_correction_mono :
        posture_severity (recommend_correction fl v) ≤ posture_severity (recommend_correction fl w)
    unfolding recommend_correction posture_severity
    recommend_correction_mono = ground (
      arith,
      rises (fl.literal 3) v.adversarial_score w.adversarial_score worse.adversarial,
      rises (fl.literal 1) v.adversarial_score w.adversarial_score worse.adversarial,
      rises (fl.literal 8) v.denial_rate w.denial_rate worse.denials,
      rises (fl.literal 5) v.denial_rate w.denial_rate worse.denials,
      rises (fl.literal 3) v.denial_rate w.denial_rate worse.denials,
      rises (fl.literal 2) v.denial_rate w.denial_rate worse.denials,
      falls (fl.literal 5) v.target_entropy w.target_entropy worse.targets,
    )
