-- ===== src/Evals/Score.antt =====
-- src/rif-evals/code_refinement_mst/runners/score.py
use mandare.Prelude.{
  ℕ, ◌+◌, ◌-◌, String, Bool, true, false, Option, none, some, List, [], ◌∷◌, length, if◌then◌else◌,
}

pub record SessionScore : Type 0 where
  pub task_id : String
  pub turns_attempted : ℕ
  pub turns_passed : ℕ
  pub first_regression_turn : Option ℕ
  pub mst_score : ℕ

-- `passed is False`
abbrev pub is_failure : Option Bool → Bool
is_failure (some false) = true
is_failure _ = false

abbrev pub is_blocked : Option Bool → Bool
is_blocked none = true
is_blocked (some passed) = false

-- The first place, counted from `start`, at which the test holds: `enumerate(..., start)` and `break`.
unfoldable pub first_at {ℓ} : {A : Type ℓ} → (A → Bool) → ℕ → List A → Option ℕ
first_at p start [] = none
first_at p start (x ∷ xs) = let rest = first_at p (start + 1) xs in if p x then some start else rest

-- `score_session`
unfoldable pub score_session : String → List (Option Bool) → SessionScore
unfolding first_at
score_session task_id turn_results =
    let first_failure = first_at is_failure 1 turn_results in
    let passed : ℕ = elim first_failure [ none ↦ length turn_results | some n ↦ n - 1 ] in
    record {
      task_id = task_id;
      turns_attempted = length turn_results;
      turns_passed = passed;
      first_regression_turn = first_failure;
      mst_score = passed;
    }
