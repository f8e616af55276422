-- ===== src/Evals/Sandbox.antt =====
-- src/rif-evals/code_refinement_mst/runners/sandbox_exec.py: the files that a candidate is tested in, and
-- what the run of pytest over them is taken for. The run itself is a parameter.
use mandare.Prelude.{
  ℕ, ◌+◌, String, ◌≡◌, refl, Bool, true, false, Option, none, some, List, [], ◌∷◌, eqb, Dict,
  text_append,
}
use mandare.Config.{ℤ, pos, negsuc}
use mandare.Evals.{SandboxResult}

-- `"\n".join(lines)`
unfoldable pub join_lines : List String → String
join_lines [] = ""
join_lines (l ∷ []) = l
join_lines (l ∷ m ∷ ls) = text_append l (text_append "\n" (join_lines (m ∷ ls)))

-- The lines of the tests from an index on, with the text of each index.
unfoldable pub test_lines : (ℕ → String) → ℕ → List String → List String
test_lines numeral index [] = []
test_lines numeral index (assertion ∷ tests) =
    text_append "def test_assertion_" (text_append (numeral index) "():")
    ∷ text_append "    " assertion
    ∷ ""
    ∷ test_lines numeral (index + 1) tests

-- `_render_test_module`
unfoldable pub render_test_module : (ℕ → String) → List String → String
unfolding join_lines test_lines
render_test_module numeral tests =
    join_lines ("from candidate import *  # noqa: F401,F403" ∷ "" ∷ test_lines numeral 0 tests)

-- How a run of pytest ends: with a code and its output, or by the timeout, with the output until then.
pub data Completed : Type 0 where
  exited : ℤ → String → String → Completed
  expired : Option String → Completed

abbrev pub is_zero : ℤ → Bool
is_zero (pos n) = eqb n 0
is_zero (negsuc n) = false

abbrev pub or_empty : Option String → String
or_empty none = ""
or_empty (some s) = s

-- The result of a run, with the text of the timeout.
unfoldable pub result_of : String → Completed → SandboxResult
result_of timeout (exited code out errors) = record {
  passed = is_zero code;
  exit_code = code;
  stdout = out;
  stderr = errors;
  timed_out = false;
}
result_of timeout (expired out) = record {
  passed = false;
  exit_code = negsuc 0;
  stdout = or_empty out;
  stderr = text_append "sandbox execution timed out after " (text_append timeout "s");
  timed_out = true;
}

-- `run_in_sandbox`
unfoldable pub run_in_sandbox :
    (ℕ → String) → (Dict String → Completed) → String → List String → String → SandboxResult
unfolding render_test_module result_of
run_in_sandbox numeral pytest code tests timeout =
    result_of timeout (
      pytest
        (("candidate.py", code) ∷ ("test_candidate.py", render_test_module numeral tests) ∷ []))

-- A run that was cut off by the timeout does not pass.
timed_out_fails :
    (timeout : String) (c : Completed)
    → (result_of timeout c).timed_out ≡ true
    → (result_of timeout c).passed ≡ false
unfolding result_of
timed_out_fails timeout (exited code out errors) late = cc
timed_out_fails timeout (expired out) late = refl
