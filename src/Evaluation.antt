-- ===== src/Evaluation.antt =====
-- The reliability evaluation (src/agent_reliability_lab/evaluation.py): the result of a scenario and
-- the summary of all results. Scenarios and Stores hold the scenario runners, on the models of the
-- other components, and Manifest the run of a manifest and the report; the other children prove what
-- a run and a report say. A rate is an exact fraction where Python has the nearest float.
mod Summary
mod Scenarios
mod Stores
pub mod Manifest
pub mod Passing
pub mod Frozen
mod Report
mod Tests
mod ManifestTests
use coding_agent_reliability.Base.{
  ℕ, ◌≡◌, Bool, true, false, Option, none, some, List, [], ◌∷◌, String, ℤ, pos, ◌+ℤ◌, ◌==◌, nat_eq,
  Result, ok, err, Error, is_some, length, suc, if◌then◌else◌, ◌&&◌,
}

pub record ScenarioResult : Type 0 where
  pub scenario_id : String
  pub passed : Bool
  pub safety_applicable : Bool
  pub safety_passed : Option Bool
  pub convergence_applicable : Bool
  pub convergence_passed : Option Bool
  pub fail_closed_applicable : Bool
  pub fail_closed_passed : Option Bool
  pub duplicate_effect_violations : ℤ
  pub detail : String

-- `_result`
unfoldable pub new_result :
    String → Bool → Option Bool → Option Bool → Option Bool → ℤ → String → ScenarioResult
new_result scenario_id passed safety convergence fail_closed duplicates detail = record {
  scenario_id = scenario_id;
  passed = passed;
  safety_applicable = is_some safety;
  safety_passed = safety;
  convergence_applicable = is_some convergence;
  convergence_passed = convergence;
  fail_closed_applicable = is_some fail_closed;
  fail_closed_passed = fail_closed;
  duplicate_effect_violations = duplicates;
  detail = detail;
}

-- `value is True`
abbrev pub is_true : Option Bool → Bool
is_true none = false
is_true (some value) = value

-- How many results a test holds for: `sum(test(result) for result in results)`, and the length of
-- `[result for result in results if test(result)]`.
unfoldable pub count : (ScenarioResult → Bool) → List ScenarioResult → ℕ
count test [] = 0
count test (result ∷ results) =
    let rest = count test results in if test result then suc rest else rest

unfoldable pub sum_duplicates : List ScenarioResult → ℤ
sum_duplicates [] = pos 0
sum_duplicates (result ∷ results) = result.duplicate_effect_violations +ℤ sum_duplicates results

-- `passed / total if total else 1.0`, as numerator and denominator.
abbrev pub rate : ℕ → ℕ → ℕ × ℕ
rate passed total = if total == 0 then (1, 1) else (passed, total)

pub record Metrics : Type 0 where
  pub scenario_count : ℕ
  pub scenario_passed : ℕ
  pub scenario_pass_rate : ℕ × ℕ
  pub safety_applicable : ℕ
  pub safety_passed : ℕ
  pub safety_pass_rate : ℕ × ℕ
  pub convergence_applicable : ℕ
  pub convergence_passed : ℕ
  pub convergence_pass_rate : ℕ × ℕ
  pub fail_closed_applicable : ℕ
  pub fail_closed_passed : ℕ
  pub fail_closed_pass_rate : ℕ × ℕ
  pub duplicate_effect_violations : ℤ
  pub all_scenarios_passed : Bool

abbrev pub is_passed : ScenarioResult → Bool
is_passed result = result.passed

abbrev pub safety_applies : ScenarioResult → Bool
safety_applies result = result.safety_applicable

abbrev pub safety_holds : ScenarioResult → Bool
safety_holds result = result.safety_applicable && is_true result.safety_passed

abbrev pub convergence_applies : ScenarioResult → Bool
convergence_applies result = result.convergence_applicable

abbrev pub convergence_holds : ScenarioResult → Bool
convergence_holds result = result.convergence_applicable && is_true result.convergence_passed

abbrev pub fail_closed_applies : ScenarioResult → Bool
fail_closed_applies result = result.fail_closed_applicable

abbrev pub fail_closed_holds : ScenarioResult → Bool
fail_closed_holds result = result.fail_closed_applicable && is_true result.fail_closed_passed

-- The dictionary that `summarize_results` returns for a nonempty list.
unfoldable pub metrics_of : List ScenarioResult → Metrics
unfolding count sum_duplicates
metrics_of results = record {
  scenario_count = length results;
  scenario_passed = count is_passed results;
  scenario_pass_rate = (count is_passed results, length results);
  safety_applicable = count safety_applies results;
  safety_passed = count safety_holds results;
  safety_pass_rate = rate (count safety_holds results) (count safety_applies results);
  convergence_applicable = count convergence_applies results;
  convergence_passed = count convergence_holds results;
  convergence_pass_rate =
      rate (count convergence_holds results) (count convergence_applies results);
  fail_closed_applicable = count fail_closed_applies results;
  fail_closed_passed = count fail_closed_holds results;
  fail_closed_pass_rate =
      rate (count fail_closed_holds results) (count fail_closed_applies results);
  duplicate_effect_violations = sum_duplicates results;
  all_scenarios_passed = count is_passed results == length results;
}

unfoldable pub summarize_results : List ScenarioResult → Result Metrics
unfolding metrics_of
summarize_results [] = err Error.value_error
summarize_results (result ∷ results) = ok (metrics_of (result ∷ results))
