-- ===== src/Evaluation/ManifestTests.antt =====
-- A protocol and a manifest with three scenarios of evals/reliability_v1, and the theorems there.
use coding_agent_reliability.Base.{
  ℕ, ◌≡◌, refl, Bool, true, false, some, none, List, [], ◌∷◌, String, Result, ok, err, Error, pos,
  nat_eq, ◌==◌, if◌then◌else◌,
}
use coding_agent_reliability.Base.Document.{
  Json, bool, text, array, object, Items, nil, cons, Fields, end, field, items, get, find,
}
use coding_agent_reliability.Evaluation.{ScenarioResult, new_result, metrics_of}
use coding_agent_reliability.Evaluation.Manifest.{EvaluationReport, run_scenario_manifest, evaluate}
use coding_agent_reliability.Evaluation.Frozen.{AnswersAll, run_scenario_manifest-AnswersAll}
use coding_agent_reliability.Evaluation.Report.{IsGrounded, evaluate-IsGrounded}
use coding_agent_reliability.Evaluation.Passing.{comparisons}
use coding_agent_reliability.Evaluation.Scenarios.{
  stale_child_completion_scoped, approval_mutation_fails_closed,
}
use coding_agent_reliability.Evaluation.Stores.{competing_retry_authorities_converge}

-- The tests' own digest and `repr`.
abbrev digest : List ℕ → String
digest bytes = "d"

abbrev repr : Json → String
repr v = "?"

abbrev fixture : String → Bool → Bool → Fields
fixture id convergence fail_closed = field "id" (text id) (
    field "runner" (text id) (
      field "safety_required" (bool true) (
        field "convergence_required" (bool convergence)
          (field "fail_closed_required" (bool fail_closed) end))))

abbrev scenarios : Items
scenarios = cons (object (fixture "stale_child_completion_scoped" true false)) (
    cons (object (fixture "approval_mutation_fails_closed" false true))
      (cons (object (fixture "competing_retry_authorities_converge" true true)) nil))

abbrev manifest : Fields
manifest = field "scenarios" (array scenarios) end

abbrev results : List ScenarioResult
unfolding new_result
results =
    new_result "stale_child_completion_scoped" true (some true) (some true) none (pos 0)
      "foreign child completion is ignored and the parent reaches its own terminal state"
    ∷ new_result "approval_mutation_fails_closed" true (some true) none (some true) (pos 0)
        "approval is bound to the exact operation, tool, and payload"
    ∷ new_result "competing_retry_authorities_converge" true (some true) (some true) (some true)
        (pos 0)
        "one revision-bound retry commits and stale competing authority is rejected before convergence"
    ∷ []

manifest_runs : run_scenario_manifest digest repr manifest ≡ ok results
unfolding run_scenario_manifest results get find comparisons stale_child_completion_scoped
    approval_mutation_fails_closed competing_retry_authorities_converge
manifest_runs = refl

run_scenario_manifest-AnswersAll_example :
    (vs : Items) × (get "scenarios" manifest ≡ array vs) × AnswersAll digest repr (items vs) results
run_scenario_manifest-AnswersAll_example =
    run_scenario_manifest-AnswersAll digest repr manifest results manifest_runs

abbrev protocol : Fields
protocol = field "status" (text "frozen_unexecuted") (
    field "scenario_manifest" (object (field "sha256" (text "d") end))
      (field "protocol_id" (text "reliability-v1") (field "claim_boundary" (text "local") end)))

-- The protocol file is the byte 1, the scenario file the byte 2.
abbrev loads : List ℕ → Result Fields
loads [] = err Error.value_error
loads (byte ∷ bytes) = if byte == 1 then ok protocol else ok manifest

abbrev report : EvaluationReport
unfolding metrics_of results
report = record {
  schema_version = "carl.reliability-evaluation-result.v1";
  protocol_id = text "reliability-v1";
  scenario_manifest_sha256 = text "d";
  scenario_results = results;
  metrics = metrics_of results;
  claim_boundary = text "local";
}

evaluated : evaluate digest repr digest loads (1 ∷ []) (2 ∷ []) ≡ ok report
unfolding evaluate report results get find comparisons stale_child_completion_scoped
    approval_mutation_fails_closed competing_retry_authorities_converge
evaluated = refl

evaluate-IsGrounded_example : IsGrounded digest repr digest loads (1 ∷ []) (2 ∷ []) report
evaluate-IsGrounded_example =
    evaluate-IsGrounded digest repr digest loads (1 ∷ []) (2 ∷ []) report evaluated
