-- ===== src/Evaluation/Manifest.antt =====
-- The scenario manifest of evaluation.py: the table of runners, `run_scenario_manifest`, and `evaluate`
-- on the contents of its two files.
use coding_agent_reliability.Base.{
  ◌≡◌, refl, ℕ, Bool, true, false, not, ◌||◌, Option, none, some, List, [], ◌∷◌, String, ◌==◌,
  string_eq, Result, ok, err, Error, lookup, traverse,
}
use coding_agent_reliability.Base.Document.{
  Json, null, bool, int, text, array, object, items, Fields, get, find, json_eq,
}
use coding_agent_reliability.Base.Errors.{◌>>=◌, ◌>>◌, raise_if}
use coding_agent_reliability.Evaluation.{ScenarioResult, Metrics, summarize_results}
use coding_agent_reliability.Evaluation.Scenarios.{
  stale_child_completion_scoped, lost_ack_retry_idempotency, terminal_conflict_fails_closed,
  approval_mutation_fails_closed, provider_present_suppresses_retry,
  stale_readback_revision_fails_closed,
}
use coding_agent_reliability.Evaluation.Stores.{
  durable_restart_exact_replay, stale_checkpoint_lineage_fails_closed,
  restart_evidence_supersedes_retry, repeated_lost_ack_converges,
  competing_retry_authorities_converge,
}

-- `str(value)` of a text; of any other value it is `repr(value)`, the parameter `repr`.
abbrev pub str_of : (Json → String) → Json → String
str_of repr (text s) = s
str_of repr v = repr v

-- `str(item.get(key, ""))`
abbrev pub text_under : (Json → String) → Option Json → String
text_under repr none = ""
text_under repr (some v) = str_of repr v

-- `item.get(key) is value`
abbrev pub is_bool : Bool → Json → Bool
is_bool true (bool b) = b
is_bool false (bool b) = not b
is_bool _ _ = false

pub is_bool-eq : (b : Bool) (v : Json) → is_bool b v ≡ true → v ≡ bool b
is_bool-eq true (bool true) h = refl
is_bool-eq false (bool true) h = cc
is_bool-eq false (bool false) h = refl
is_bool-eq false null h = cc
is_bool-eq false (int n) h = cc
is_bool-eq false (text t) h = cc
is_bool-eq false (array vs) h = cc
is_bool-eq false (object fs) h = cc
is_bool-eq true _ h = cc

-- Some of the three fixture keys is not the result's.
unfoldable pub misses_applicability : Fields → ScenarioResult → Bool
misses_applicability fixture result =
    not (is_bool result.safety_applicable (get "safety_required" fixture))
    || (not (is_bool result.convergence_applicable (get "convergence_required" fixture))
        || not (is_bool result.fail_closed_applicable (get "fail_closed_required" fixture)))

-- The end of the loop's body, with the result of the runner.
unfoldable pub check_result : (Json → String) → Fields → ScenarioResult → Result ScenarioResult
unfolding misses_applicability
check_result repr fixture result = do
  raise_if (not (result.scenario_id == text_under repr (find "id" fixture))) Error.runtime_error
  raise_if (misses_applicability fixture result) Error.runtime_error
  ok result

-- The runner is called where there is one.
abbrev pub call : Option (Result ScenarioResult) → Result ScenarioResult
call none = err Error.value_error
call (some result) = result

-- `hashlib.sha256(text.encode()).hexdigest()` is the parameter `sha256`.
module _ (sha256 : List ℕ → String) where
  -- SCENARIO_RUNNERS, each runner by what a call of it gives.
  abbrev pub scenario_runners : List (String × Result ScenarioResult)
  scenario_runners =
      ("stale_child_completion_scoped", stale_child_completion_scoped)
      ∷ ("lost_ack_retry_idempotency", lost_ack_retry_idempotency)
      ∷ ("terminal_conflict_fails_closed", terminal_conflict_fails_closed)
      ∷ ("approval_mutation_fails_closed", approval_mutation_fails_closed)
      ∷ ("durable_restart_exact_replay", durable_restart_exact_replay)
      ∷ ("stale_checkpoint_lineage_fails_closed", stale_checkpoint_lineage_fails_closed sha256)
      ∷ ("provider_present_suppresses_retry", provider_present_suppresses_retry sha256)
      ∷ ("stale_readback_revision_fails_closed", stale_readback_revision_fails_closed sha256)
      ∷ ("restart_evidence_supersedes_retry", restart_evidence_supersedes_retry sha256)
      ∷ ("repeated_lost_ack_converges", repeated_lost_ack_converges sha256)
      ∷ ("competing_retry_authorities_converge", competing_retry_authorities_converge sha256)
      ∷ []

module _ (sha256 : List ℕ → String) (repr : Json → String) where
  -- The body of the loop.
  unfoldable pub run_scenario : Json → Result ScenarioResult
  unfolding check_result lookup
  run_scenario (object fixture) = do
    result ← call (lookup (text_under repr (find "runner" fixture)) (scenario_runners sha256))
    check_result repr fixture result
  run_scenario _ = err Error.type_error

  unfoldable pub run_scenarios : Json → Result (List ScenarioResult)
  unfolding run_scenario traverse
  run_scenarios (array scenarios) = traverse run_scenario (items scenarios)
  run_scenarios _ = err Error.type_error

  unfoldable pub run_scenario_manifest : Fields → Result (List ScenarioResult)
  unfolding run_scenarios
  run_scenario_manifest manifest = run_scenarios (get "scenarios" manifest)

-- What `evaluate` returns.
pub record EvaluationReport : Type 0 where
  pub schema_version : String
  pub protocol_id : Json
  pub scenario_manifest_sha256 : Json
  pub scenario_results : List ScenarioResult
  pub metrics : Metrics
  pub claim_boundary : Json

-- `protocol[key]`
abbrev pub required : Option Json → Result Json
required none = err Error.key_error
required (some v) = ok v

abbrev pub frozen_manifest_of : Json → Result Fields
frozen_manifest_of (object frozen) = ok frozen
frozen_manifest_of _ = err Error.type_error

-- The dictionary that `evaluate` returns for the results.
unfoldable pub report_of : Fields → Fields → List ScenarioResult → Result EvaluationReport
unfolding summarize_results find
report_of protocol frozen results = do
  metrics ← summarize_results results
  protocol_id ← required (find "protocol_id" protocol)
  manifest_sha256 ← required (find "sha256" frozen)
  claim_boundary ← required (find "claim_boundary" protocol)
  ok (record {
    schema_version = "carl.reliability-evaluation-result.v1";
    protocol_id = protocol_id;
    scenario_manifest_sha256 = manifest_sha256;
    scenario_results = results;
    metrics = metrics;
    claim_boundary = claim_boundary;
  })

module _ (sha256 : List ℕ → String) (repr : Json → String) where
  -- `evaluate` behind the reads, with the digest of the scenario file.
  unfoldable pub evaluate_frozen : Fields → Fields → String → Fields → Result EvaluationReport
  unfolding json_eq run_scenario_manifest report_of
  evaluate_frozen protocol manifest digest frozen = do
    raise_if (not (json_eq (get "sha256" frozen) (text digest))) Error.value_error
    results ← run_scenario_manifest sha256 repr manifest
    report_of protocol frozen results

  unfoldable pub evaluate_documents : Fields → Fields → String → Result EvaluationReport
  unfolding json_eq evaluate_frozen
  evaluate_documents protocol manifest digest = do
    raise_if (not (json_eq (get "status" protocol) (text "frozen_unexecuted"))) Error.value_error
    frozen ← frozen_manifest_of (get "scenario_manifest" protocol)
    evaluate_frozen protocol manifest digest frozen

-- A file as its bytes; `loads` reads the JSON dictionary of a file and `hexdigest` is the SHA-256 digest
-- of its bytes.
module _ (sha256 : List ℕ → String) (repr : Json → String) (hexdigest : List ℕ → String)
    (loads : List ℕ → Result Fields) where
  unfoldable pub evaluate : List ℕ → List ℕ → Result EvaluationReport
  unfolding evaluate_documents
  evaluate protocol_file scenario_file = do
    protocol ← loads protocol_file
    manifest ← loads scenario_file
    evaluate_documents sha256 repr protocol manifest (hexdigest scenario_file)
