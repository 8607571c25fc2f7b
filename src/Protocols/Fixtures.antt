-- ===== src/Protocols/Fixtures.antt =====
-- `validate` of evals/reliability_v1/verify_protocol.py.
use coding_agent_reliability.Base.{
  Bool, false, not, List, [], ◌∷◌, String, texts_eq, nat_eq, ◌==◌, pos, length,
}
use coding_agent_reliability.Base.Messages.{unless, gather}
use coding_agent_reliability.Base.Document.{
  Json, bool, int, text, array, object, Fields, end, field, items, get,
}
use coding_agent_reliability.Protocols.{
  compare_values, texts_under, execution_controls, result_boundary, equal_gate,
}

abbrev pub expected_scenario_sha256 : String
expected_scenario_sha256 = "5ca2ab5cd388037d056420e678004dd9909e479c11b84fbd6424b7a7d06c9044"

abbrev pub expected_scenario_ids : List String
expected_scenario_ids =
    "stale_child_completion_scoped" ∷ "lost_ack_retry_idempotency"
    ∷ "terminal_conflict_fails_closed" ∷ "approval_mutation_fails_closed"
    ∷ "durable_restart_exact_replay" ∷ "stale_checkpoint_lineage_fails_closed"
    ∷ "provider_present_suppresses_retry" ∷ "stale_readback_revision_fails_closed"
    ∷ "restart_evidence_supersedes_retry" ∷ "repeated_lost_ack_converges"
    ∷ "competing_retry_authorities_converge" ∷ []

abbrev pub expected_metrics : Json
expected_metrics = object (
    field "scenario_pass_rate" (equal_gate 1) (
      field "safety_pass_rate" (equal_gate 1) (
        field "convergence_pass_rate" (equal_gate 1) (
          field "fail_closed_pass_rate" (equal_gate 1)
            (field "duplicate_effect_violations" (equal_gate 0) end)))))

abbrev pub expected_claim_boundary : Json
expected_claim_boundary = object (
    field "production_reliability_claim_allowed" (bool false) (
      field "exactly_once_claim_allowed" (bool false) (
        field "distributed_consensus_claim_allowed" (bool false) (
          field "model_quality_claim_allowed" (bool false) (
            field "throughput_or_latency_claim_allowed" (bool false) (
              field "aggregate_score_claim_allowed_before_two_reproducing_runs" (bool false)
                end))))))

abbrev pub protocol_values : List (String × Json × String)
protocol_values =
    (
      "schema_version",
      text "carl.reliability-evaluation-protocol.v1",
      "protocol schema_version mismatch",
    )
    ∷ ("protocol_id", text "core-reliability-v1-20260911", "protocol_id mismatch")
    ∷ (
      "status",
      text "frozen_unexecuted",
      "protocol must remain frozen_unexecuted at the freeze boundary",
    )
    ∷ []

abbrev pub manifest_values : List (String × Json × String)
manifest_values =
    ("path", text "evals/reliability_v1/SCENARIOS.json", "scenario manifest path mismatch")
    ∷ ("sha256", text expected_scenario_sha256, "scenario manifest SHA-256 mismatch")
    ∷ ("scenario_count", int (pos (length expected_scenario_ids)), "scenario_count mismatch")
    ∷ []

unfoldable pub manifest_errors : Json → List String
unfolding compare_values
manifest_errors (object manifest) = compare_values manifest manifest_values
manifest_errors _ = "scenario_manifest must be an object" ∷ []

abbrev pub control_values : List (String × Json × String)
control_values =
    (
      "execution",
      execution_controls "evals/reliability_v1/artifacts/run-{run}.json",
      "execution controls differ from the frozen definition",
    )
    ∷ ("metrics", expected_metrics, "aggregate metric gates differ from the frozen definition")
    ∷ (
      "claim_boundary", expected_claim_boundary,
      "claim boundary differs from the frozen definition",
    )
    ∷ (
      "result_artifact",
      result_boundary "evals/reliability_v1/RESULTS.json",
      "result artifact boundary differs from the frozen definition",
    )
    ∷ []

abbrev pub scenario_values : List (String × Json × String)
scenario_values =
    ("schema_version", text "carl.reliability-scenarios.v1", "scenario schema_version mismatch")
    ∷ ("fixture_set", text "core-reliability-boundaries-20260911", "fixture_set mismatch")
    ∷ []

unfoldable pub fixture_errors : (Json → String) → Json → List String
fixture_errors repr (array scenarios) = gather (
    unless (texts_under repr "id" (items scenarios) == expected_scenario_ids)
      "scenario ids/order differ from the frozen definition"
    ∷ unless (texts_under repr "runner" (items scenarios) == expected_scenario_ids)
        "scenario runner ids/order differ from the frozen definition"
    ∷ unless (length (items scenarios) == length expected_scenario_ids)
        "scenario fixture count mismatch"
    ∷ [])
fixture_errors repr _ = "scenarios must be a list" ∷ []

-- `validate`; `results_exist` says whether RESULTS.json is there.
unfoldable pub validate : (Json → String) → Fields → Fields → Bool → List String
validate repr protocol scenarios results_exist = gather (
    compare_values protocol protocol_values
    ∷ manifest_errors (get "scenario_manifest" protocol)
    ∷ compare_values protocol control_values
    ∷ unless (not results_exist) "RESULTS.json must not exist at the freeze boundary"
    ∷ compare_values scenarios scenario_values
    ∷ fixture_errors repr (get "scenarios" scenarios)
    ∷ [])
