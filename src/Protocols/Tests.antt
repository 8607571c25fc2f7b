-- ===== src/Protocols/Tests.antt =====
-- The frozen protocols pass their verifiers, on small repositories and corpora.
use coding_agent_reliability.Base.{
  ◌&&◌, ◌≡◌, refl, true, false, List, [], ◌∷◌, String, ok, pos, String-discrete, ℤ-discrete,
  ℕ_discrete, texts_discrete,
}
use coding_agent_reliability.Base.Messages.{unless, gather}
use coding_agent_reliability.Base.Document.{
  Json, null, int, text, array, object, Items, nil, cons, Fields, end, field, get, find, items,
  json_eq,
}
use coding_agent_reliability.Base.Errors.{map_ok}
use coding_agent_reliability.ReleaseGate.{is_empty, Repository, malformed}
use coding_agent_reliability.ReleaseGate.Release.{source_objects}
use coding_agent_reliability.Protocols.Sources.{verify_source_identities}
use coding_agent_reliability.Protocols.Identities.{
  identities_pass, all_objects, verify_source_identities_agree,
}
use coding_agent_reliability.Protocols.Traces
use coding_agent_reliability.Protocols.Traces.{
  document_errors, baseline_entries, mutation_errors, item_errors, has_kinds, unique_onto,
  expected_gates, expected_artifacts, expected_detector_sha256,
}
use coding_agent_reliability.Protocols.Mutations.{IsFrozenCorpus, validate-IsFrozenCorpus}
use coding_agent_reliability.Protocols.{
  compare_values, texts_under, execution_controls, result_boundary,
}
use coding_agent_reliability.Protocols.Fixtures
use coding_agent_reliability.Protocols.Fixtures.{
  manifest_errors, fixture_errors, expected_scenario_ids, expected_scenario_sha256,
  expected_metrics,
}
use coding_agent_reliability.Protocols.Runners.{AllRunAs, validate-AllRunAs}

-- The tests' own `repr`.
abbrev repr : Json → String
repr v = "None"

abbrev fixtures_of : List String → Items
fixtures_of [] = nil
fixtures_of (id ∷ ids) =
    cons (object (field "id" (text id) (field "runner" (text id) end))) (fixtures_of ids)

abbrev scenarios : Fields
scenarios = field "schema_version" (text "carl.reliability-scenarios.v1") (
    field "fixture_set" (text "core-reliability-boundaries-20260911")
      (field "scenarios" (array (fixtures_of expected_scenario_ids)) end))

abbrev protocol : Fields
protocol = field "schema_version" (text "carl.reliability-evaluation-protocol.v1") (
    field "protocol_id" (text "core-reliability-v1-20260911") (
      field "status" (text "frozen_unexecuted") (
        field "scenario_manifest"
          (object (
            field "path" (text "evals/reliability_v1/SCENARIOS.json") (
              field "sha256" (text expected_scenario_sha256)
                (field "scenario_count" (int (pos 11)) end))))
          (field "execution" (execution_controls "evals/reliability_v1/artifacts/run-{run}.json") (
            field "metrics" expected_metrics (
              field "claim_boundary" Fixtures.expected_claim_boundary (
                field "result_artifact" (result_boundary "evals/reliability_v1/RESULTS.json")
                  end)))))))

frozen_protocol_passes : Fixtures.validate repr protocol scenarios false ≡ []
unfolding Fixtures.validate gather compare_values manifest_errors fixture_errors texts_under unless
    json_eq get String-discrete ℤ-discrete ℕ_discrete texts_discrete
frozen_protocol_passes = refl

validate-AllRunAs_example :
    (vs : Items) × (get "scenarios" scenarios ≡ array vs)
    × AllRunAs repr refl (λ bytes. "d") (items vs) expected_scenario_ids
validate-AllRunAs_example =
    validate-AllRunAs repr refl (λ bytes. "d") protocol scenarios false frozen_protocol_passes

abbrev source : Fields
source = field "freeze_commit_sha" (text "c0") (
    field "protocol_path" (text "p") (
      field "protocol_sha256" (text "d") (
        field "result_commit_sha" (text "c1") (
          field "result_path" (text "r") (
            field "result_sha256" (text "d") (
              field "result_verifier_path" (text "v")
                (field "result_verifier_sha256" (text "d") end)))))))

abbrev evidence : Fields
evidence = field "sources" (array (cons (object source) nil)) end

-- A repository whose files and blobs have the one digest.
abbrev repository : Repository
repository = record {
  is_file = λ path. true;
  read_bytes = λ path. ok [];
  hexdigest = λ bytes. "d";
  loads = λ bytes. malformed;
  git_show = λ argument. ok (pos 0, []);
  run_verifier = λ path. ok (pos 0);
}

verify_source_identities_agree_example :
    map_ok is_empty (verify_source_identities repository repr evidence)
    ≡ map_ok
        (λ passes. all_objects (object source ∷ []) && passes)
        (identities_pass repository (source ∷ []))
unfolding get String-discrete source_objects
verify_source_identities_agree_example =
    verify_source_identities_agree repository repr evidence (cons (object source) nil) refl

evidence_verifies : verify_source_identities repository repr evidence ≡ ok []
unfolding verify_source_identities get find String-discrete unless ℤ-discrete
evidence_verifies = refl

abbrev trace : String → Json
trace id = object (field "trace_id" (text id) (field "level" (int (pos 0)) end))

abbrev baselines : Fields
baselines = field "schema_version" (text "carl.trace-integrity-baselines.v1") (
    field "traces"
      (array (
        cons (trace "retry_then_reconcile")
          (cons (trace "retry_authority_pending") (cons (trace "parent_turn_terminal") nil))))
      end)

-- Each mutation sets the level of the first trace.
abbrev mutation : String → String → Json
mutation category id = object (
    field "id" (text id) (
      field "category" (text category) (
        field "base_trace_id" (text "retry_then_reconcile") (
          field "operator" (text "replace")
            (field "path" (text "/level") (field "value" (int (pos 1)) end))))))

abbrev corpus : Items
corpus = cons (mutation "event_identity" "event_run_scope_graft") (
    cons (mutation "event_identity" "event_turn_scope_graft") (
      cons (mutation "event_identity" "event_id_collision") (
        cons (mutation "trace_order" "record_sequence_collision") (
          cons (mutation "approval_effect_binding" "approval_operation_swap") (
            cons (mutation "approval_effect_binding" "effect_payload_hash_drift") (
              cons (mutation "approval_effect_binding" "effect_fingerprint_drift") (
                cons (mutation "checkpoint_lineage" "checkpoint_parent_rewind") (
                  cons (mutation "checkpoint_lineage" "checkpoint_sequence_gap") (
                    cons (mutation "checkpoint_lineage" "checkpoint_plan_hash_drift") (
                      cons (mutation "provider_revision" "provider_revision_rollback") (
                        cons (mutation "provider_revision" "provider_same_revision_conflict") (
                          cons (mutation "reconciliation_completion" "completion_stale_evidence") (
                            cons (mutation "reconciliation_completion" "completion_revision_drift")
                              (cons (mutation "reconciliation_completion" "completion_effect_drift")
                                nil))))))))))))))

abbrev mutations : Fields
mutations =
    field "schema_version" (text "carl.trace-integrity-mutations.v1")
      (field "mutations" (array corpus) end)

abbrev kinds : Fields
kinds = field "runtime_event" null (
    field "approval" null (
      field "effect" null (
        field "checkpoint" null
          (field "provider_evidence" null (field "reconciliation_completion" null end)))))

abbrev schema : Fields
schema =
    field "schema_version" (text "carl.trace-integrity-schema.v1")
      (field "record_kinds" (object kinds) end)

abbrev trace_protocol : Fields
trace_protocol = field "schema_version" (text "carl.trace-integrity-evaluation-protocol.v1") (
    field "protocol_id" (text "trace-integrity-v1-20260913") (
      field "status" (text "frozen_unexecuted") (
        field "detection_gates" expected_gates (
          field "claim_boundary" Traces.expected_claim_boundary (
            field "execution"
              (execution_controls "evals/trace_integrity_v1/artifacts/run-{run}.json")
              (field "result_artifact" (result_boundary "evals/trace_integrity_v1/RESULTS.json") (
                field "detector"
                  (object (
                    field "callable"
                      (text "agent_reliability_lab.trace_integrity:evaluate_trace_corpus")
                      (field "source_path" (text "src/agent_reliability_lab/trace_integrity.py")
                        (field "sha256" (text expected_detector_sha256) end))))
                  (field "artifacts" expected_artifacts end))))))))

trace_protocol_passes : Traces.validate repr trace_protocol schema baselines mutations false ≡ ok []
unfolding Traces.validate document_errors gather compare_values texts_under has_kinds unique_onto
    unless json_eq get find String-discrete ℤ-discrete ℕ_discrete texts_discrete
trace_protocol_passes = refl

validate-IsFrozenCorpus_example : IsFrozenCorpus repr baselines mutations
validate-IsFrozenCorpus_example =
    validate-IsFrozenCorpus repr trace_protocol schema baselines mutations false
      trace_protocol_passes
