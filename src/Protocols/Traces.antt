-- ===== src/Protocols/Traces.antt =====
-- `validate` of evals/trace_integrity_v1/verify_protocol.py. The text of an exception is left out of
-- the message that holds it.
use coding_agent_reliability.Base.{
  Bool, true, false, not, ◌&&◌, Option, none, some, List, [], ◌∷◌, ◌++◌, String, string_eq,
  texts_eq, nat_eq, ◌==◌, pos, if◌then◌else◌, contains, Result, ok, err, Error,
}
use coding_agent_reliability.Base.Errors.{◌>>=◌}
use coding_agent_reliability.Base.Messages.{unless, gather}
use coding_agent_reliability.Base.Document.{
  Json, bool, int, text, array, object, Fields, end, field, items, get, find, json_eq, member,
}
use coding_agent_reliability.Evaluation.Manifest.{str_of}
use coding_agent_reliability.TraceIntegrity.Mutation.{apply_mutation}
use coding_agent_reliability.TraceIntegrity.Corpus.{hashed, index_traces, find_trace}
use coding_agent_reliability.Protocols.{
  compare_values, texts_under, execution_controls, result_boundary, equal_gate,
}
use Prim.Native.String.{◌++◌ as joined}

abbrev pub expected_detector_sha256 : String
expected_detector_sha256 = "d481d451106dbcf3f7fad7e89ce5aed12bdded26c179553150092524af0cd0e7"

abbrev pub expected_schema_sha256 : String
expected_schema_sha256 = "2d1281fc3c16dacca9eb2136c090417adeea160531b812e340a8a3fc6065a7cc"

abbrev pub expected_baselines_sha256 : String
expected_baselines_sha256 = "9b2b62d25d849be3123c3b0212351e89c2876dbd8e861675a2a084e666f9c4c5"

abbrev pub expected_mutations_sha256 : String
expected_mutations_sha256 = "ef4f7eb8bdc8170afe15eb6ae4bf59c5bd677477dde1c0d8e398ee8aeb448af2"

abbrev pub expected_baseline_ids : List String
expected_baseline_ids =
    "retry_then_reconcile" ∷ "retry_authority_pending" ∷ "parent_turn_terminal" ∷ []

abbrev pub expected_mutation_ids : List String
expected_mutation_ids =
    "event_run_scope_graft" ∷ "event_turn_scope_graft" ∷ "event_id_collision"
    ∷ "record_sequence_collision" ∷ "approval_operation_swap" ∷ "effect_payload_hash_drift"
    ∷ "effect_fingerprint_drift" ∷ "checkpoint_parent_rewind" ∷ "checkpoint_sequence_gap"
    ∷ "checkpoint_plan_hash_drift" ∷ "provider_revision_rollback"
    ∷ "provider_same_revision_conflict" ∷ "completion_stale_evidence" ∷ "completion_revision_drift"
    ∷ "completion_effect_drift" ∷ []

abbrev pub expected_categories : List String
expected_categories =
    "event_identity" ∷ "trace_order" ∷ "approval_effect_binding" ∷ "checkpoint_lineage"
    ∷ "provider_revision" ∷ "reconciliation_completion" ∷ []

abbrev pub expected_gates : Json
expected_gates = object (
    field "clean_trace_accept_rate" (equal_gate 1) (
      field "mutation_detection_rate" (equal_gate 1) (
        field "false_positive_count" (equal_gate 0) (
          field "false_negative_count" (equal_gate 0)
            (field "detector_error_count" (equal_gate 0) end)))))

abbrev pub expected_claim_boundary : Json
expected_claim_boundary = object (
    field "production_trace_integrity_claim_allowed" (bool false) (
      field "production_reliability_claim_allowed" (bool false) (
        field "exactly_once_claim_allowed" (bool false) (
          field "distributed_consensus_claim_allowed" (bool false) (
            field "real_provider_claim_allowed" (bool false) (
              field "aggregate_detection_claim_allowed_before_two_reproducing_runs" (bool false)
                end))))))

abbrev pub protocol_values : List (String × Json × String)
protocol_values =
    (
      "schema_version",
      text "carl.trace-integrity-evaluation-protocol.v1",
      "protocol schema_version mismatch",
    )
    ∷ ("protocol_id", text "trace-integrity-v1-20260913", "protocol_id mismatch")
    ∷ (
      "status",
      text "frozen_unexecuted",
      "protocol must remain frozen_unexecuted at the freeze boundary",
    )
    ∷ ("detection_gates", expected_gates, "detection gates differ from the frozen definition")
    ∷ (
      "claim_boundary", expected_claim_boundary,
      "claim boundary differs from the frozen definition",
    )
    ∷ (
      "execution",
      execution_controls "evals/trace_integrity_v1/artifacts/run-{run}.json",
      "execution controls differ from the frozen definition",
    )
    ∷ (
      "result_artifact",
      result_boundary "evals/trace_integrity_v1/RESULTS.json",
      "result artifact boundary differs from the frozen definition",
    )
    ∷ []

abbrev pub expected_artifacts : Json
expected_artifacts = object (
    field "trace_schema"
      (object (
        field "path" (text "evals/trace_integrity_v1/TRACE_SCHEMA.json")
          (field "sha256" (text expected_schema_sha256) end)))
      (field "baseline_traces"
        (object (
          field "path" (text "evals/trace_integrity_v1/BASELINE_TRACES.json") (
            field "sha256" (text expected_baselines_sha256)
              (field "trace_count" (int (pos 3)) end))))
        (field "mutation_corpus"
          (object (
            field "path" (text "evals/trace_integrity_v1/MUTATIONS.json") (
              field "sha256" (text expected_mutations_sha256)
                (field "mutation_count" (int (pos 15)) end))))
          end)))

abbrev pub identity_values : List (String × Json × String)
identity_values =
    (
      "detector",
      object (
          field "callable" (text "agent_reliability_lab.trace_integrity:evaluate_trace_corpus") (
            field "source_path" (text "src/agent_reliability_lab/trace_integrity.py")
              (field "sha256" (text expected_detector_sha256) end))),
      "detector identity differs from the frozen definition",
    )
    ∷ ("artifacts", expected_artifacts, "artifact identities differ from the frozen definition")
    ∷ []

abbrev pub expected_kinds : List String
expected_kinds =
    "runtime_event" ∷ "approval" ∷ "effect" ∷ "checkpoint" ∷ "provider_evidence"
    ∷ "reconciliation_completion" ∷ []

keys_of : Fields → List String
keys_of end = []
keys_of (field key v fs) = key ∷ keys_of fs

all_in : List String → List String → Bool
all_in texts [] = true
all_in texts (x ∷ xs) = contains x texts && all_in texts xs

-- `isinstance(record_kinds, dict) and set(record_kinds) == expected_kinds`
unfoldable pub has_kinds : Json → Bool
unfolding all_in keys_of contains
has_kinds (object kinds) =
    all_in expected_kinds (keys_of kinds) && all_in (keys_of kinds) expected_kinds
has_kinds _ = false

-- `traces` and `items`, which are empty where they are no lists.
abbrev pub listed : Json → List Json
listed (array values) = items values
listed _ = []

abbrev pub is_array : Json → Bool
is_array (array values) = true
is_array _ = false

-- `dict.fromkeys(texts)`
unfoldable pub unique_onto : List String → List String → List String
unfolding contains
unique_onto seen [] = seen
unique_onto seen (x ∷ xs) = unique_onto (if contains x seen then seen else seen ++ x ∷ []) xs

-- The entries of `by_id`.
abbrev pub identified :
    Option Json → Fields → Result (List (Json × Fields)) → Result (List (Json × Fields))
identified none trace rest = rest
identified (some id) trace rest =
    hashed id >>= λ key. rest >>= λ entries. ok ((key, trace) ∷ entries)

unfoldable pub baseline_entries : List Json → Result (List (Json × Fields))
unfolding hashed find
baseline_entries [] = ok []
baseline_entries (object trace ∷ traces) =
    identified (find "trace_id" trace) trace (baseline_entries traces)
baseline_entries (_ ∷ traces) = baseline_entries traces

-- `by_id.get(key)`
abbrev pub found_or_none : Result Fields → Option Fields
found_or_none (ok trace) = some trace
found_or_none (err _) = none

-- What the handler of `apply_mutation` catches.
abbrev pub is_caught : Error → Bool
is_caught Error.key_error = true
is_caught Error.type_error = true
is_caught Error.value_error = true
is_caught Error.index_error = true
is_caught _ = false

module _ (repr : Json → String) where
  abbrev pub item_message : String → Fields → List String
  item_message fault item = joined fault (joined ": " (str_of repr (get "id" item))) ∷ []

  abbrev pub applied_errors : Fields → Fields → Result Fields → Result (List String)
  applied_errors item base (ok mutated) = ok (
      if json_eq (object mutated) (object base)
      then item_message "mutation produced no structural change" item
      else [])
  applied_errors item base (err error) =
      if is_caught error
      then ok (item_message "mutation cannot be applied deterministically" item)
      else err error

  abbrev pub base_errors : Fields → Option Fields → Result (List String)
  base_errors item none = ok (item_message "mutation references unknown baseline" item)
  base_errors item (some base) = applied_errors item base (apply_mutation base item)

  -- The body of the loop over the mutations, for a dictionary.
  unfoldable pub item_errors : List (Json × Fields) → Fields → Result (List String)
  unfolding json_eq apply_mutation find_trace index_traces hashed
  item_errors entries item =
      member ("replace" ∷ "remove" ∷ []) (get "operator" item) >>= λ supported.
      if not supported
      then ok (item_message "unsupported mutation operator" item)
      else (hashed (get "base_trace_id" item) >>= λ key.
          base_errors item (found_or_none (find_trace key (index_traces entries))))

  unfoldable pub mutation_errors : List (Json × Fields) → List Json → Result (List String)
  unfolding item_errors
  mutation_errors entries [] = ok []
  mutation_errors entries (object item ∷ values) = item_errors entries item >>= λ errors.
      mutation_errors entries values >>= λ others. ok (errors ++ others)
  mutation_errors entries (_ ∷ values) =
      mutation_errors entries values >>= λ others. ok ("mutation entry must be an object" ∷ others)

  -- What `validate` appends before the loop over the mutations.
  unfoldable pub document_errors : Fields → Fields → Fields → Fields → Bool → List String
  document_errors protocol schema baselines mutations results_exist = gather (
      (compare_values protocol protocol_values)
      ∷ (unless (not results_exist) "RESULTS.json must not exist at the freeze boundary")
      ∷ (compare_values protocol identity_values)
      ∷ (compare_values schema (
          ("schema_version", text "carl.trace-integrity-schema.v1", "trace schema_version mismatch")
          ∷ []))
      ∷ (unless (has_kinds (get "record_kinds" schema))
          "trace schema record kinds differ from the frozen definition")
      ∷ (compare_values baselines (
          (
            "schema_version",
            text "carl.trace-integrity-baselines.v1",
            "baseline schema_version mismatch",
          )
          ∷ []))
      ∷ (unless (is_array (get "traces" baselines)) "baseline traces must be a list")
      ∷ (unless
          (texts_under repr "trace_id" (listed (get "traces" baselines)) == expected_baseline_ids)
          "baseline ids/order differ from the frozen definition")
      ∷ (compare_values mutations (
          (
            "schema_version",
            text "carl.trace-integrity-mutations.v1",
            "mutation schema_version mismatch",
          )
          ∷ []))
      ∷ (unless (is_array (get "mutations" mutations)) "mutations must be a list")
      ∷ (unless
          (texts_under repr "id" (listed (get "mutations" mutations)) == expected_mutation_ids)
          "mutation ids/order differ from the frozen definition")
      ∷ (unless
          (unique_onto [] (texts_under repr "category" (listed (get "mutations" mutations)))
            == expected_categories)
          "mutation categories/order differ from the frozen definition")
      ∷ [])

  -- `validate`; `results_exist` says whether RESULTS.json is there.
  unfoldable pub validate : Fields → Fields → Fields → Fields → Bool → Result (List String)
  unfolding document_errors baseline_entries mutation_errors
  validate protocol schema baselines mutations results_exist =
      baseline_entries (listed (get "traces" baselines)) >>= λ entries.
      mutation_errors entries (listed (get "mutations" mutations)) >>= λ others.
      ok (document_errors protocol schema baselines mutations results_exist ++ others)
