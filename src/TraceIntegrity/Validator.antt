-- ===== src/TraceIntegrity/Validator.antt =====
-- The checkpoints at the end of `validate_trace`, and the whole of it
-- (src/agent_reliability_lab/trace_integrity.py).
use coding_agent_reliability.Base.{
  ℕ, Bool, true, false, not, Option, none, some, List, [], ◌∷◌, ◌++◌, String, string_eq,
  text_pair_eq, nat_eq, int_eq, ◌==◌, ℤ, pos, ◌+ℤ◌, ltb_ℤ, Result, ok, length, dedup,
  is_unique_increasing,
}
use coding_agent_reliability.Base.Document.{
  Json, int, array, object, Fields, items, get, as_int, json_eq, is_full_text, is_null,
}
use coding_agent_reliability.Base.Errors.{◌>>=◌ as bind}
use coding_agent_reliability.Base.Sorting.{sorted_texts}
use coding_agent_reliability.TraceIntegrity.Progress.{when, is_sha256, TraceScope, TraceProgress}
use coding_agent_reliability.TraceIntegrity.Loop.{handle_records}

-- `not isinstance(value, int) or value < 0`
abbrev pub is_no_count : Option ℤ → Bool
is_no_count none = true
is_no_count (some n) = ltb_ℤ n (pos 0)

abbrev pub is_gap : Json → Option ℤ → Bool
is_gap sequence none = false
is_gap sequence (some previous) = not (json_eq sequence (int (previous +ℤ pos 1)))

abbrev pub is_rollback : Option ℤ → Option ℤ → Bool
is_rollback (some previous) (some completed) = ltb_ℤ completed previous
is_rollback _ _ = false

-- The tests of a checkpoint against the one before.
abbrev pub parent_violations : Option Fields → Fields → List String
parent_violations none c =
    when (not (is_null (get "parent_checkpoint_id" c))) "checkpoint_root_parent_not_null"
    ++ when (not (json_eq (get "checkpoint_sequence" c) (int (pos 0))))
        "checkpoint_root_sequence_not_zero"
parent_violations (some previous) c =
    when (not (json_eq (get "parent_checkpoint_id" c) (get "checkpoint_id" previous)))
      "checkpoint_parent_mismatch"
    ++ (when (is_gap (get "checkpoint_sequence" c) (as_int (get "checkpoint_sequence" previous)))
          "checkpoint_sequence_gap"
        ++ (when (not (json_eq (get "plan_sha256" c) (get "plan_sha256" previous)))
              "checkpoint_plan_drift"
            ++ when
                (is_rollback (as_int (get "completed_count" previous))
                  (as_int (get "completed_count" c)))
                "checkpoint_progress_rollback"))

abbrev pub field_violations : Fields → List String
field_violations c =
    when (not (is_full_text (get "checkpoint_id" c))) "checkpoint_id_invalid"
    ++ (when (is_no_count (as_int (get "checkpoint_sequence" c))) "checkpoint_sequence_invalid"
        ++ (when (is_no_count (as_int (get "completed_count" c)))
              "checkpoint_completed_count_invalid"
            ++ when (not (is_sha256 (get "plan_sha256" c))) "checkpoint_plan_sha256_invalid"))

-- The loop over the checkpoints, behind the previous one.
unfoldable pub checkpoint_violations : Option Fields → List Fields → List String
checkpoint_violations previous [] = []
checkpoint_violations previous (c ∷ cs) =
    field_violations c ++ (parent_violations previous c ++ checkpoint_violations (some c) cs)

-- The violations of a scope.
unfoldable pub scope_violations : TraceScope → List String
scope_violations scope =
    when (not (is_full_text scope.run_id)) "scope_run_id_invalid"
    ++ (when (not (is_full_text scope.turn_id)) "scope_turn_id_invalid"
        ++ (when (not (is_full_text scope.provider)) "scope_provider_invalid"
            ++ when (not (is_full_text scope.operation_id)) "scope_operation_id_invalid"))

abbrev pub initial_progress : TraceScope → TraceProgress
initial_progress scope = record {
  violations = scope_violations scope;
  sequences = [];
  record_ids = [];
  event_ids = [];
  binding = none;
  approved_sequence = none;
  denied_sequence = none;
  expected_effect = none;
  checkpoints = [];
  evidence_by_id = [];
  evidence_history = [];
  completion_count = 0;
}

-- All violations, when the loop over the records is done.
unfoldable pub final_violations : TraceProgress → List String
unfolding checkpoint_violations is_unique_increasing dedup
final_violations s =
    s.violations
    ++ (when (not (is_unique_increasing s.sequences)) "record_sequence_not_strictly_increasing"
        ++ (when (not (length s.record_ids == length (dedup s.record_ids))) "record_id_duplicate"
            ++ checkpoint_violations none s.checkpoints))

abbrev pub scope_of : Fields → TraceScope
scope_of scope = record {
  run_id = get "run_id" scope;
  turn_id = get "turn_id" scope;
  provider = get "provider" scope;
  operation_id = get "operation_id" scope;
}

module _ (sha256 : List ℕ → String) where
  -- `validate_trace` by the two values that it takes from the trace.
  unfoldable pub validate_records : Json → Json → Result (List String)
  validate_records (object scope) (array records) =
      bind
        (handle_records sha256 (scope_of scope) 0 (items records)
          (initial_progress (scope_of scope)))
        λ s. ok (sorted_texts (dedup (final_violations s)))
  validate_records (object scope) _ = ok ("records_missing_or_invalid" ∷ [])
  validate_records _ records = ok ("scope_missing_or_invalid" ∷ [])

  unfoldable pub validate_trace : Fields → Result (List String)
  unfolding validate_records
  validate_trace trace = validate_records (get "scope" trace) (get "records" trace)
