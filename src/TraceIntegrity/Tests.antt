-- ===== src/TraceIntegrity/Tests.antt =====
-- A trace with an approval, its effect, evidence and a completion, as the clean baselines of
-- evals/trace_integrity_v1 have it, and the theorems there.
use coding_agent_reliability.Base.{
  ℕ, ◌≡◌, refl, true, List, [], ◌∷◌, String, String-discrete, ℤ-discrete, text_pair_discrete,
  int_list_discrete, ℤ, pos, ◌+ℤ◌, ok, contains, lookup, insert, dedup, is_unique_increasing,
}
use coding_agent_reliability.Base.Document.{
  Json, null, int, text, array, object, Items, nil, cons, Fields, end, field, find, get, json_eq,
}
use coding_agent_reliability.Base.Numeral.{int_of_text}
use coding_agent_reliability.Base.Sorting.{sorted_texts, insert_text}
use coding_agent_reliability.TraceIntegrity.Progress.{is_sha256, note_identity}
use coding_agent_reliability.TraceIntegrity.Handlers.{
  handle_checkpoint, handle_approval, handle_effect, handle_evidence, handle_completion,
  max_revision,
}
use coding_agent_reliability.TraceIntegrity.Loop.{
  bind_operation, handle_operation, handle_kind, handle_record, handle_records,
}
use coding_agent_reliability.TraceIntegrity.Validator.{
  checkpoint_violations, scope_violations, final_violations, validate_records, validate_trace,
}
use coding_agent_reliability.TraceIntegrity.Records.{IsEarlier, records_are_ordered}
use coding_agent_reliability.TraceIntegrity.Checkpoints.{
  Linear, checkpoints_of, checkpoints_are-Linear,
}
use coding_agent_reliability.TraceIntegrity.Completions.{ProvedCompletion, completions_are_proved}
use coding_agent_reliability.TraceIntegrity.Approved.{ApprovedEffect, effects_are_approved}

abbrev pub payload_digest : String
payload_digest = "9f86d081884c7d659a2feaa0c55ad015a3bf4f1b2b0b822cd15d6c15b0f00a08"

-- A digest of the tests' own.
abbrev pub digest : List ℕ → String
digest codes = "d"

abbrev pub run_scope : Fields
run_scope = field "run_id" (text "run-1") (
    field "turn_id" (text "turn-1")
      (field "provider" (text "provider-a") (field "operation_id" (text "op-1") end)))

abbrev pub operation_record : String → ℤ → String → Fields → Fields
operation_record kind sequence record_id more = field "kind" (text kind) (
    field "sequence" (int sequence) (
      field "record_id" (text record_id) (
        field "provider" (text "provider-a")
          (field "operation_id" (text "op-1") (field "effect_sha256" (text "d") more)))))

abbrev pub tool_of : Fields → Fields
tool_of more = field "tool" (text "create") (field "payload_sha256" (text payload_digest) more)

abbrev pub approval : Fields
approval =
    operation_record "approval" (pos 1) "r1" (tool_of (field "decision" (text "approved") end))

abbrev pub effect : Fields
effect = operation_record "effect" (pos 2) "r2" (tool_of end)

abbrev pub evidence : Fields
evidence = operation_record "provider_evidence" (pos 3) "r3" (
    field "evidence_id" (text "e1")
      (field "revision" (int (pos 4)) (field "readback" (text "present") end)))

abbrev pub completion : Fields
completion =
    operation_record "reconciliation_completion" (pos 4) "r4"
      (field "evidence_id" (text "e1") (field "revision" (int (pos 4)) end))

abbrev pub trace_of : Items → Fields
trace_of records = field "scope" (object run_scope) (field "records" (array records) end)

abbrev pub all_records : Items
all_records =
    cons (object approval)
      (cons (object effect) (cons (object evidence) (cons (object completion) nil)))

abbrev pub clean_trace : Fields
clean_trace = trace_of all_records

payload_is_digest : is_sha256 (text payload_digest) ≡ true
unfolding is_sha256 int_of_text
payload_is_digest = refl

clean_trace_accepted : validate_trace digest clean_trace ≡ ok []
unfolding validate_trace validate_records handle_records handle_record handle_kind handle_operation
    handle_approval handle_effect handle_evidence handle_completion bind_operation note_identity
    is_sha256 int_of_text json_eq get find contains sorted_texts insert_text dedup
    checkpoint_violations scope_violations final_violations max_revision lookup insert
    is_unique_increasing String-discrete ℤ-discrete text_pair_discrete int_list_discrete
clean_trace_accepted = refl

effects_are_approved_example : ApprovedEffect digest "provider-a" "op-1" (approval ∷ []) effect
unfolding get find json_eq String-discrete
effects_are_approved_example =
    effects_are_approved digest clean_trace run_scope all_records "provider-a" "op-1"
      (approval ∷ []) (evidence ∷ completion ∷ []) effect clean_trace_accepted refl refl refl refl
      refl refl

completions_are_proved_example : ProvedCompletion (approval ∷ effect ∷ evidence ∷ []) [] completion
unfolding get find json_eq String-discrete
completions_are_proved_example =
    completions_are_proved digest clean_trace all_records (approval ∷ effect ∷ evidence ∷ []) []
      completion clean_trace_accepted refl refl refl

records_are_ordered_example : IsEarlier effect completion
unfolding get find String-discrete
records_are_ordered_example =
    records_are_ordered digest clean_trace all_records (approval ∷ []) (evidence ∷ []) [] effect
      completion clean_trace_accepted refl refl

abbrev pub checkpoint : ℤ → String → String → Json → ℤ → Fields
checkpoint sequence record_id id parent number = field "kind" (text "checkpoint") (
    field "sequence" (int sequence) (
      field "record_id" (text record_id) (
        field "run_id" (text "run-1") (
          field "checkpoint_id" (text id) (
            field "parent_checkpoint_id" parent (
              field "checkpoint_sequence" (int number) (
                field "completed_count" (int number)
                  (field "plan_sha256" (text payload_digest) end))))))))

abbrev pub root : Fields
root = checkpoint (pos 1) "r1" "c0" null (pos 0)

abbrev pub child : Fields
child = checkpoint (pos 2) "r2" "c1" (text "c0") (pos 1)

abbrev pub two_checkpoints : Items
two_checkpoints = cons (object root) (cons (object child) nil)

two_checkpoints_accepted : validate_trace digest (trace_of two_checkpoints) ≡ ok []
unfolding validate_trace validate_records handle_records handle_record handle_kind handle_checkpoint
    note_identity is_sha256 int_of_text json_eq get find contains sorted_texts insert_text dedup
    checkpoint_violations scope_violations final_violations is_unique_increasing String-discrete
    ℤ-discrete int_list_discrete ◌+ℤ◌
two_checkpoints_accepted = refl

checkpoints_are-Linear_example :
    (plan : String) × Linear 0 plan null (pos 0) (checkpoints_of (root ∷ child ∷ []))
unfolding get find String-discrete
checkpoints_are-Linear_example =
    checkpoints_are-Linear digest (trace_of two_checkpoints) two_checkpoints (root ∷ child ∷ [])
      two_checkpoints_accepted refl refl

-- `int` takes more than the digits of a digest.
prefix_passes :
    is_sha256 (text "0x81884c7d659a2feaa0c55ad015a3bf4f1b2b0b822cd15d6c15b0f00a08abcd") ≡ true
unfolding is_sha256 int_of_text String-discrete
prefix_passes = refl
