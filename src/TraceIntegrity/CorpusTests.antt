-- ===== src/TraceIntegrity/CorpusTests.antt =====
-- A corpus of one clean trace and two mutations of it, and the theorems there.
use coding_agent_reliability.Base.{
  ◌≡◌, ◌↔◌, inr, refl, true, some, List, [], ◌∷◌, String, String-discrete, ℤ-discrete,
  text_pair_discrete, int_list_discrete, pos, ok, contains, lookup, insert, dedup,
  is_unique_increasing, traverse, All, ℕ_discrete,
}
use coding_agent_reliability.Base.Document.{
  Json, int, text, array, object, nil, cons, Fields, end, field, find, get, json_eq,
}
use coding_agent_reliability.Base.Numeral.{int_of_text}
use coding_agent_reliability.Base.Sorting.{sorted_texts, insert_text}
use coding_agent_reliability.TraceIntegrity.Tests.{
  digest, approval, evidence, completion, trace_of, all_records, tool_of,
}
use coding_agent_reliability.TraceIntegrity.Pointer.{pointer_tokens}
use coding_agent_reliability.TraceIntegrity.Mutation.{apply_mutation}
use coding_agent_reliability.TraceIntegrity.Readback.{read_at, read_at-apply_mutation}
use coding_agent_reliability.TraceIntegrity.Frame.{IsBeside, removes_child, apply_mutation-IsBeside}
use coding_agent_reliability.TraceIntegrity.Corpus.{
  CorpusReport, trace_entry, evaluate_trace_corpus,
}
use coding_agent_reliability.TraceIntegrity.Scores.{IsAcceptedTrace, IsDetected, scores_are_exact}
use coding_agent_reliability.TraceIntegrity.Handlers.{
  handle_approval, handle_effect, handle_evidence, handle_completion, max_revision,
}
use coding_agent_reliability.TraceIntegrity.Loop.{
  bind_operation, handle_operation, handle_kind, handle_record, handle_records,
}
use coding_agent_reliability.TraceIntegrity.Progress.{is_sha256, note_identity}
use coding_agent_reliability.TraceIntegrity.Validator.{
  checkpoint_violations, scope_violations, final_violations,
}
use coding_agent_reliability.TraceIntegrity.Tokens.{pointer_of, pointer_tokens-pointer_of}

abbrev replacement : Fields
replacement = field "base_trace_id" (text "t1") (
    field "id" (text "m1") (
      field "operator" (text "replace")
        (field "path" (text "/records/1/effect_sha256") (field "value" (text "other") end))))

abbrev other_effect : Fields
other_effect = field "kind" (text "effect") (
    field "sequence" (int (pos 2)) (
      field "record_id" (text "r2") (
        field "provider" (text "provider-a") (
          field "operation_id" (text "op-1")
            (field "effect_sha256" (text "other") (tool_of end))))))

abbrev mutated_trace : Fields
mutated_trace = trace_of (
    cons (object approval)
      (cons (object other_effect) (cons (object evidence) (cons (object completion) nil))))

abbrev path_tokens : List String
path_tokens = "records" ∷ "1" ∷ "effect_sha256" ∷ []

path_is_read : pointer_tokens "/records/1/effect_sha256" ≡ ok path_tokens
unfolding pointer_tokens ℕ_discrete
path_is_read = refl

effect_is_replaced : apply_mutation (trace_of all_records) replacement ≡ ok mutated_trace
unfolding apply_mutation get String-discrete json_eq find ℕ_discrete
effect_is_replaced = refl

read_at-apply_mutation_example : read_at path_tokens (object mutated_trace) ≡ some (text "other")
unfolding get find String-discrete
read_at-apply_mutation_example =
    read_at-apply_mutation (trace_of all_records) replacement mutated_trace
      "/records/1/effect_sha256" path_tokens (text "other") effect_is_replaced refl refl refl
      path_is_read

-- The records before and behind the mutated effect are what they were.
apply_mutation-IsBeside_example :
    (v : Json) × (w : Json) × (read_at ("records" ∷ []) (object (trace_of all_records)) ≡ some v)
    × (read_at ("records" ∷ []) (object mutated_trace) ≡ some w)
    × IsBeside
        (removes_child
          (json_eq (get "operator" replacement) (text "remove"))
          ("effect_sha256" ∷ []))
        "1"
        v
        w
unfolding get String-discrete
apply_mutation-IsBeside_example =
    apply_mutation-IsBeside (trace_of all_records) replacement mutated_trace
      "/records/1/effect_sha256" "1" ("records" ∷ []) ("effect_sha256" ∷ []) effect_is_replaced refl
      path_is_read

pointer_tokens-pointer_of_example :
    pointer_tokens (pointer_of ("a/b" ∷ "~1" ∷ [])) ≡ ok ("a/b" ∷ "~1" ∷ [])
pointer_tokens-pointer_of_example = pointer_tokens-pointer_of "a/b" ("~1" ∷ []) (inr (λ e. cc))

-- The tilde comes back last, or "~01" would be read as a slash.
escapes : pointer_of ("a/b" ∷ "~1" ∷ []) ≡ "/a~1b/~01"
unfolding pointer_of ℕ_discrete
escapes = refl

abbrev named_trace : Fields
named_trace = field "trace_id" (text "t1") (trace_of all_records)

abbrev removal : Fields
removal = field "base_trace_id" (text "t1") (
    field "id" (text "m2")
      (field "operator" (text "remove") (field "path" (text "/records/-1/evidence_id") end)))

abbrev baseline : Fields
baseline = field "traces" (array (cons (object named_trace) nil)) end

abbrev mutations : Fields
mutations = field "mutations" (array (cons (object replacement) (cons (object removal) nil))) end

abbrev report : CorpusReport
report = record {
  schema_version = "carl.trace-integrity-result.v1";
  clean_results = record { trace_id = text "t1"; accepted = true; violations = [] } ∷ [];
  mutation_results =
      record {
        mutation_id = text "m1";
        detected = true;
        violations = "effect_fingerprint_mismatch" ∷ [];
      }
      ∷ record {
        mutation_id = text "m2";
        detected = true;
        violations = "completion_evidence_missing" ∷ [];
      }
      ∷ [];
  metrics = record {
    clean_trace_count = 1;
    clean_trace_accept_rate = (1, 1);
    mutation_count = 2;
    mutation_detection_rate = (2, 2);
    false_positive_count = 0;
    false_negative_count = 0;
    detector_error_count = 0;
  };
}

corpus_is_evaluated : evaluate_trace_corpus digest baseline mutations ≡ ok report
unfolding evaluate_trace_corpus get String-discrete json_eq find ℕ_discrete ℤ-discrete
    text_pair_discrete int_list_discrete handle_records handle_record handle_kind handle_operation
    handle_approval handle_effect handle_evidence handle_completion bind_operation note_identity
    is_sha256 int_of_text contains sorted_texts insert_text dedup checkpoint_violations
    scope_violations final_violations max_revision lookup insert is_unique_increasing
corpus_is_evaluated = refl

scores_are_exact_example :
    (entries : List (Json × Fields)) × (traverse trace_entry (object named_trace ∷ []) ≡ ok entries)
    × ((report.metrics.false_positive_count ≡ 0)
        ↔ All (IsAcceptedTrace digest) (object named_trace ∷ []))
    × ((report.metrics.false_negative_count ≡ 0)
        ↔ All (IsDetected digest entries) (object replacement ∷ object removal ∷ []))
unfolding get String-discrete
scores_are_exact_example =
    scores_are_exact digest baseline mutations (cons (object named_trace) nil)
      (cons (object replacement) (cons (object removal) nil)) report refl refl corpus_is_evaluated
