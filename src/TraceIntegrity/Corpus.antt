-- ===== src/TraceIntegrity/Corpus.antt =====
-- `evaluate_trace_corpus` of src/agent_reliability_lab/trace_integrity.py. A rate is an exact fraction
-- where Python has the nearest float.
use coding_agent_reliability.Base.{
  ℕ, suc, ◌-◌, Bool, not, Option, none, some, List, [], ◌∷◌, String, if◌then◌else◌, nat_eq, length,
  Result, ok, err, Error, traverse,
}
use coding_agent_reliability.Base.Document.{Json, array, object, Fields, find, get, items, json_eq}
use coding_agent_reliability.Base.Errors.{◌>>=◌ as bind}
use coding_agent_reliability.TraceIntegrity.Progress.{is_nothing}
use coding_agent_reliability.TraceIntegrity.Mutation.{apply_mutation}
use coding_agent_reliability.TraceIntegrity.Validator.{validate_trace}

-- `fields[key]`, by what is found there.
unfoldable pub found : Option Json → Result Json
found none = err Error.key_error
found (some v) = ok v

-- What a dictionary takes as a key: no list and no dictionary.
unfoldable pub hashed : Json → Result Json
hashed (array _) = err Error.type_error
hashed (object _) = err Error.type_error
hashed v = ok v

-- A trace under its trace_id; only a dictionary can be indexed by a text.
unfoldable pub trace_entry : Json → Result (Json × Fields)
unfolding find found hashed
trace_entry (object trace) =
    bind (found (find "trace_id" trace)) λ id. bind (hashed id) λ key. ok (key, trace)
trace_entry _ = err Error.type_error

-- `by_id[key] = trace`
insert_trace : Json × Fields → List (Json × Fields) → List (Json × Fields)
insert_trace (key, trace) [] = (key, trace) ∷ []
insert_trace (key, trace) ((j, other) ∷ traces) =
    if json_eq j key then (j, trace) ∷ traces else (j, other) ∷ insert_trace (key, trace) traces

index_onto : List (Json × Fields) → List (Json × Fields) → List (Json × Fields)
index_onto by_id [] = by_id
index_onto by_id (entry ∷ entries) = index_onto (insert_trace entry by_id) entries

-- `by_id`
unfoldable pub index_traces : List (Json × Fields) → List (Json × Fields)
unfolding index_onto insert_trace json_eq
index_traces entries = index_onto [] entries

-- `by_id[key]`
unfoldable pub find_trace : Json → List (Json × Fields) → Result Fields
unfolding json_eq
find_trace key [] = err Error.key_error
find_trace key ((j, trace) ∷ traces) = if json_eq j key then ok trace else find_trace key traces

pub record CleanResult : Type 0 where
  pub trace_id : Json
  pub accepted : Bool
  pub violations : List String

pub record MutationResult : Type 0 where
  pub mutation_id : Json
  pub detected : Bool
  pub violations : List String

pub record TraceMetrics : Type 0 where
  pub clean_trace_count : ℕ
  pub clean_trace_accept_rate : ℕ × ℕ
  pub mutation_count : ℕ
  pub mutation_detection_rate : ℕ × ℕ
  pub false_positive_count : ℕ
  pub false_negative_count : ℕ
  pub detector_error_count : ℕ

pub record CorpusReport : Type 0 where
  pub schema_version : String
  pub clean_results : List CleanResult
  pub mutation_results : List MutationResult
  pub metrics : TraceMetrics

-- `sum(not test(item) for item in items)`
unfoldable pub count_failures {ℓ} : {A : Type ℓ} → (A → Bool) → List A → ℕ
count_failures test [] = 0
count_failures test (x ∷ xs) =
    let rest = count_failures test xs in if not (test x) then suc rest else rest

abbrev pub accepts : CleanResult → Bool
accepts result = result.accepted

abbrev pub detects : MutationResult → Bool
detects result = result.detected

abbrev pub trace_metrics : List CleanResult → List MutationResult → TraceMetrics
trace_metrics clean mutations = record {
  clean_trace_count = length clean;
  clean_trace_accept_rate = (length clean - count_failures accepts clean, length clean);
  mutation_count = length mutations;
  mutation_detection_rate = (length mutations - count_failures detects mutations, length mutations);
  false_positive_count = count_failures accepts clean;
  false_negative_count = count_failures detects mutations;
  detector_error_count = 0;
}

-- The rates divide by the numbers of the traces and of the mutations.
unfoldable pub corpus_report : List CleanResult → List MutationResult → Result CorpusReport
unfolding count_failures
corpus_report [] mutations = err Error.zero_division
corpus_report (c ∷ clean) [] = err Error.zero_division
corpus_report (c ∷ clean) (m ∷ mutations) = ok (record {
  schema_version = "carl.trace-integrity-result.v1";
  clean_results = c ∷ clean;
  mutation_results = m ∷ mutations;
  metrics = trace_metrics (c ∷ clean) (m ∷ mutations);
})

-- The trace that a mutation starts from.
unfoldable pub base_trace : List (Json × Fields) → Fields → Result Fields
unfolding find_trace index_traces find found hashed
base_trace entries mutation =
    bind (found (find "base_trace_id" mutation))
      λ id. bind (hashed id) λ key. find_trace key (index_traces entries)

module _ (sha256 : List ℕ → String) where
  -- The body of the loop over the traces.
  unfoldable pub clean_result : Json × Fields → Result CleanResult
  unfolding validate_trace
  clean_result (id, trace) = bind (validate_trace sha256 trace) λ violations.
      ok (record { trace_id = id; accepted = is_nothing violations; violations = violations })

  -- The body of the loop over the mutations.
  unfoldable pub mutation_result : List (Json × Fields) → Json → Result MutationResult
  unfolding base_trace apply_mutation validate_trace find found
  mutation_result entries (object mutation) = bind (base_trace entries mutation) λ base.
      bind (apply_mutation base mutation) λ mutated.
        bind (validate_trace sha256 mutated) λ violations. bind (found (find "id" mutation)) λ id.
          ok (record {
            mutation_id = id;
            detected = not (is_nothing violations);
            violations = violations;
          })
  mutation_result entries _ = err Error.type_error

  -- `evaluate_trace_corpus` by the two values that it takes from the documents.
  unfoldable pub evaluate_lists : Json → Json → Result CorpusReport
  unfolding traverse trace_entry clean_result mutation_result corpus_report
  evaluate_lists (array traces) (array mutations) =
      bind (traverse trace_entry (items traces)) λ entries.
        bind (traverse clean_result entries) λ clean.
          bind (traverse (mutation_result entries) (items mutations))
            λ mutated. corpus_report clean mutated
  evaluate_lists _ _ = err Error.type_error

  unfoldable pub evaluate_trace_corpus : Fields → Fields → Result CorpusReport
  unfolding evaluate_lists
  evaluate_trace_corpus baseline_document mutation_document =
      evaluate_lists (get "traces" baseline_document) (get "mutations" mutation_document)
