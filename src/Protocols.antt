-- ===== src/Protocols.antt =====
-- The verifiers of the frozen protocols (evals/*/verify_protocol.py): Fixtures models that of
-- reliability_v1, Traces that of trace_integrity_v1 and Sources that of release_gate_v1. This file holds
-- what the three do alike; Runners, Mutations and Identities prove what they establish.
mod Fixtures
mod Traces
mod Sources
mod Runners
mod Mutations
mod Identities
mod Tests
use coding_agent_reliability.Base.{ℕ, Bool, true, false, List, [], ◌∷◌, ◌++◌, String, pos}
use coding_agent_reliability.Base.Messages.{unless}
use coding_agent_reliability.Base.Document.{
  Json, bool, int, text, object, Fields, end, field, get, json_eq,
}
use coding_agent_reliability.Evaluation.Manifest.{str_of}
use Prim.Native.String.{◌++◌ as joined}

-- `if document.get(key) != expected: errors.append(message)`, one after the other.
unfoldable pub compare_values : Fields → List (String × Json × String) → List String
unfolding json_eq unless
compare_values document [] = []
compare_values document ((key, expected, message) ∷ values) =
    unless (json_eq (get key document) expected) message ++ compare_values document values

-- `tuple(str(item.get(key)) for item in values if isinstance(item, dict))`
unfoldable pub texts_under : (Json → String) → String → List Json → List String
texts_under repr key [] = []
texts_under repr key (object item ∷ values) =
    str_of repr (get key item) ∷ texts_under repr key values
texts_under repr key (_ ∷ values) = texts_under repr key values

-- The execution controls, which differ in the folder of the runs.
abbrev pub execution_controls : String → Json
execution_controls pattern = object (
    field "independent_runs_required" (int (pos 2)) (
      field "normalized_output_byte_equal_required" (bool true) (
        field "result_path_pattern" (text pattern)
          (field "aggregate_publication_requires_frozen_protocol_commit" (bool true) end))))

abbrev pub result_boundary : String → Json
result_boundary path =
    object (
      field "published_results_path" (text path) (field "must_be_absent_at_freeze" (bool true) end))

-- One of the gates: the actual value is to equal the threshold.
abbrev pub equal_gate : ℕ → Json
equal_gate threshold =
    object (field "operator" (text "eq") (field "threshold" (int (pos threshold)) end))
