-- ===== src/ReleaseGate/Release.antt =====
-- `evaluate_manifest`: the gate over all sources.
use coding_agent_reliability.Base.{
  ℕ, suc, ◌-◌, Bool, false, not, ◌&&◌, Option, none, some, List, [], ◌∷◌, String, string_eq, nat_eq,
  int_eq, ◌==◌, ℤ, pos, if◌then◌else◌, Result, ok, err, Error, length, traverse,
}
use coding_agent_reliability.Base.Document.{Json, array, object, items, Fields, get, as_int}
use coding_agent_reliability.Base.Errors.{◌>>=◌}
use coding_agent_reliability.ReleaseGate.{Repository, SourceResult, is_empty, evaluate_source}

-- `[source for source in sources if isinstance(source, dict)]`
unfoldable pub source_objects : List Json → List Fields
source_objects [] = []
source_objects (object fs ∷ vs) = fs ∷ source_objects vs
source_objects (_ ∷ vs) = source_objects vs

unfoldable pub count_passed : List SourceResult → ℕ
count_passed [] = 0
count_passed (r ∷ rs) = let rest = count_passed rs in if r.passed then suc rest else rest

pub record GateMetrics : Type 0 where
  pub source_count : ℕ
  pub sources_passed : ℕ
  pub sources_failed : ℕ
  pub required_source_count_satisfied : Bool

pub record ReleaseRun : Type 0 where
  pub schema_version : String
  pub protocol_id : Json
  pub evidence_set_id : Json
  pub metrics : GateMetrics
  pub source_results : List SourceResult
  pub release_ready : Bool

-- `isinstance(required_count, int) and len(source_results) == required_count`
abbrev pub count_satisfied : Option ℤ → ℕ → Bool
count_satisfied (some required) n = pos n == required
count_satisfied none n = false

-- The dictionary at the end of `evaluate_manifest`.
unfoldable pub release_run : Fields → Fields → Fields → List SourceResult → ReleaseRun
unfolding length
release_run protocol evidence criteria results =
    let count_ok =
      count_satisfied (as_int (get "required_source_count" criteria)) (length results) in
    record {
      schema_version = "carl.combined-evidence-release-run.v1";
      protocol_id = get "protocol_id" protocol;
      evidence_set_id = get "evidence_set_id" evidence;
      metrics = record {
        source_count = length results;
        sources_passed = count_passed results;
        sources_failed = length results - count_passed results;
        required_source_count_satisfied = count_ok;
      };
      source_results = results;
      release_ready = count_ok && count_passed results == length results && not (is_empty results);
    }

abbrev pub object_or_raise : Json → Result Fields
object_or_raise (object fs) = ok fs
object_or_raise _ = err Error.type_error

abbrev pub array_or_raise : Json → Result (List Json)
array_or_raise (array vs) = ok (items vs)
array_or_raise _ = err Error.type_error

unfoldable pub evaluate_manifest :
    Repository → (Json → String) → Fields → Fields → Result ReleaseRun
evaluate_manifest repo repr protocol evidence =
    object_or_raise (get "release_criteria" protocol) >>= λ criteria.
    array_or_raise (get "sources" evidence) >>= λ sources.
    traverse (evaluate_source repo repr criteria) (source_objects sources) >>= λ results.
    ok (release_run protocol evidence criteria results)
