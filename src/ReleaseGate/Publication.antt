-- ===== src/ReleaseGate/Publication.antt =====
-- The check of the published gate results (evals/release_gate_v1/verify_results.py).
use coding_agent_reliability.Base.{
  ℕ, suc, Bool, true, false, not, ◌&&◌, Option, none, some, List, [], ◌∷◌, ◌++◌, String, string_eq,
  nat_eq, int_eq, number_list_eq, ◌==◌, pos, if◌then◌else◌, Result, ok, err, Error, length, codes,
}
use coding_agent_reliability.Base.Document.{
  Json, null, bool, int, text, array, object, Items, nil, cons, items, Fields, end, field, get,
  find, json_eq, count_items, count_fields,
}
use coding_agent_reliability.Base.Errors.{◌>>=◌}
use coding_agent_reliability.Base.Messages.{unless}
use coding_agent_reliability.Base.Numeral.{decimal}
use coding_agent_reliability.Evaluation.Manifest.{is_bool}
use coding_agent_reliability.ReleaseGate.{Loaded, parsed, malformed, raised}
use Prim.Native.String.{◌++◌ as joined}

abbrev pub freeze : String
freeze = "ac90e062d55f51afbf54eb8aa9ce0134b902377b"

abbrev pub p_sha : String
p_sha = "3aea2286f57b832490bbe85479d042ffa525877dd99d521f69286e6494097ca1"

abbrev pub e_sha : String
e_sha = "99438a2c2ab2cef784df4d3a51ad7f114d695509d657ca25c502f8d74d15397f"

abbrev pub v_sha : String
v_sha = "a0a2ca7c771312d70b4bd5f582c0db0ec272855c67e2d95aa136c03745e106c4"

-- `value[key]`
abbrev pub found_at : Option Json → Result Json
found_at none = err Error.key_error
found_at (some v) = ok v

abbrev pub subscript : String → Json → Result Json
subscript key (object fs) = found_at (find key fs)
subscript key _ = err Error.type_error

-- The value as a dictionary, where its `get` is called.
abbrev pub as_fields : Json → Result Fields
as_fields (object fs) = ok fs
as_fields _ = err Error.attribute_error

-- `bool(value)`
abbrev pub truthy : Json → Bool
truthy null = false
truthy (bool b) = b
truthy (int n) = not (n == pos 0)
truthy (text s) = not (s == "")
truthy (array nil) = false
truthy (array (cons v vs)) = true
truthy (object end) = false
truthy (object (field k v fs)) = true

unfoldable pub all_same : List ℕ → List (List ℕ) → Bool
all_same first [] = true
all_same first (x ∷ xs) = x == first && all_same first xs

-- `bool(runs) and all(x == runs[0] for x in runs[1:])`
abbrev pub equal_runs : List (List ℕ) → Bool
equal_runs [] = false
equal_runs (first ∷ runs) = all_same first runs

-- `normalized`, with the error of the branch.
abbrev pub normalized_of : Loaded → Result (Json × List String)
normalized_of (parsed v) = ok (v, [])
normalized_of malformed = ok (object end, "run artifact invalid JSON" ∷ [])
normalized_of (raised error) = err error

abbrev pub first_loaded : (List ℕ → Loaded) → List (List ℕ) → Loaded
first_loaded loads [] = parsed (object end)
first_loaded loads (run ∷ runs) = loads run

-- The loop over `expected`.
unfoldable pub mismatches : Fields → List (String × Json) → List String
unfolding json_eq unless
mismatches results [] = []
mismatches results ((k, v) ∷ expected) =
    unless (json_eq (get k results) v) (joined "published " (joined k " mismatch"))
    ++ mismatches results expected

-- `s.get("passed") is True and not s.get("errors")`
abbrev pub clean_source : Fields → Bool
clean_source s = is_bool true (get "passed" s) && not (truthy (get "errors" s))

-- The first source that is not clean ends the loop.
unfoldable pub all_clean : List Json → Result Bool
all_clean [] = ok true
all_clean (object s ∷ sources) =
    let rest = all_clean sources in if clean_source s then rest else ok false
all_clean (_ ∷ sources) = err Error.attribute_error

-- `normalized.get("source_results") or []`
abbrev pub sources_of : Json → Json
sources_of v = if truthy v then v else array nil

-- `len(sources)`
abbrev pub size_of : Json → Result ℕ
size_of (text s) = ok (length (codes s))
size_of (array vs) = ok (count_items vs)
size_of (object fs) = ok (count_fields fs)
size_of _ = err Error.type_error

-- The loop over the sources; the characters of a text and the keys of a dictionary have no `get`.
abbrev pub clean_sources : Json → Result Bool
clean_sources (array vs) = all_clean (items vs)
clean_sources _ = err Error.attribute_error

unfoldable pub derived_count : Fields → Json → Result Bool
unfolding json_eq count_items count_fields codes all_clean find
derived_count protocol sources = do
  size ← size_of sources
  criteria ← found_at (find "release_criteria" protocol)
  required ← subscript "required_source_count" criteria
  if json_eq (int (pos size)) required then clean_sources sources else ok false

-- `normalized.get("metrics", {})`
abbrev pub metrics_under : Option Json → Json
metrics_under none = object end
metrics_under (some v) = v

-- `derived`
unfoldable pub derived_ready : Fields → Fields → Result Bool
unfolding derived_count
derived_ready protocol normalized = do
  metrics ← as_fields (metrics_under (find "metrics" normalized))
  if truthy (get "required_source_count_satisfied" metrics)
      then derived_count protocol (sources_of (get "source_results" normalized))
      else ok false

-- `expected`
abbrev pub expected_values : Json → Json → Fields → List (String × Json)
expected_values protocol_id boundary normalized =
    ("schema_version", text "carl.combined-evidence-release-publication.v1")
    ∷ ("protocol_id", protocol_id)
    ∷ ("freeze_commit_sha", text freeze)
    ∷ ("protocol_sha256", text p_sha)
    ∷ ("evidence_manifest_sha256", text e_sha)
    ∷ ("evaluator_sha256", text v_sha)
    ∷ ("release_ready", get "release_ready" normalized)
    ∷ ("metrics", get "metrics" normalized)
    ∷ ("source_results", get "source_results" normalized)
    ∷ ("claim_boundary", boundary)
    ∷ []

-- The errors up to the loop over `expected`; `files_match` compares the three files with the constants.
abbrev pub run_errors : Bool → Json → Bool → List (List ℕ) → List String
run_errors files_match required must_equal runs =
    unless files_match "frozen protocol/evidence/evaluator identity drift"
    ++ unless (json_eq (int (pos (length runs))) required)
        "published run count differs from frozen requirement"
    ++ unless (not (must_equal && not (equal_runs runs)))
        "independent outputs are not byte-identical"

abbrev pub ready_errors : Bool → Fields → List String
ready_errors derived normalized =
    unless (is_bool derived (get "release_ready" normalized))
      "normalized release_ready differs from frozen composition criteria"

module _ (hexdigest : List ℕ → String) where
  -- `runsha`
  abbrev pub run_digest : List (List ℕ) → Json
  run_digest [] = null
  run_digest (run ∷ runs) = text (hexdigest run)

  abbrev pub reproduction_of : Json → List (List ℕ) → Json
  reproduction_of required runs = object (
      field "independent_runs_required" required (
        field "independent_runs_recorded" (int (pos (length runs))) (
          field "normalized_output_byte_identical" (bool (equal_runs runs))
            (field "normalized_output_sha256" (run_digest runs) end))))

  -- `artifacts`, from the number of the first run on.
  artifacts_from : ℕ → List (List ℕ) → Items
  artifacts_from i [] = nil
  artifacts_from i (run ∷ runs) =
      cons
        (object (
          field "path"
            (text (joined "evals/release_gate_v1/artifacts/run-" (joined (decimal i) ".json")))
            (field "sha256" (text (hexdigest run)) end)))
        (artifacts_from (suc i) runs)

  -- The errors of the comparisons with the results.
  unfoldable pub result_errors : Json → List (String × Json) → Fields → List (List ℕ) → List String
  unfolding mismatches json_eq artifacts_from all_same unless
  result_errors required expected results runs =
      mismatches results expected
      ++ unless (json_eq (get "reproduction" results) (reproduction_of required runs))
          "reproduction summary mismatch"
      ++ unless (json_eq (get "run_artifacts" results) (array (artifacts_from 1 runs)))
          "run artifact identities mismatch"

module _ (hexdigest : List ℕ → String) (loads : List ℕ → Loaded) where
  -- `validate`, with the digests of the three files.
  unfoldable pub validate :
      String → String → String → Fields → Fields → List (List ℕ) → Result (List String)
  unfolding json_eq find all_same result_errors derived_ready unless
  validate protocol_sha evidence_sha evaluator_sha protocol results runs = do
    execution ← found_at (find "execution" protocol)
    required ← subscript "independent_runs_required" execution
    must_equal ← subscript "normalized_output_byte_equal_required" execution
    run ← normalized_of (first_loaded loads runs)
    protocol_id ← found_at (find "protocol_id" protocol)
    normalized ← as_fields run.0
    boundary ← found_at (find "claim_boundary" protocol)
    derived ← derived_ready protocol normalized
    let files_match = protocol_sha == p_sha && (evidence_sha == e_sha && evaluator_sha == v_sha)
    ok (
        run_errors files_match required (truthy must_equal) runs
        ++ run.1
        ++ result_errors hexdigest required (expected_values protocol_id boundary normalized)
            results runs
        ++ ready_errors derived normalized)
