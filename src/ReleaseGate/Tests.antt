-- ===== src/ReleaseGate/Tests.antt =====
-- A release protocol with one source, in a repository with its three files.
use coding_agent_reliability.Base.{
  ℕ, ◌≡◌, refl, true, some, List, [], ◌∷◌, ◌++◌, String, ℤ, pos, ok, err, Error, if◌then◌else◌,
  nat_eq, string_eq, ◌==◌, String-discrete, ℤ-discrete, ℕ_discrete,
}
use coding_agent_reliability.Base.Document.{
  Json, null, bool, int, text, array, object, nil, cons, Fields, end, field, get, find, json_eq,
}
use coding_agent_reliability.Base.Errors.{traverse}
use coding_agent_reliability.ReleaseGate.{
  Repository, Check, digest_checks, Loaded, parsed, raised, SourceResult, source_result,
  source_checks, errors_of, read_result, result_checks, identity_checks, gates_pass,
  evaluate_source,
}
use coding_agent_reliability.ReleaseGate.Release.{
  ReleaseRun, release_run, count_passed, source_objects, evaluate_manifest,
}
use coding_agent_reliability.ReleaseGate.Verified.{IsVerified, evaluate_source-IsVerified}
use coding_agent_reliability.ReleaseGate.Ready.{IsReady, evaluate_manifest-IsReady}

abbrev repr : Json → String
repr v = "?"

abbrev criteria : Fields
criteria = field "required_source_count" (int (pos 1)) (
    field "required_source_disposition" (text "release_ready")
      (field "minimum_source_independent_runs" (int (pos 2)) end))

abbrev document : Fields
document = field "schema_version" (text "v1") (
    field "protocol_id" (text "trace-v1") (
      field "freeze_commit_sha" (text "c0") (
        field "protocol_sha256" (text "d1") (
          field "aggregate_disposition" (text "release_ready") (
            field "frozen_gates"
              (object (field "scores" (object (field "passed" (bool true) end)) end))
              (field "reproduction"
                (object (
                  field "independent_runs_required" (int (pos 2)) (
                    field "independent_runs_recorded" (int (pos 2))
                      (field "normalized_output_byte_identical" (bool true) end))))
                end))))))

abbrev source : Fields
source = field "id" (text "trace") (
    field "freeze_commit_sha" (text "c0") (
      field "protocol_path" (text "p") (
        field "protocol_sha256" (text "d1") (
          field "result_commit_sha" (text "c1") (
            field "result_path" (text "r") (
              field "result_sha256" (text "d2") (
                field "result_verifier_path" (text "v") (
                  field "result_verifier_sha256" (text "d3") (
                    field "protocol_id" (text "trace-v1")
                      (field "result_schema_version" (text "v1") end))))))))))

abbrev bytes_at : String → List ℕ
bytes_at path = if path == "p" then 1 ∷ [] else if path == "r" then 2 ∷ [] else 3 ∷ []

abbrev digest : List ℕ → String
digest [] = "d0"
digest (byte ∷ bytes) = if byte == 1 then "d1" else if byte == 2 then "d2" else "d3"

abbrev shown : String → ℤ × List ℕ
shown path =
    if path == "c0:p"
    then (pos 0, 1 ∷ [])
    else if path == "c1:r"
    then (pos 0, 2 ∷ [])
    else (pos 0, 3 ∷ [])

abbrev repository : Loaded → Repository
repository loaded = record {
  is_file = λ path. true;
  read_bytes = λ path. ok (bytes_at path);
  hexdigest = digest;
  loads = λ bytes. loaded;
  git_show = λ argument. ok (shown argument);
  run_verifier = λ path. ok (pos 0);
}

abbrev release_protocol : Fields
release_protocol = field "release_criteria" (object criteria) end

abbrev evidence : Fields
evidence = field "sources" (array (cons (object source) (cons null nil))) end

abbrev repo : Repository
repo = repository (parsed (object document))

abbrev passes : String → String → List ℕ → List Check
passes label expected bytes = digest_checks repo label expected expected (some bytes)

-- The checks of the three identities.
abbrev identities : List Check
identities =
    passes "protocol" "d1" (1 ∷ [])
    ++ (passes "result" "d2" (2 ∷ []) ++ passes "result_verifier" "d3" (3 ∷ []))

abbrev passed_source : SourceResult
passed_source =
    source_result "trace" (source_checks source criteria identities (some document) true)

source_evaluated : evaluate_source repo repr criteria source ≡ ok passed_source
unfolding evaluate_source read_result find get String-discrete ℤ-discrete ℕ_discrete
source_evaluated = refl

source_passed : passed_source.passed ≡ true
unfolding source_result source_checks errors_of result_checks identity_checks json_eq gates_pass get
    find String-discrete ℤ-discrete ℕ_discrete
source_passed = refl

evaluate_source-IsVerified_example : IsVerified repo repr criteria source
evaluate_source-IsVerified_example =
    evaluate_source-IsVerified repo repr criteria source passed_source source_evaluated
      source_passed

abbrev ready_run : ReleaseRun
ready_run = release_run release_protocol evidence criteria (passed_source ∷ [])

evidence_evaluated : evaluate_manifest repo repr release_protocol evidence ≡ ok ready_run
unfolding evaluate_manifest traverse source_objects evaluate_source read_result get find
    String-discrete ℤ-discrete ℕ_discrete
evidence_evaluated = refl

run_ready : ready_run.release_ready ≡ true
unfolding release_run count_passed source_result source_checks errors_of result_checks
    identity_checks json_eq gates_pass get find String-discrete ℤ-discrete ℕ_discrete
run_ready = refl

evaluate_manifest-IsReady_example : IsReady repo repr release_protocol evidence
evaluate_manifest-IsReady_example =
    evaluate_manifest-IsReady repo repr release_protocol evidence ready_run evidence_evaluated
      run_ready

-- The result's file is no UTF-8.
undecodable_result :
    evaluate_source (repository (raised Error.value_error)) repr criteria source
    ≡ err Error.value_error
unfolding evaluate_source read_result get find String-discrete ℤ-discrete ℕ_discrete
undecodable_result = refl
