-- ===== src/ReleaseGate/PublicationTests.antt =====
-- A publication of one run over one source.
use coding_agent_reliability.Base.{
  ℕ, ◌≡◌, refl, true, List, [], ◌∷◌, String, pos, ok, err, Error, String-discrete, ℤ-discrete,
  ℕ_discrete, number_list_discrete,
}
use coding_agent_reliability.Base.Document.{
  Json, bool, int, text, array, object, nil, cons, Fields, end, field, get, find, json_eq,
}
use coding_agent_reliability.Base.Numeral.{decimal}
use coding_agent_reliability.ReleaseGate.{Loaded, parsed, raised}
use coding_agent_reliability.ReleaseGate.Publication.{
  freeze, p_sha, e_sha, v_sha, reproduction_of, validate,
}
use coding_agent_reliability.ReleaseGate.Published.{IsPublished, validate-IsPublished}

abbrev digest : List ℕ → String
digest bytes = "d"

abbrev sources : Json
sources = array (cons (object (field "passed" (bool true) (field "errors" (array nil) end))) nil)

abbrev metrics : Json
metrics = object (field "required_source_count_satisfied" (bool true) end)

abbrev normalized : Fields
normalized =
    field "release_ready" (bool true) (field "metrics" metrics (field "source_results" sources end))

abbrev loads : List ℕ → Loaded
loads bytes = parsed (object normalized)

abbrev runs : List (List ℕ)
runs = (1 ∷ []) ∷ []

abbrev protocol : Fields
protocol = field "protocol_id" (text "release-v1") (
    field "claim_boundary" (text "local") (
      field "execution"
        (object (
          field "independent_runs_required" (int (pos 1))
            (field "normalized_output_byte_equal_required" (bool true) end)))
        (field "release_criteria" (object (field "required_source_count" (int (pos 1)) end)) end)))

abbrev artifact : Json
artifact = object (
    field "path" (text "evals/release_gate_v1/artifacts/run-1.json")
      (field "sha256" (text "d") end))

abbrev results : Fields
results = field "schema_version" (text "carl.combined-evidence-release-publication.v1") (
    field "protocol_id" (text "release-v1") (
      field "freeze_commit_sha" (text freeze) (
        field "protocol_sha256" (text p_sha) (
          field "evidence_manifest_sha256" (text e_sha) (
            field "evaluator_sha256" (text v_sha) (
              field "release_ready" (bool true) (
                field "metrics" metrics (
                  field "source_results" sources (
                    field "claim_boundary" (text "local") (
                      field "reproduction" (reproduction_of digest (int (pos 1)) runs)
                        (field "run_artifacts" (array (cons artifact nil)) end)))))))))))

validated : validate digest loads p_sha e_sha v_sha protocol results runs ≡ ok []
unfolding validate json_eq get find String-discrete ℤ-discrete ℕ_discrete number_list_discrete
    decimal
validated = refl

validate-IsPublished_example : IsPublished digest loads p_sha e_sha v_sha protocol results runs
unfolding json_eq get String-discrete ℤ-discrete
validate-IsPublished_example =
    validate-IsPublished digest loads p_sha e_sha v_sha protocol results runs validated refl

-- A run that is no UTF-8 ends the check with an exception.
undecodable_run :
    validate digest (λ bytes. raised Error.value_error) p_sha e_sha v_sha protocol results runs
    ≡ err Error.value_error
unfolding validate find String-discrete
undecodable_run = refl
