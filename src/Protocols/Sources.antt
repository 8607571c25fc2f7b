-- ===== src/Protocols/Sources.antt =====
-- `validate` and `verify_source_identities` of evals/release_gate_v1/verify_protocol.py.
use coding_agent_reliability.Base.{
  ℕ, Bool, true, false, not, Option, none, some, List, [], ◌∷◌, ◌++◌, String, string_eq, texts_eq,
  nat_eq, ◌==◌, pos, length, if◌then◌else◌,
}
use coding_agent_reliability.Base.Errors.{◌>>=◌, Result, ok}
use coding_agent_reliability.Base.Messages.{unless, gather}
use coding_agent_reliability.Base.Document.{
  Json, bool, int, text, array, object, Fields, end, field, items, get, find,
}
use coding_agent_reliability.ReleaseGate.{
  Repository, git_blob, sha256_of, both, nonempty_text, source_id_of,
}
use coding_agent_reliability.Protocols.{
  compare_values, texts_under, execution_controls, result_boundary,
}
use Prim.Native.String.{◌++◌ as joined}

abbrev pub expected_release_criteria : Json
expected_release_criteria = object (
    field "minimum_source_independent_runs" (int (pos 2)) (
      field "require_current_result_bytes_match_pinned_commit" (bool true) (
        field "require_exact_result_commit_identity" (bool true) (
          field "require_source_frozen_gates_all_pass" (bool true) (
            field "require_source_independent_runs_satisfied" (bool true) (
              field "require_source_normalized_output_byte_identical" (bool true) (
                field "require_source_result_protocol_identity_match_manifest" (bool true) (
                  field "require_source_result_verifier_pass" (bool true) (
                    field "required_source_count" (int (pos 2))
                      (field "required_source_disposition" (text "pass") end))))))))))

abbrev pub expected_claim_boundary : Json
expected_claim_boundary = object (
    field "distributed_consensus_claim_allowed" (bool false) (
      field "exactly_once_claim_allowed" (bool false) (
        field "production_reliability_claim_allowed" (bool false) (
          field "production_trace_integrity_claim_allowed" (bool false) (
            field "real_provider_claim_allowed" (bool false) (
              field "release_ready_claim_allowed_before_two_reproducing_runs" (bool false) end))))))

abbrev pub protocol_values : List (String × Json × String)
protocol_values =
    (
      "schema_version",
      text "carl.combined-evidence-release-protocol.v1",
      "protocol schema_version mismatch",
    )
    ∷ ("protocol_id", text "combined-evidence-release-v1-20260916", "protocol_id mismatch")
    ∷ (
      "status",
      text "frozen_unexecuted",
      "protocol must remain frozen_unexecuted at the freeze boundary",
    )
    ∷ (
      "release_criteria", expected_release_criteria,
      "release criteria differ from the frozen definition",
    )
    ∷ (
      "claim_boundary", expected_claim_boundary,
      "claim boundary differs from the frozen definition",
    )
    ∷ (
      "evidence_manifest",
      object (
          field "path" (text "evals/release_gate_v1/EVIDENCE.json") (
            field "sha256" (text "99438a2c2ab2cef784df4d3a51ad7f114d695509d657ca25c502f8d74d15397f")
              (field "source_count" (int (pos 2)) end))),
      "evidence manifest identity differs from the frozen definition",
    )
    ∷ (
      "evaluator",
      object (
          field "path" (text "evals/release_gate_v1/evaluate.py") (
            field "sha256" (text "a0a2ca7c771312d70b4bd5f582c0db0ec272855c67e2d95aa136c03745e106c4")
              end)),
      "evaluator identity differs from the frozen definition",
    )
    ∷ (
      "execution",
      execution_controls "evals/release_gate_v1/artifacts/run-{run}.json",
      "execution controls differ from the frozen definition",
    )
    ∷ (
      "result_artifact",
      result_boundary "evals/release_gate_v1/RESULTS.json",
      "result artifact boundary differs from the frozen definition",
    )
    ∷ []

abbrev pub evidence_values : List (String × Json × String)
evidence_values =
    (
      "schema_version",
      text "carl.combined-evidence-manifest.v1",
      "evidence schema_version mismatch",
    )
    ∷ ("evidence_set_id", text "combined-release-evidence-v1-20260916", "evidence_set_id mismatch")
    ∷ []

unfoldable pub source_list_errors : (Json → String) → Json → List String
unfolding texts_under unless
source_list_errors repr (array sources) =
    unless
      (texts_under repr "id" (items sources) == ("core_reliability_v1" ∷ "trace_integrity_v1" ∷ []))
      "evidence source ids/order differ from the frozen definition"
    ++ unless (length (items sources) == 2) "evidence source count mismatch"
source_list_errors repr _ = "evidence sources must be a list" ∷ []

unfoldable pub validate : (Json → String) → Fields → Fields → Bool → List String
validate repr protocol evidence results_exist = gather (
    compare_values protocol protocol_values
    ∷ unless (not results_exist) "RESULTS.json must not exist at the freeze boundary"
    ∷ compare_values evidence evidence_values
    ∷ source_list_errors repr (get "sources" evidence)
    ∷ [])

-- f"{source_id} {label} ..."
abbrev pub source_message : String → String → String → String
source_message id label fault = joined id (joined " " (joined label (joined " " fault)))

abbrev pub blob_errors : Repository → String → String → String → Option (List ℕ) → List String
blob_errors repo id label expected none = source_message id label "pinned commit/path missing" ∷ []
blob_errors repo id label expected (some blob) =
    unless (repo.hexdigest blob == expected)
      (source_message id label "pinned commit bytes mismatch")

-- The errors of an identity whose file exists, with the digest and the blob that were read.
abbrev pub digest_errors :
    Repository → String → String → String → String → Option (List ℕ) → List String
digest_errors repo id label expected current blob =
    unless (current == expected) (source_message id label "current bytes are stale or mismatched")
    ++ blob_errors repo id label expected blob

abbrev pub present_errors :
    Repository → String → String → String → String → String → Result (List String)
present_errors repo id label commit path expected = sha256_of repo path >>= λ current.
    git_blob repo commit path >>= λ blob. ok (digest_errors repo id label expected current blob)

abbrev pub complete_errors :
    Repository
    → String
    → String
    → Option String
    → Option String
    → Option String
    → Result (List String)
complete_errors repo id label (some commit) (some path) (some expected) =
    if repo.is_file path
    then present_errors repo id label commit path expected
    else ok (source_message id label "missing" ∷ [])
complete_errors repo id label _ _ _ = ok (source_message id label "identity incomplete" ∷ [])

-- A round of the loop over `identities`.
unfoldable pub identity_errors :
    Repository → String → String → Json → Json → Json → Result (List String)
unfolding unless
identity_errors repo id label commit path expected =
    complete_errors repo id label (nonempty_text commit) (nonempty_text path)
      (nonempty_text expected)

unfoldable pub source_errors : Repository → String → Fields → Result (List String)
unfolding identity_errors
source_errors repo id source =
    both
      (identity_errors repo id "protocol" (get "freeze_commit_sha" source)
        (get "protocol_path" source) (get "protocol_sha256" source))
      (both
        (identity_errors repo id "result" (get "result_commit_sha" source)
          (get "result_path" source) (get "result_sha256" source))
        (identity_errors repo id "result_verifier" (get "result_commit_sha" source)
          (get "result_verifier_path" source) (get "result_verifier_sha256" source)))

-- The loop over the sources.
unfoldable pub all_source_errors : Repository → (Json → String) → List Json → Result (List String)
unfolding source_errors
all_source_errors repo repr [] = ok []
all_source_errors repo repr (object source ∷ sources) =
    both (source_errors repo (source_id_of repr (find "id" source)) source)
      (all_source_errors repo repr sources)
all_source_errors repo repr (_ ∷ sources) =
    both (ok ("evidence source must be an object" ∷ [])) (all_source_errors repo repr sources)

abbrev pub listed_errors : Repository → (Json → String) → Json → Result (List String)
listed_errors repo repr (array sources) = all_source_errors repo repr (items sources)
listed_errors repo repr _ = ok ("evidence sources must be a list" ∷ [])

unfoldable pub verify_source_identities :
    Repository → (Json → String) → Fields → Result (List String)
unfolding all_source_errors
verify_source_identities repo repr evidence = listed_errors repo repr (get "sources" evidence)
