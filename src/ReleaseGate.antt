-- ===== src/ReleaseGate.antt =====
-- The combined release gate (evals/release_gate_v1/evaluate.py): the checks of one evidence source,
-- and in Release the gate over all sources. Pinned, Accepted and Verified prove what the checks of a
-- source establish, and Ready what a ready release rests on. Publication
-- and Published are about the publication of the gate's results (evals/release_gate_v1/verify_results.py).
pub mod Pinned
mod Accepted
mod Verified
pub mod Release
mod Ready
mod Publication
mod Published
mod PublicationTests
mod Tests
use coding_agent_reliability.Base.{
  ℕ, suc, ◌-◌, Bool, true, false, not, ◌&&◌, Option, none, some, List, [], ◌∷◌, ◌++◌, map, String,
  string_eq, nat_eq, int_eq, ◌==◌, ℤ, pos, leb_ℤ, if◌then◌else◌, Result, ok, err, Error, length,
  dedup, insert, traverse,
}
use coding_agent_reliability.Base.Document.{
  Json, null, bool, int, text, array, object, Items, items, Fields, end, field, get, find, as_int,
  json_eq,
}
use coding_agent_reliability.Base.Errors.{◌>>=◌, map_ok}
use coding_agent_reliability.Base.Sorting.{sort_by_id, sorted_texts}
use coding_agent_reliability.Evaluation.Manifest.{str_of, is_bool}
use Prim.Native.String.{◌++◌ as joined}

-- What reading a file's bytes as JSON gives: a value, a JSONDecodeError or OSError, or any other
-- exception, as a UnicodeDecodeError or a RecursionError.
pub data Loaded : Type 0 where
  parsed : Json → Loaded
  malformed : Loaded
  raised : Error → Loaded

-- What the gate calls: the files below the root, `hashlib`, `json`, and the commands that it runs,
-- `git show` of an argument, with its exit status and output, and the verifier at a path. A file that
-- is there may be unreadable, and a command may fail to start.
pub record Repository : Type 0 where
  pub is_file : String → Bool
  pub read_bytes : String → Result (List ℕ)
  pub hexdigest : List ℕ → String
  pub loads : List ℕ → Loaded
  pub git_show : String → Result (ℤ × List ℕ)
  pub run_verifier : String → Result ℤ

-- `_git_blob`
abbrev pub blob_of : ℤ × List ℕ → Option (List ℕ)
blob_of (status, stdout) = if status == pos 0 then some stdout else none

abbrev pub git_blob : Repository → String → String → Result (Option (List ℕ))
git_blob repo commit path = map_ok blob_of (repo.git_show (joined commit (joined ":" path)))

-- `_sha256`
abbrev pub sha256_of : Repository → String → Result String
sha256_of repo path = map_ok repo.hexdigest (repo.read_bytes path)

-- Two blocks that append to one list, one after the other.
abbrev pub both {ℓ} : {A : Type ℓ} → Result (List A) → Result (List A) → Result (List A)
both first second = first >>= λ xs. second >>= λ ys. ok (xs ++ ys)

-- `checks[name] = passed`, with `errors.append(error)` where it is False.
pub record Check : Type 0 where
  pub name : String
  pub passed : Bool
  pub error : String

abbrev pub check : String → Bool → String → Check
check name passed error = record { name = name; passed = passed; error = error }

abbrev pub labelled : String → String → String
labelled label suffix = joined label suffix

-- The check with `_check_blob_identity`, of the payload of the pinned blob.
abbrev pub blob_check : Repository → String → String → Option (List ℕ) → Check
blob_check repo label expected none =
    check (labelled label "_pinned_commit_sha256_matches") false
      (labelled label "_pinned_git_blob_missing")
blob_check repo label expected (some payload) =
    check (labelled label "_pinned_commit_sha256_matches") (repo.hexdigest payload == expected)
      (labelled label "_pinned_git_blob_sha256_mismatch")

pub record SourceResult : Type 0 where
  pub source_id : String
  pub passed : Bool
  pub checks : List (String × Bool)
  pub errors : List String

-- The errors in the order in which they are appended.
unfoldable pub errors_of : List Check → List String
errors_of [] = []
errors_of (c ∷ cs) = let rest = errors_of cs in if c.passed then rest else c.error ∷ rest

abbrev pub is_empty {ℓ} : {A : Type ℓ} → List A → Bool
is_empty [] = true
is_empty (x ∷ xs) = false

put_checks : List (String × Bool) → List Check → List (String × Bool)
put_checks checks [] = checks
put_checks checks (c ∷ cs) = put_checks (insert c.name c.passed checks) cs

-- The dictionary at the end of `evaluate_source`.
unfoldable pub source_result : String → List Check → SourceResult
unfolding errors_of put_checks insert sort_by_id sorted_texts dedup
source_result source_id checks = record {
  source_id = source_id;
  passed = is_empty (errors_of checks);
  checks = sort_by_id (put_checks [] checks);
  errors = sorted_texts (dedup (errors_of checks));
}

-- `isinstance(item, dict) and item.get("passed") is True`
abbrev pub gate_passes : Json → Bool
gate_passes (object item) = is_bool true (get "passed" item)
gate_passes _ = false

unfoldable pub gates_pass : Fields → Bool
gates_pass end = true
gates_pass (field name gate gates) = gate_passes gate && gates_pass gates

-- `isinstance(gates, dict) and bool(gates) and all(...)`
abbrev pub frozen_gates_pass : Json → Bool
frozen_gates_pass (object (field name gate gates)) = gate_passes gate && gates_pass gates
frozen_gates_pass _ = false

-- `count_ok`, for the three values where they are integers.
abbrev pub runs_satisfied : Option ℤ → Option ℤ → Option ℤ → Bool
runs_satisfied (some required) (some recorded) (some minimum) =
    leb_ℤ minimum required && recorded == required
runs_satisfied _ _ _ = false

abbrev pub reproduction_checks : Fields → Json → List Check
reproduction_checks criteria (object reproduction) =
    check "reproduction_object_present" true "reproduction_missing"
    ∷ check "source_independent_runs_satisfied"
        (runs_satisfied (as_int (get "independent_runs_required" reproduction))
          (as_int (get "independent_runs_recorded" reproduction))
          (as_int (get "minimum_source_independent_runs" criteria)))
        "source_independent_runs_not_satisfied"
    ∷ check "source_normalized_output_byte_identical"
        (is_bool true (get "normalized_output_byte_identical" reproduction))
        "source_normalized_output_not_byte_identical"
    ∷ []
reproduction_checks criteria _ =
    check "reproduction_object_present" false "reproduction_missing" ∷ []

-- One of the `expected_pairs`.
abbrev pub pair_check : String → Fields → String → Fields → Check
pair_check key result expected source =
    check (joined "result_" (joined key "_matches"))
      (json_eq (get key result) (get expected source)) (joined "result_" (joined key "_mismatch"))

-- The checks of the result document.
abbrev pub document_checks : Fields → Fields → Fields → List Check
document_checks source criteria result =
    check "result_json_valid" true "result_json_invalid"
    ∷ pair_check "schema_version" result "result_schema_version" source
    ∷ pair_check "protocol_id" result "protocol_id" source
    ∷ pair_check "freeze_commit_sha" result "freeze_commit_sha" source
    ∷ pair_check "protocol_sha256" result "protocol_sha256" source
    ∷ check "source_disposition_passes"
        (json_eq (get "aggregate_disposition" result) (get "required_source_disposition" criteria))
        "source_disposition_not_release_ready"
    ∷ check "all_frozen_source_gates_pass" (frozen_gates_pass (get "frozen_gates" result))
        "frozen_source_gate_failure"
    ∷ reproduction_checks criteria (get "reproduction" result)

unfoldable pub result_checks : Fields → Fields → Option Fields → List Check
unfolding json_eq gates_pass
result_checks source criteria none = check "result_json_valid" false "result_json_invalid" ∷ []
result_checks source criteria (some result) = document_checks source criteria result

-- `str(source.get("id", "unknown"))`, where `repr` gives the text of a value that is no text.
abbrev pub source_id_of : (Json → String) → Option Json → String
source_id_of repr none = "unknown"
source_id_of repr (some v) = str_of repr v

-- `isinstance(value, str) and value`
abbrev pub nonempty_text : Json → Option String
nonempty_text (text value) = if value == "" then none else some value
nonempty_text _ = none

-- The checks of an identity whose file exists, with the digest and the blob that were read.
abbrev pub digest_checks : Repository → String → String → String → Option (List ℕ) → List Check
digest_checks repo label expected current blob =
    check (labelled label "_present") true (labelled label "_missing")
    ∷ check (labelled label "_current_sha256_matches") (current == expected)
        (labelled label "_current_sha256_mismatch")
    ∷ blob_check repo label expected blob
    ∷ []

abbrev pub file_checks : Repository → String → String → String → String → Result (List Check)
file_checks repo label commit path expected = sha256_of repo path >>= λ current.
    git_blob repo commit path >>= λ blob. ok (digest_checks repo label expected current blob)

abbrev pub complete_checks :
    Repository → String → Option String → Option String → Option String → Result (List Check)
complete_checks repo label (some commit) (some path) (some expected) =
    if repo.is_file path
    then file_checks repo label commit path expected
    else ok (check (labelled label "_present") false (labelled label "_missing") ∷ [])
complete_checks repo label _ _ _ =
    ok (
      check (labelled label "_identity_complete") false (labelled label "_identity_incomplete")
      ∷ [])

-- A round of the loop over `identities`.
unfoldable pub identity_checks : Repository → String → Json → Json → Json → Result (List Check)
identity_checks repo label commit path expected =
    complete_checks repo label (nonempty_text commit) (nonempty_text path) (nonempty_text expected)

abbrev pub loaded_result : Loaded → Result (Option Fields)
loaded_result (parsed (object result)) = ok (some result)
loaded_result (parsed _) = ok none
loaded_result malformed = ok none
-- The handler catches JSONDecodeError and OSError alone.
loaded_result (raised error) = err error

-- What the handler sees of the read and of the reader.
abbrev pub loaded_of : (List ℕ → Loaded) → Result (List ℕ) → Loaded
loaded_of loads (ok bytes) = loads bytes
loaded_of loads (err Error.os_error) = malformed
loaded_of loads (err error) = raised error

-- `result`, read from the file at `result_path`.
unfoldable pub read_result : Repository → Json → Result (Option Fields)
read_result repo (text path) =
    if repo.is_file path
    then loaded_result (loaded_of repo.loads (repo.read_bytes path))
    else ok none
read_result repo _ = ok none

-- `verifier_ok`
abbrev pub verifier_passes : Repository → Json → Result Bool
verifier_passes repo (text path) =
    if repo.is_file path
    then map_ok (λ status. status == pos 0) (repo.run_verifier path)
    else ok false
verifier_passes repo _ = ok false

-- The loop over `identities`: the frozen protocol, the result and its verifier.
unfoldable pub source_identities : Repository → Fields → Result (List Check)
unfolding identity_checks
source_identities repo source =
    both
      (identity_checks repo "protocol" (get "freeze_commit_sha" source) (get "protocol_path" source)
        (get "protocol_sha256" source))
      (both
        (identity_checks repo "result" (get "result_commit_sha" source) (get "result_path" source)
          (get "result_sha256" source))
        (identity_checks repo "result_verifier" (get "result_commit_sha" source)
          (get "result_verifier_path" source) (get "result_verifier_sha256" source)))

-- All checks, in the order of the code, with the result that was read and what the verifier gave.
unfoldable pub source_checks : Fields → Fields → List Check → Option Fields → Bool → List Check
unfolding result_checks
source_checks source criteria identities result verified =
    identities
    ++ (result_checks source criteria result
        ++ check "source_result_verifier_passes" verified "source_result_verifier_failed" ∷ [])

unfoldable pub evaluate_source :
    Repository → (Json → String) → Fields → Fields → Result SourceResult
unfolding source_identities read_result
evaluate_source repo repr criteria source = source_identities repo source >>= λ identities.
    read_result repo (get "result_path" source) >>= λ result.
    verifier_passes repo (get "result_verifier_path" source) >>= λ verified. ok (
      source_result (source_id_of repr (find "id" source))
        (source_checks source criteria identities result verified))
