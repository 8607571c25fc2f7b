-- ===== src/ReleaseGate/Published.antt =====
-- What a publication without errors says.
use coding_agent_reliability.Base.{
  ℕ, ◌≡◌, refl, ◌∙◌, ap, ==-eq, Bool, true, false, ◌&&◌, List, [], ◌∷◌, ◌++◌, String, string_eq,
  number_list_eq, int_eq, ◌==◌, pos, ok, arith, length, subst, if◌then◌else◌, Option, none, some,
  Result,
}
use coding_agent_reliability.Base.Document.{
  Json, bool, int, array, object, items, Items, Fields, get, find, json_eq, count_items,
}
use coding_agent_reliability.Base.Errors.{>>=-eq-ok, ok-injective}
use coding_agent_reliability.Base.Messages.{unless, ++-nothing, unless-nothing}
use coding_agent_reliability.Evaluation.Manifest.{is_bool-eq}
use coding_agent_reliability.ReleaseGate.{Loaded, parsed, malformed, raised}
use coding_agent_reliability.ReleaseGate.Publication.{
  p_sha, e_sha, v_sha, subscript, found_at, as_fields, truthy, normalized_of, first_loaded,
  mismatches, all_clean, clean_source, sources_of, size_of, clean_sources, derived_count,
  metrics_under, derived_ready, run_errors, result_errors, ready_errors, validate, reproduction_of,
  expected_values,
}

-- Each source of a ready run has passed and lists no errors.
pub AllClean : List Json → Type 0
AllClean [] = Unit
AllClean (v ∷ vs) =
    ((s : Fields) × (v ≡ object s)
      × (get "passed" s ≡ bool true)
      × (truthy (get "errors" s) ≡ false))
    × AllClean vs

all_clean-AllClean : (vs : List Json) → all_clean vs ≡ ok true → AllClean vs
unfolding all_clean AllClean
all_clean-AllClean [] h = tt
all_clean-AllClean (object s ∷ vs) h =
    let (clean, rest) = parts (clean_source s) refl h in
    ((s, refl, is_bool-eq true _ (ground arith), ground arith), all_clean-AllClean vs rest)
  where
    parts :
        (b : Bool)
        → clean_source s ≡ b
        → (if b then all_clean vs else ok false) ≡ ok true
        → (clean_source s ≡ true) × (all_clean vs ≡ ok true)
    parts true is_b h = (is_b, h)
    parts false is_b h = cc
all_clean-AllClean (_ ∷ vs) h = cc

-- The number of sources is the frozen one, and each of them is clean.
pub record HasCleanSources (protocol normalized : Fields) : Type 0 where
  pub criteria : Json
  pub required : Json
  pub sources : Items
  pub has_criteria : find "release_criteria" protocol ≡ some criteria
  pub has_required : subscript "required_source_count" criteria ≡ ok required
  pub has_sources : sources_of (get "source_results" normalized) ≡ array sources
  pub counted : json_eq (int (pos (count_items sources))) required ≡ true
  pub each : AllClean (items sources)

found_at-some : (o : Option Json) (v : Json) → found_at o ≡ ok v → o ≡ some v
found_at-some none v h = cc
found_at-some (some w) v h = ap some (ok-injective h)

derived_count-true :
    (protocol normalized : Fields)
    → derived_count protocol (sources_of (get "source_results" normalized)) ≡ ok true
    → HasCleanSources protocol normalized
unfolding derived_count
derived_count-true protocol normalized h =
    let (size, sized, rest) =
      >>=-eq-ok (size_of (sources_of (get "source_results" normalized))) _ h in
    let (criteria, has_criteria, rest) =
      >>=-eq-ok (found_at (find "release_criteria" protocol)) _ rest in
    let (required, has_required, rest) =
      >>=-eq-ok (subscript "required_source_count" criteria) _ rest in
    let (equal, clean) = parts (json_eq (int (pos size)) required) refl rest in
    let (sources, has_sources, counts, all) =
      listed (sources_of (get "source_results" normalized)) size sized clean in
    record {
      criteria = criteria;
      required = required;
      sources = sources;
      has_criteria = found_at-some _ criteria has_criteria;
      has_required = has_required;
      has_sources = has_sources;
      counted = ap (λ n. json_eq (int (pos n)) required) counts ∙ equal;
      each = all_clean-AllClean (items sources) all;
    }
  where
    parts :
        {r : Result Bool} (b : Bool) {c : Bool}
        → c ≡ b
        → (if c then r else ok false) ≡ ok true
        → (c ≡ true) × (r ≡ ok true)
    parts true is_b h = ground arith
    parts false is_b h = ground arith

    listed :
        (v : Json) (size : ℕ)
        → size_of v ≡ ok size
        → clean_sources v ≡ ok true
        → (vs : Items) × (v ≡ array vs) × (count_items vs ≡ size) × (all_clean (items vs) ≡ ok true)
    listed (array vs) size sized clean = (vs, refl, ok-injective sized, clean)
    listed _ size sized clean = cc

derived_ready-true :
    (protocol normalized : Fields)
    → derived_ready protocol normalized ≡ ok true
    → HasCleanSources protocol normalized
unfolding derived_ready
derived_ready-true protocol normalized h =
    let (metrics, has_metrics, rest) =
      >>=-eq-ok (as_fields (metrics_under (find "metrics" normalized))) _ h in
    derived_count-true protocol normalized
      (second (truthy (get "required_source_count_satisfied" metrics)) rest)
  where
    second : {r : Result Bool} (b : Bool) → (if b then r else ok false) ≡ ok true → r ≡ ok true
    second true h = h
    second false h = cc

same_ready :
    (v : Json) (b : Bool) → json_eq v (bool true) ≡ true → json_eq v (bool b) ≡ true → b ≡ true
unfolding json_eq
same_ready v true t e = refl
same_ready (bool true) false t e = ground arith
same_ready (bool false) false t e = ground arith
same_ready (int n) false t e = ground (arith, ==-eq n (pos 1), ==-eq n (pos 0))
same_ready _ false t e = cc

normalized_of-parsed :
    (l : Loaded) (run : Json × List String)
    → normalized_of l ≡ ok run
    → run.1 ≡ []
    → l ≡ parsed run.0
normalized_of-parsed (parsed v) run h none_left = ap (λ r. parsed r.0) (ok-injective h)
normalized_of-parsed malformed run h none_left =
    let same = ap (λ r. r.1) (ok-injective h) ∙ none_left in cc
normalized_of-parsed (raised error) run h none_left = cc

as_fields-object : (v : Json) (fs : Fields) → as_fields v ≡ ok fs → v ≡ object fs
as_fields-object (object gs) fs h = ap object (ok-injective h)
as_fields-object _ fs h = cc

loaded_object :
    (l : Loaded) (run : Json × List String) (fs : Fields)
    → normalized_of l ≡ ok run
    → as_fields run.0 ≡ ok fs
    → run.1 ≡ []
    → l ≡ parsed (object fs)
loaded_object l run fs has_run fields none_left =
    normalized_of-parsed l run has_run none_left ∙ ap parsed (as_fields-object run.0 fs fields)

-- A derived readiness that matches a published one that says ready has clean sources.
published_clean :
    (protocol normalized : Fields) (published : Json) (derived : Bool)
    → derived_ready protocol normalized ≡ ok derived
    → ready_errors derived normalized ≡ []
    → json_eq published (get "release_ready" normalized) ≡ true
    → json_eq published (bool true) ≡ true
    → HasCleanSources protocol normalized
published_clean protocol normalized published derived has_derived none_left same ready =
    let is_derived = is_bool-eq derived _ (unless-nothing _ _ none_left) in
    let is_true =
      same_ready published derived ready
        (subst (λ v. json_eq published v ≡ true) is_derived same) in
    derived_ready-true protocol normalized (has_derived ∙ ap ok is_true)

run_errors-parts :
    (files : Bool) (required : Json) (must_equal : Bool) (runs : List (List ℕ))
    → run_errors files required must_equal runs ≡ []
    → (files ≡ true) × (json_eq (int (pos (length runs))) required ≡ true)
run_errors-parts files required must_equal runs h =
    let (rest, of_equal) = ++-nothing _ _ h in
    let (of_files, of_count) = ++-nothing _ _ rest in
    (unless-nothing _ _ of_files, unless-nothing _ _ of_count)

mismatches-cons :
    (results : Fields) (k : String) (v : Json) (expected : List (String × Json))
    → mismatches results ((k, v) ∷ expected) ≡ []
    → (json_eq (get k results) v ≡ true) × (mismatches results expected ≡ [])
unfolding mismatches
mismatches-cons results k v expected h =
    let (first, rest) = ++-nothing (unless (json_eq (get k results) v) _) _ h in
    (unless-nothing _ _ first, rest)

module _ (hexdigest : List ℕ → String) (loads : List ℕ → Loaded) where
  -- What a published release rests on.
  pub record IsPublished (protocol_sha evidence_sha evaluator_sha : String)
      (protocol results : Fields) (runs : List (List ℕ)) : Type 0 where
    pub execution : Json
    pub required : Json
    pub normalized : Fields
    pub has_execution : find "execution" protocol ≡ some execution
    pub has_required : subscript "independent_runs_required" execution ≡ ok required
    pub run_count : json_eq (int (pos (length runs))) required ≡ true
    pub loaded : first_loaded loads runs ≡ parsed (object normalized)
    pub same_protocol : protocol_sha ≡ p_sha
    pub same_evidence : evidence_sha ≡ e_sha
    pub same_evaluator : evaluator_sha ≡ v_sha
    pub reproduced :
        json_eq (get "reproduction" results) (reproduction_of hexdigest required runs) ≡ true
    pub clean : HasCleanSources protocol normalized

  three :
      (a b c d e f : String) → (a == b && (c == d && e == f)) ≡ true → (a ≡ b) × (c ≡ d) × (e ≡ f)
  three a b c d e f h =
      (==-eq a b (ground arith), ==-eq c d (ground arith), ==-eq e f (ground arith))

  ready_matches :
      (protocol_id boundary : Json) (normalized results : Fields)
      → mismatches results (expected_values protocol_id boundary normalized) ≡ []
      → json_eq (get "release_ready" results) (get "release_ready" normalized) ≡ true
  ready_matches protocol_id boundary normalized results h =
      let (schema, rest) = mismatches-cons results _ _ _ h in
      let (id, rest) = mismatches-cons results _ _ _ rest in
      let (commit, rest) = mismatches-cons results _ _ _ rest in
      let (protocol, rest) = mismatches-cons results _ _ _ rest in
      let (evidence, rest) = mismatches-cons results _ _ _ rest in
      let (evaluator, rest) = mismatches-cons results _ _ _ rest in
      (mismatches-cons results _ _ _ rest).0

  result_errors-parts :
      (required protocol_id boundary : Json) (normalized results : Fields) (runs : List (List ℕ))
      → result_errors hexdigest required
          (expected_values protocol_id boundary normalized)
          results
          runs
        ≡ []
      → (json_eq (get "release_ready" results) (get "release_ready" normalized) ≡ true)
        × (json_eq (get "reproduction" results) (reproduction_of hexdigest required runs) ≡ true)
  unfolding result_errors
  result_errors-parts required protocol_id boundary normalized results runs h =
      let (rest, artifacts) =
        ++-nothing
          (mismatches results (expected_values protocol_id boundary normalized)
            ++ unless
                (json_eq (get "reproduction" results) (reproduction_of hexdigest required runs))
                "reproduction summary mismatch")
          _ h in
      let (rest, reproduced) =
        ++-nothing (mismatches results (expected_values protocol_id boundary normalized)) _ rest in
      (ready_matches protocol_id boundary normalized results rest, unless-nothing _ _ reproduced)

  -- When `validate` returns no error for a publication that says ready for release, the three files have
  -- the frozen digests, the runs are as many as the protocol requires and are summarised as they are,
  -- the first run is an object, and its sources are as many as the protocol requires, each of them
  -- passed and without errors.
  pub validate-IsPublished :
      (protocol_sha evidence_sha evaluator_sha : String) (protocol results : Fields)
      (runs : List (List ℕ))
      → validate hexdigest loads protocol_sha evidence_sha evaluator_sha protocol results runs
        ≡ ok []
      → json_eq (get "release_ready" results) (bool true) ≡ true
      → IsPublished protocol_sha evidence_sha evaluator_sha protocol results runs
  unfolding validate
  validate-IsPublished protocol_sha evidence_sha evaluator_sha protocol results runs h ready =
      let (execution, has_execution, rest) = >>=-eq-ok (found_at (find "execution" protocol)) _ h in
      let (required, has_required, rest) =
        >>=-eq-ok (subscript "independent_runs_required" execution) _ rest in
      let (must_equal, has_must, rest) =
        >>=-eq-ok (subscript "normalized_output_byte_equal_required" execution) _ rest in
      let (run, has_run, rest) = >>=-eq-ok (normalized_of (first_loaded loads runs)) _ rest in
      let (id, has_id, rest) = >>=-eq-ok (found_at (find "protocol_id" protocol)) _ rest in
      let (normalized, has_normalized, rest) = >>=-eq-ok (as_fields run.0) _ rest in
      let (boundary, has_boundary, rest) =
        >>=-eq-ok (found_at (find "claim_boundary" protocol)) _ rest in
      let (derived, has_derived, rest) = >>=-eq-ok (derived_ready protocol normalized) _ rest in
      let (rest, of_ready) = ++-nothing _ (ready_errors derived normalized) (ok-injective rest) in
      let (rest, of_results) =
        ++-nothing _
          (result_errors hexdigest required (expected_values id boundary normalized) results runs)
          rest in
      let (of_runs, of_load) =
        ++-nothing (run_errors _ required (truthy must_equal) runs) run.1 rest in
      let (same_files, run_count) = run_errors-parts _ required (truthy must_equal) runs of_runs in
      let (same_ready_value, reproduced) =
        result_errors-parts required id boundary normalized results runs of_results in
      let files = three protocol_sha p_sha evidence_sha e_sha evaluator_sha v_sha same_files in
      record {
        execution = execution;
        required = required;
        normalized = normalized;
        has_execution = found_at-some _ execution has_execution;
        has_required = has_required;
        run_count = run_count;
        loaded = loaded_object _ run normalized has_run has_normalized of_load;
        same_protocol = files.0;
        same_evidence = files.1;
        same_evaluator = files.2;
        reproduced = reproduced;
        clean =
            published_clean protocol normalized (get "release_ready" results) derived has_derived
              of_ready same_ready_value ready;
      }
