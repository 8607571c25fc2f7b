-- ===== src/Evaluation/Report.antt =====
-- What the report of an evaluation says when there is one.
use coding_agent_reliability.Base.{
  ℕ, ◌≡◌, refl, sym, ◌∙◌, ap, ==-eq, nat_eq, string_eq, Bool, true, false, not, ◌||◌, Option, none,
  some, List, [], ◌∷◌, String, pos, ◌+ℤ◌, Result, ok, Error, arith,
}
use coding_agent_reliability.Base.Document.{
  Json, text, object, items, Fields, end, field, get, find, json_eq-text,
}
use coding_agent_reliability.Base.Errors.{>>=-eq-ok, ok-injective, raise_if, ◌>>◌}
use coding_agent_reliability.Evaluation.{
  ScenarioResult, Metrics, is_true, is_passed, sum_duplicates, summarize_results,
}
use coding_agent_reliability.Evaluation.Summary.{all_of, summary_counts_results}
use coding_agent_reliability.Evaluation.Manifest.{
  required, frozen_manifest_of, report_of, run_scenario_manifest, EvaluationReport, evaluate,
}
use coding_agent_reliability.Evaluation.Frozen.{
  Answers, AnswersAll, run_scenario_manifest-AnswersAll,
}

module _ (sha256 : List ℕ → String) (repr : Json → String) (test : ScenarioResult → Bool)
    (right : (v : Json) (r : ScenarioResult) → Answers repr v r → test r ≡ true) where
  all_of-AnswersAll :
      (vs : List Json) (rs : List ScenarioResult)
      → AnswersAll sha256 repr vs rs
      → all_of test rs ≡ true
  unfolding all_of
  all_of-AnswersAll [] [] h = refl
  all_of-AnswersAll [] (r ∷ rs) h = absurd h
  all_of-AnswersAll (v ∷ vs) [] h = absurd h
  all_of-AnswersAll (v ∷ vs) (r ∷ rs) h = rw (right v r h.0, all_of-AnswersAll vs rs h.1) refl

module _ (sha256 : List ℕ → String) (repr : Json → String) where
  sum_duplicates-AnswersAll :
      (vs : List Json) (rs : List ScenarioResult)
      → AnswersAll sha256 repr vs rs
      → sum_duplicates rs ≡ pos 0
  unfolding sum_duplicates ◌+ℤ◌
  sum_duplicates-AnswersAll [] [] h = refl
  sum_duplicates-AnswersAll [] (r ∷ rs) h = absurd h
  sum_duplicates-AnswersAll (v ∷ vs) [] h = absurd h
  sum_duplicates-AnswersAll (v ∷ vs) (r ∷ rs) h =
      rw (sum_duplicates-AnswersAll vs rs h.1, own v r h.0) refl
    where
      own :
          (v : Json) (r : ScenarioResult) → Answers repr v r → r.duplicate_effect_violations ≡ pos 0
      own v r a =
          ap (λ x. x.duplicate_effect_violations) (ok-injective a.passed.returned)
          ∙ a.passed.unduplicated

  -- All gates of the summary are passed.
  pub record IsPerfect (m : Metrics) : Type 0 where
    pub all_passed : m.all_scenarios_passed ≡ true
    pub safe : m.safety_passed ≡ m.safety_applicable
    pub converged : m.convergence_passed ≡ m.convergence_applicable
    pub failed_closed : m.fail_closed_passed ≡ m.fail_closed_applicable
    pub unduplicated : m.duplicate_effect_violations ≡ pos 0

  right_passed : (v : Json) (r : ScenarioResult) → Answers repr v r → is_passed r ≡ true
  right_passed v r a = ap (λ x. x.passed) (ok-injective a.passed.returned) ∙ a.passed.passed

  right_safe :
      (v : Json) (r : ScenarioResult)
      → Answers repr v r
      → (not r.safety_applicable || is_true r.safety_passed) ≡ true
  right_safe v r a = rw (ok-injective a.passed.returned) (ground (arith, a.passed.safe))

  right_converged :
      (v : Json) (r : ScenarioResult)
      → Answers repr v r
      → (not r.convergence_applicable || is_true r.convergence_passed) ≡ true
  right_converged v r a = rw (ok-injective a.passed.returned) (ground (arith, a.passed.converged))

  right_failed_closed :
      (v : Json) (r : ScenarioResult)
      → Answers repr v r
      → (not r.fail_closed_applicable || is_true r.fail_closed_passed) ≡ true
  right_failed_closed v r a =
      rw (ok-injective a.passed.returned) (ground (arith, a.passed.failed_closed))

  summary-IsPerfect :
      (vs : List Json) (rs : List ScenarioResult) (m : Metrics)
      → AnswersAll sha256 repr vs rs
      → summarize_results rs ≡ ok m
      → IsPerfect m
  unfolding summarize_results
  summary-IsPerfect vs rs m h summary =
      let counts = summary_counts_results rs m summary in
      record {
        all_passed = counts.0 ∙ all_of-AnswersAll sha256 repr is_passed right_passed vs rs h;
        safe = ==-eq _ _ (counts.2 ∙ all_of-AnswersAll sha256 repr _ right_safe vs rs h);
        converged = ==-eq _ _ (counts.3 ∙ all_of-AnswersAll sha256 repr _ right_converged vs rs h);
        failed_closed =
            ==-eq _ _ (counts.4 ∙ all_of-AnswersAll sha256 repr _ right_failed_closed vs rs h);
        unduplicated = duplicates rs m summary ∙ sum_duplicates-AnswersAll vs rs h;
      }
    where
      duplicates :
          (rs : List ScenarioResult) (m : Metrics)
          → summarize_results rs ≡ ok m
          → m.duplicate_effect_violations ≡ sum_duplicates rs
      duplicates [] m e = cc
      duplicates (r ∷ rs) m e = ap (λ x. x.duplicate_effect_violations) (sym (ok-injective e))

get-find : (key : String) (fs : Fields) (v : Json) → find key fs ≡ some v → get key fs ≡ v
unfolding get find
get-find key end v h = cc
get-find key (field k x fs) v h = ground (arith, get-find key fs v)

required-eq-ok : (o : Option Json) (v : Json) → required o ≡ ok v → o ≡ some v
required-eq-ok none v h = cc
required-eq-ok (some x) v h = ap some (ok-injective h)

-- A test that raises has been passed where the block returns.
raise_if-passed :
    (b : Bool) (e : Error) (next : Result EvaluationReport) (r : EvaluationReport)
    → (raise_if (not b) e >> next) ≡ ok r
    → (b ≡ true) × (next ≡ ok r)
raise_if-passed true e next r h = (refl, h)
raise_if-passed false e next r h = cc

frozen_manifest_of-object :
    (v : Json) (frozen : Fields) → frozen_manifest_of v ≡ ok frozen → v ≡ object frozen
frozen_manifest_of-object (object fs) frozen h = ap object (ok-injective h)
frozen_manifest_of-object _ frozen h = cc

report_of-parts :
    (protocol frozen : Fields) (results : List ScenarioResult) (report : EvaluationReport)
    → report_of protocol frozen results ≡ ok report
    → (summarize_results results ≡ ok report.metrics)
      × (report.scenario_results ≡ results)
      × (report.scenario_manifest_sha256 ≡ get "sha256" frozen)
unfolding report_of
report_of-parts protocol frozen results report h =
    let (metrics, summary, rest) = >>=-eq-ok (summarize_results results) _ h in
    let (protocol_id, has_id, rest) = >>=-eq-ok (required (find "protocol_id" protocol)) _ rest in
    let (digest, has_digest, rest) = >>=-eq-ok (required (find "sha256" frozen)) _ rest in
    let (boundary, has_boundary, built) =
      >>=-eq-ok (required (find "claim_boundary" protocol)) _ rest in
    (
      summary ∙ ap (λ x. ok x.metrics) (ok-injective built),
      ap (λ x. x.scenario_results) (sym (ok-injective built)),
      ap (λ x. x.scenario_manifest_sha256) (sym (ok-injective built))
          ∙ sym (get-find "sha256" frozen digest (required-eq-ok _ digest has_digest)),
    )

module _ (sha256 : List ℕ → String) (repr : Json → String) (hexdigest : List ℕ → String)
    (loads : List ℕ → Result Fields) where
  -- What a report rests on: the frozen protocol, the scenario manifest with the frozen digest, and its run.
  pub record IsGrounded (protocol_file scenario_file : List ℕ) (report : EvaluationReport)
      : Type 0 where
    pub protocol : Fields
    pub manifest : Fields
    pub protocol_read : loads protocol_file ≡ ok protocol
    pub manifest_read : loads scenario_file ≡ ok manifest
    pub frozen : get "status" protocol ≡ text "frozen_unexecuted"
    pub identity : Fields
    pub has_identity : get "scenario_manifest" protocol ≡ object identity
    pub frozen_digest : get "sha256" identity ≡ text (hexdigest scenario_file)
    pub same_digest : report.scenario_manifest_sha256 ≡ text (hexdigest scenario_file)
    pub ran : run_scenario_manifest sha256 repr manifest ≡ ok report.scenario_results
    pub perfect : IsPerfect sha256 repr report.metrics

  -- When `evaluate` returns a report, the protocol has the status frozen_unexecuted, the
  -- digest that its scenario_manifest freezes is that of the scenario file, the report has the same
  -- digest, the results are those of its manifest, and the metrics say that
  -- every scenario passed, in safety, convergence and closed failure wherever these apply, without a
  -- duplicate effect.
  pub evaluate-IsGrounded :
      (protocol_file scenario_file : List ℕ) (report : EvaluationReport)
      → evaluate sha256 repr hexdigest loads protocol_file scenario_file ≡ ok report
      → IsGrounded protocol_file scenario_file report
  unfolding evaluate
  evaluate-IsGrounded protocol_file scenario_file report h =
      let (protocol, protocol_read, rest) = >>=-eq-ok (loads protocol_file) _ h in
      let (manifest, manifest_read, rest) = >>=-eq-ok (loads scenario_file) _ rest in
      let (is_frozen, rest) = raise_if-passed _ _ _ report rest in
      let (frozen, has_frozen, rest) =
        >>=-eq-ok (frozen_manifest_of (get "scenario_manifest" protocol)) _ rest in
      let (same, rest) = raise_if-passed _ _ _ report rest in
      let (results, ran, reported) =
        >>=-eq-ok (run_scenario_manifest sha256 repr manifest) _ rest in
      let (summary, own_results, own_digest) =
        report_of-parts protocol frozen results report reported in
      let (scenarios, listed, answers) =
        run_scenario_manifest-AnswersAll sha256 repr manifest results ran in
      record {
        protocol = protocol;
        manifest = manifest;
        protocol_read = protocol_read;
        manifest_read = manifest_read;
        frozen = json_eq-text (get "status" protocol) "frozen_unexecuted" is_frozen;
        identity = frozen;
        has_identity = frozen_manifest_of-object _ frozen has_frozen;
        frozen_digest = json_eq-text (get "sha256" frozen) (hexdigest scenario_file) same;
        same_digest =
            own_digest ∙ json_eq-text (get "sha256" frozen) (hexdigest scenario_file) same;
        ran = ran ∙ ap ok (sym own_results);
        perfect =
            summary-IsPerfect sha256 repr (items scenarios) results report.metrics answers summary;
      }
