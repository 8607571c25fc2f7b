-- ===== src/Evaluation/Frozen.antt =====
-- What a run of a scenario manifest has shown when it returns.
use coding_agent_reliability.Base.{
  ℕ, ◌≡◌, refl, sym, ◌∙◌, ap, ==-eq, false, Option, none, some, List, [], ◌∷◌, String, string_eq,
  ◌==◌, Result, ok, err, Error, arith, lookup, All, traverse, traverse-cons, Bool-cases, inl, inr,
}
use coding_agent_reliability.Base.Document.{
  Json, null, bool, int, text, array, object, Items, items, Fields, get, find,
}
use coding_agent_reliability.Base.Errors.{some-injective, >>=-eq-ok, ok-injective}
use coding_agent_reliability.Evaluation.{ScenarioResult}
use coding_agent_reliability.Evaluation.Manifest.{
  text_under, is_bool-eq, misses_applicability, check_result, call, scenario_runners, run_scenario,
  run_scenarios, run_scenario_manifest,
}
use coding_agent_reliability.Evaluation.Passing.{Passes, scenario_runners-pass}

-- A result that answers a fixture: it has the fixture's id, it applies to what the fixture requires, and
-- it is what the runner that the fixture names returns, which has passed.
pub record Answers (repr : Json → String) (v : Json) (r : ScenarioResult) : Type 0 where
  pub fixture : Fields
  pub is_fixture : v ≡ object fixture
  pub same_id : r.scenario_id ≡ text_under repr (find "id" fixture)
  pub same_runner : r.scenario_id ≡ text_under repr (find "runner" fixture)
  pub safety : get "safety_required" fixture ≡ bool r.safety_applicable
  pub convergence : get "convergence_required" fixture ≡ bool r.convergence_applicable
  pub fail_closed : get "fail_closed_required" fixture ≡ bool r.fail_closed_applicable
  pub passed : Passes (text_under repr (find "runner" fixture)) (ok r)

pub lookup-All :
    (P : String → Result ScenarioResult → Type 0) (name : String)
    (entries : List (String × Result ScenarioResult)) (run : Result ScenarioResult)
    → All (λ (e : String × Result ScenarioResult). P e.0 e.1) entries
    → lookup name entries ≡ some run
    → P name run
unfolding lookup
lookup-All P name [] run h found = cc
lookup-All P name ((other, first) ∷ entries) run h found = elim (Bool-cases (other == name)) [
  | inl same ↦ rw (← ==-eq other name same, ← some-injective (rw same at found)) h.0
  | inr apart ↦ lookup-All P name entries run h.1 (rw apart at found)
]

check_result-eq-ok :
    (repr : Json → String) (fixture : Fields) (result r : ScenarioResult)
    → check_result repr fixture result ≡ ok r
    → (r ≡ result)
      × (result.scenario_id ≡ text_under repr (find "id" fixture))
      × (misses_applicability fixture result ≡ false)
unfolding check_result
check_result-eq-ok repr fixture result r h =
    elim (Bool-cases (result.scenario_id == text_under repr (find "id" fixture))) [
      | inl same ↦ elim (Bool-cases (misses_applicability fixture result)) [
        | inl misses ↦ absurd (failed (rw (same, misses) at h))
        | inr fits ↦ (sym (ok-injective (rw (same, fits) at h)), ==-eq _ _ same, fits)
      ]
      | inr other ↦ absurd (failed (rw other at h))
    ]
  where
    failed : err Error.runtime_error ≡ ok r → ⊥
    failed e = cc

fits_all :
    (fixture : Fields) (r : ScenarioResult)
    → misses_applicability fixture r ≡ false
    → (get "safety_required" fixture ≡ bool r.safety_applicable)
      × (get "convergence_required" fixture ≡ bool r.convergence_applicable)
      × (get "fail_closed_required" fixture ≡ bool r.fail_closed_applicable)
unfolding misses_applicability
fits_all fixture r h = (
  is_bool-eq r.safety_applicable (get "safety_required" fixture) (ground arith),
  is_bool-eq r.convergence_applicable (get "convergence_required" fixture) (ground arith),
  is_bool-eq r.fail_closed_applicable (get "fail_closed_required" fixture) (ground arith),
)

call-eq-ok :
    (o : Option (Result ScenarioResult)) (r : ScenarioResult) → call o ≡ ok r → o ≡ some (ok r)
call-eq-ok none r h = cc
call-eq-ok (some run) r h = ap some h

module _ (sha256 : List ℕ → String) (repr : Json → String) where
  run_scenario-Answers :
      (v : Json) (r : ScenarioResult) → run_scenario sha256 repr v ≡ ok r → Answers repr v r
  unfolding run_scenario
  run_scenario-Answers (object fixture) r h =
      let (result, called, checked) =
        >>=-eq-ok
          (call (lookup (text_under repr (find "runner" fixture)) (scenario_runners sha256))) _ h in
      let (same, same_id, fits) = check_result-eq-ok repr fixture result r checked in
      let passes =
        lookup-All Passes _ (scenario_runners sha256) (ok result) (scenario_runners-pass sha256)
          (call-eq-ok _ result called) in
      let (safety, convergence, fail_closed) = fits_all fixture result fits in
      rw same (record {
        fixture = fixture;
        is_fixture = refl;
        same_id = same_id;
        same_runner = ap (λ x. x.scenario_id) (ok-injective passes.returned) ∙ passes.named;
        safety = safety;
        convergence = convergence;
        fail_closed = fail_closed;
        passed = passes;
      })
  run_scenario-Answers _ r h = cc

  -- The results answer the fixtures one by one.
  abbrev pub AnswersAll : List Json → List ScenarioResult → Type 0
  AnswersAll [] [] = Unit
  AnswersAll (v ∷ vs) (r ∷ rs) = Answers repr v r × AnswersAll vs rs
  AnswersAll _ _ = ⊥

  traverse-AnswersAll :
      (vs : List Json) (rs : List ScenarioResult)
      → traverse (run_scenario sha256 repr) vs ≡ ok rs
      → AnswersAll vs rs
  unfolding traverse
  traverse-AnswersAll [] [] h = tt
  traverse-AnswersAll [] (r ∷ rs) h = cc
  traverse-AnswersAll (v ∷ vs) rs h =
      let (y, ys, first, rest, same) = traverse-cons (run_scenario sha256 repr) v vs h in
      rw same (run_scenario-Answers v y first, traverse-AnswersAll vs ys rest)

  -- When the run of a manifest returns, its scenarios are a list, and the results answer its fixtures one
  -- by one and in order: each has the id of its fixture, applies to exactly what the fixture requires, and
  -- comes from the runner that the fixture names, with everything that applies passed and no duplicate
  -- effect.
  pub run_scenario_manifest-AnswersAll :
      (manifest : Fields) (results : List ScenarioResult)
      → run_scenario_manifest sha256 repr manifest ≡ ok results
      → (scenarios : Items) × (get "scenarios" manifest ≡ array scenarios)
        × AnswersAll (items scenarios) results
  unfolding run_scenario_manifest
  run_scenario_manifest-AnswersAll manifest results h = by_value (get "scenarios" manifest) refl h
    where
      by_value :
          (v : Json)
          → get "scenarios" manifest ≡ v
          → run_scenarios sha256 repr v ≡ ok results
          → (scenarios : Items) × (get "scenarios" manifest ≡ array scenarios)
            × AnswersAll (items scenarios) results
      by_value (array scenarios) e ran =
          (scenarios, e, traverse-AnswersAll (items scenarios) results ran)
      by_value null e ran = cc
      by_value (bool b) e ran = cc
      by_value (int n) e ran = cc
      by_value (text t) e ran = cc
      by_value (object fs) e ran = cc
