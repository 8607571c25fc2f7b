-- ===== src/Protocols/Runners.antt =====
-- What the verifier of the reliability protocol establishes of a run.
use coding_agent_reliability.Base.{
  ℕ, ◌≤◌, ◌≡◌, refl, sym, ◌∙◌, ap, Bool, true, false, some, List, [], ◌∷◌, String, string_eq,
  texts_eq, nat_eq, String-discrete, ==-eq, ==_refl, ◌==◌, Result, ok, err, Error, arith, length,
  lookup, All, if◌then◌else◌,
}
use coding_agent_reliability.Base.Errors.{raise_if, ◌>>◌}
use coding_agent_reliability.Base.Messages.{gather-nothing, unless-nothing}
use coding_agent_reliability.Base.Document.{
  Json, null, array, object, Items, Fields, end, field, get, find, items,
}
use coding_agent_reliability.Evaluation.{ScenarioResult}
use coding_agent_reliability.Evaluation.Manifest.{
  str_of, text_under, scenario_runners, run_scenario, check_result, misses_applicability,
}
use coding_agent_reliability.Evaluation.Passing.{Passes, scenario_runners-pass}
use coding_agent_reliability.Evaluation.Frozen.{lookup-All}
use coding_agent_reliability.Protocols.{texts_under}
use coding_agent_reliability.Protocols.Fixtures.{expected_scenario_ids, fixture_errors, validate}

texts_under_bound :
    (repr : Json → String) (key : String) (vs : List Json)
    → length (texts_under repr key vs) ≤ length vs
unfolding texts_under length
texts_under_bound repr key [] = omega arith
texts_under_bound repr key (object item ∷ vs) = omega (arith, texts_under_bound repr key vs)
texts_under_bound repr key (_ ∷ vs) = omega (arith, texts_under_bound repr key vs)

module _ (repr : Json → String) (none_text : repr null ≡ "None") where
  -- A text other than "None" is the text of a value that is there.
  text_found :
      (key : String) (fs : Fields) (n : String)
      → str_of repr (get key fs) ≡ n
      → (n == "None") ≡ false
      → text_under repr (find key fs) ≡ n
  unfolding get find
  text_found key end n h named = ground (arith, none_text)
  text_found key (field k v fs) n h named = ground (arith, text_found key fs n)

  check_result_named :
      (fixture : Fields) (result : ScenarioResult) (n : String)
      → result.scenario_id ≡ n
      → text_under repr (find "id" fixture) ≡ n
      → check_result repr fixture result
        ≡ (if misses_applicability fixture result then err Error.runtime_error else ok result)
  unfolding check_result
  check_result_named fixture result n named id =
      rw (equal _ _ (named ∙ sym id)) (of_flag (misses_applicability fixture result))
    where
      equal : (a b : String) → a ≡ b → (a == b) ≡ true
      equal a b same = rw same (==_refl b)

      of_flag :
          (b : Bool)
          → (raise_if b Error.runtime_error >> ok result)
            ≡ (if b then err Error.runtime_error else ok result)
      of_flag true = refl
      of_flag false = refl

  module _ (sha256 : List ℕ → String) where
    -- A name with a runner in the table, which is not the text of None.
    abbrev HasRunner : String → Type 0
    HasRunner n =
        ((run : Result ScenarioResult) × (lookup n (scenario_runners sha256) ≡ some run))
        × ((n == "None") ≡ false)

    -- A fixture whose run has the named runner's passing result, and fails only where the fixture
    -- requires other tests than those that the result applies to.
    pub record RunsAs (v : Json) (name : String) : Type 0 where
      pub fixture : Fields
      pub result : ScenarioResult
      pub is_fixture : v ≡ object fixture
      pub passes : Passes name (ok result)
      pub runs :
          run_scenario sha256 repr v
          ≡ (if misses_applicability fixture result then err Error.runtime_error else ok result)

    pub AllRunAs : List Json → List String → Type 0
    AllRunAs [] [] = Unit
    AllRunAs (v ∷ vs) (n ∷ ns) = RunsAs v n × AllRunAs vs ns
    AllRunAs _ _ = ⊥

    fixture_runs :
        (fixture : Fields) (n : String)
        → HasRunner n
        → text_under repr (find "id" fixture) ≡ n
        → text_under repr (find "runner" fixture) ≡ n
        → RunsAs (object fixture) n
    unfolding run_scenario
    fixture_runs fixture n has id runner =
        let p : Passes n has.0.0 =
          lookup-All Passes n (scenario_runners sha256) has.0.0 (scenario_runners-pass sha256)
            has.0.1 in
        record {
          fixture = fixture;
          result = p.result;
          is_fixture = refl;
          passes = rw (← p.returned) p;
          runs =
              rw (runner, has.0.1, p.returned) (check_result_named fixture p.result n p.named id);
        }

    fixtures_run :
        (vs : List Json) (ns : List String)
        → All HasRunner ns
        → texts_under repr "id" vs ≡ ns
        → texts_under repr "runner" vs ≡ ns
        → length vs ≡ length ns
        → AllRunAs vs ns
    unfolding texts_under AllRunAs
    fixtures_run [] [] has ids runners same = tt
    fixtures_run [] (n ∷ ns) has ids runners same = omega arith
    fixtures_run (object fixture ∷ vs) [] has ids runners same = omega arith
    fixtures_run (object fixture ∷ vs) (n ∷ ns) has ids runners same =
        let (id, other_ids) = heads ids in
        let (runner, other_runners) = heads runners in
        (
          fixture_runs fixture n has.0 (text_found "id" fixture n id has.0.1)
              (text_found "runner" fixture n runner has.0.1),
          fixtures_run vs ns has.1 other_ids other_runners (omega arith),
        )
      where
        heads : {a b : String} {as_ bs : List String} → a ∷ as_ ≡ b ∷ bs → (a ≡ b) × (as_ ≡ bs)
        heads h = (cc, cc)
    fixtures_run (_ ∷ vs) ns has ids runners same =
        absurd (omega (arith, texts_under_bound repr "id" vs, ap length ids))

    expected_ids_run : All HasRunner expected_scenario_ids
    unfolding lookup String-discrete
    expected_ids_run = (
      ((_, refl), refl),
      (
        ((_, refl), refl),
        (
          ((_, refl), refl),
          (
            ((_, refl), refl),
            (
              ((_, refl), refl),
              (
                ((_, refl), refl),
                (
                  ((_, refl), refl),
                  (
                    ((_, refl), refl),
                    (((_, refl), refl), (((_, refl), refl), (((_, refl), refl), tt))),
                  ),
                ),
              ),
            ),
          ),
        ),
      ),
    )

    fixture_errors-nothing :
        (v : Json)
        → fixture_errors repr v ≡ []
        → (vs : Items) × (v ≡ array vs) × AllRunAs (items vs) expected_scenario_ids
    unfolding fixture_errors
    fixture_errors-nothing (array vs) h =
        let (ids, rest) = gather-nothing _ _ h in
        let (runners, rest) = gather-nothing _ _ rest in
        let (count, rest) = gather-nothing _ _ rest in
        (
          vs,
          refl,
          fixtures_run (items vs) expected_scenario_ids expected_ids_run
              (==-eq _ _ (unless-nothing _ _ ids)) (==-eq _ _ (unless-nothing _ _ runners))
              (==-eq _ _ (unless-nothing _ _ count)),
        )
    fixture_errors-nothing _ h = cc

    -- When `validate` of the reliability protocol finds no error, the scenarios are a list of objects,
    -- one for each frozen id in the frozen order. A run of each calls the runner of that name, which
    -- returns a passing result, and raises only where the fixture requires other tests than those that
    -- the result applies to. The text of None is assumed to be "None".
    pub validate-AllRunAs :
        (protocol scenarios : Fields) (results_exist : Bool)
        → validate repr protocol scenarios results_exist ≡ []
        → (vs : Items) × (get "scenarios" scenarios ≡ array vs)
          × AllRunAs (items vs) expected_scenario_ids
    unfolding validate
    validate-AllRunAs protocol scenarios results_exist h =
        let (values, rest) = gather-nothing _ _ h in
        let (manifest, rest) = gather-nothing _ _ rest in
        let (controls, rest) = gather-nothing _ _ rest in
        let (absent, rest) = gather-nothing _ _ rest in
        let (versions, rest) = gather-nothing _ _ rest in
        fixture_errors-nothing (get "scenarios" scenarios) (gather-nothing _ _ rest).0
