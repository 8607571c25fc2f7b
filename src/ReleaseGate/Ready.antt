-- ===== src/ReleaseGate/Ready.antt =====
-- What a ready release rests on.
use coding_agent_reliability.Base.{
  ℕ, ◌≡◌, refl, sym, ◌∙◌, ap, ==-eq, nat_eq, string_eq, int_eq, true, false, Option, none, some,
  List, [], ◌∷◌, String, ℤ, pos, subst, ok, arith, length, ◌≢◌, suc, ◌≤◌,
}
use coding_agent_reliability.Base.Document.{Json, array, object, items, Items, Fields, get, as_int}
use coding_agent_reliability.Base.Errors.{>>=-eq-ok, ok-injective, traverse-cons, traverse}
use coding_agent_reliability.ReleaseGate.{Repository, SourceResult, is_empty, evaluate_source}
use coding_agent_reliability.ReleaseGate.Release.{
  source_objects, count_passed, release_run, ReleaseRun, evaluate_manifest, count_satisfied,
  object_or_raise, array_or_raise,
}
use coding_agent_reliability.ReleaseGate.Verified.{IsVerified, evaluate_source-IsVerified}

count_passed_bound : (rs : List SourceResult) → count_passed rs ≤ length rs
unfolding count_passed length
count_passed_bound [] = omega arith
count_passed_bound (r ∷ rs) = ground (arith, count_passed_bound rs)

count_passed-all :
    (r : SourceResult) (rs : List SourceResult)
    → count_passed (r ∷ rs) ≡ length (r ∷ rs)
    → (r.passed ≡ true) × (count_passed rs ≡ length rs)
unfolding count_passed length
count_passed-all r rs h = ground (arith, count_passed_bound rs)

count_satisfied-some :
    (required : Option ℤ) (n : ℕ) → count_satisfied required n ≡ true → required ≡ some (pos n)
count_satisfied-some none n h = cc
count_satisfied-some (some m) n h = ap some (sym (==-eq _ _ h))

module _ (repo : Repository) (repr : Json → String) where
  pub AllVerified : Fields → List Fields → Type 0
  AllVerified criteria [] = Unit
  AllVerified criteria (source ∷ sources) =
      IsVerified repo repr criteria source × AllVerified criteria sources

  -- What a ready release rests on.
  pub record IsReady (protocol evidence : Fields) : Type 0 where
    pub criteria : Fields
    pub sources : Items
    pub has_criteria : get "release_criteria" protocol ≡ object criteria
    pub has_sources : get "sources" evidence ≡ array sources
    pub some_source : source_objects (items sources) ≢ []
    pub required :
        as_int (get "required_source_count" criteria)
        ≡ some (pos (length (source_objects (items sources))))
    pub each : AllVerified criteria (source_objects (items sources))

  traverse-AllVerified :
      (criteria : Fields) (sources : List Fields) (rs : List SourceResult)
      → traverse (evaluate_source repo repr criteria) sources ≡ ok rs
      → count_passed rs ≡ length rs
      → (length sources ≡ length rs) × AllVerified criteria sources
  unfolding traverse AllVerified length
  traverse-AllVerified criteria [] rs h counted = (ap length (ok-injective h), tt)
  traverse-AllVerified criteria (source ∷ sources) rs h counted =
      let (y, ys, first, rest, same) =
        traverse-cons (evaluate_source repo repr criteria) source sources h in
      let (passed, others) =
        count_passed-all y ys (subst (λ l. count_passed l ≡ length l) same counted) in
      let (as_many, each) = traverse-AllVerified criteria sources ys rest others in
      (
        ap suc as_many ∙ ap length (sym same),
        (evaluate_source-IsVerified repo repr criteria source y first passed, each),
      )

  object_or_raise-ok : (v : Json) (fs : Fields) → object_or_raise v ≡ ok fs → v ≡ object fs
  object_or_raise-ok (object fs) gs h = ap object (ok-injective h)
  object_or_raise-ok _ gs h = cc

  array_or_raise-ok :
      (v : Json) (vs : List Json)
      → array_or_raise v ≡ ok vs
      → (ws : Items) × (v ≡ array ws) × (items ws ≡ vs)
  array_or_raise-ok (array ws) vs h = (ws, refl, ok-injective h)
  array_or_raise-ok _ vs h = cc

  release_run-ready :
      (protocol evidence criteria : Fields) (results : List SourceResult)
      → (release_run protocol evidence criteria results).release_ready ≡ true
      → (as_int (get "required_source_count" criteria) ≡ some (pos (length results)))
        × (count_passed results ≡ length results)
        × (is_empty results ≡ false)
  unfolding release_run
  release_run-ready protocol evidence criteria results h =
      (count_satisfied-some _ _ (ground arith), ==-eq _ _ (ground arith), ground arith)

  no_results :
      (xs : List Fields) (rs : List SourceResult)
      → length xs ≡ length rs
      → is_empty rs ≡ false
      → xs ≢ []
  no_results [] [] same h = cc
  no_results [] (r ∷ rs) same h = omega arith
  no_results (x ∷ xs) rs same h = λ e. cc

  results-IsReady :
      (protocol evidence criteria : Fields) (sources : Items) (results : List SourceResult)
      → get "release_criteria" protocol ≡ object criteria
      → get "sources" evidence ≡ array sources
      → traverse (evaluate_source repo repr criteria) (source_objects (items sources)) ≡ ok results
      → (release_run protocol evidence criteria results).release_ready ≡ true
      → IsReady protocol evidence
  results-IsReady protocol evidence criteria sources results has_criteria has_sources ran ready =
      let (required, counted, nonempty) =
        release_run-ready protocol evidence criteria results ready in
      let (as_many, each) =
        traverse-AllVerified criteria (source_objects (items sources)) results ran counted in
      record {
        criteria = criteria;
        sources = sources;
        has_criteria = has_criteria;
        has_sources = has_sources;
        some_source = no_results _ results as_many nonempty;
        required = required ∙ ap (λ n. some (pos n)) (sym as_many);
        each = each;
      }

  -- When `evaluate_manifest` returns a run that is ready for release, the criteria are an object and
  -- the sources a list, with at least one object and as many as required, and each of them has its
  -- three files with the named digests, an accepted result and a verifier that returned 0.
  pub evaluate_manifest-IsReady :
      (protocol evidence : Fields) (run : ReleaseRun)
      → evaluate_manifest repo repr protocol evidence ≡ ok run
      → run.release_ready ≡ true
      → IsReady protocol evidence
  unfolding evaluate_manifest
  evaluate_manifest-IsReady protocol evidence run h ready =
      let (criteria, has_criteria, rest) =
        >>=-eq-ok (object_or_raise (get "release_criteria" protocol)) _ h in
      let (vs, has_vs, rest) = >>=-eq-ok (array_or_raise (get "sources" evidence)) _ rest in
      let (results, ran, same) =
        >>=-eq-ok (traverse (evaluate_source repo repr criteria) (source_objects vs)) _ rest in
      let (sources, has_sources, are_sources) = array_or_raise-ok _ vs has_vs in
      results-IsReady protocol evidence criteria sources results
        (object_or_raise-ok _ criteria has_criteria) has_sources
        (subst
          (λ ws. traverse (evaluate_source repo repr criteria) (source_objects ws) ≡ ok results)
          (sym are_sources) ran)
        (ap (λ x. x.release_ready) (ok-injective same) ∙ ready)
