-- ===== src/Evaluation/Summary.antt =====
-- What the summary says of the results.
use coding_agent_reliability.Base.{
  ◌≤◌, ◌≡◌, refl, Bool, true, List, [], ◌∷◌, arith, ◌==◌, nat_eq, ok, length, ◌&&◌, ◌||◌, not,
}
use coding_agent_reliability.Evaluation.{
  ScenarioResult, Metrics, count, is_passed, is_true, safety_applies, convergence_applies,
  fail_closed_applies, metrics_of, summarize_results,
}

-- A test holds for each result.
unfoldable pub all_of : (ScenarioResult → Bool) → List ScenarioResult → Bool
all_of test [] = true
all_of test (result ∷ results) = test result && all_of test results

count-length :
    (test : ScenarioResult → Bool) (results : List ScenarioResult)
    → count test results ≤ length results
unfolding count
count-length test [] = omega arith
count-length test (result ∷ results) = ground (arith, count-length test results)

all_of-count :
    (test : ScenarioResult → Bool) (results : List ScenarioResult)
    → (count test results == length results) ≡ all_of test results
unfolding count all_of
all_of-count test [] = ground arith
all_of-count test (result ∷ results) =
    ground (arith, all_of-count test results, count-length test results)

module _ (f g : ScenarioResult → Bool) where
  count-both : (results : List ScenarioResult) → count (λ r. f r && g r) results ≤ count f results
  unfolding count
  count-both [] = omega arith
  count-both (result ∷ results) = ground (arith, count-both results)

  -- As many results have both as have the first when each result with the first has the second.
  all_of-both :
      (results : List ScenarioResult)
      → (count (λ r. f r && g r) results == count f results)
        ≡ all_of (λ r. not (f r) || g r) results
  unfolding count all_of
  all_of-both [] = ground arith
  all_of-both (result ∷ results) = ground (arith, all_of-both results, count-both results)

-- The summary of a run: `all_scenarios_passed` says that every result passed; for safety, convergence
-- and closed failure, as many results passed as it applied to exactly when each result that it applied
-- to passed it, and never more.
pub summary_counts_results :
    (results : List ScenarioResult) (m : Metrics)
    → summarize_results results ≡ ok m
    → (m.all_scenarios_passed ≡ all_of is_passed results)
      × (m.scenario_count ≡ length results)
      × ((m.safety_passed == m.safety_applicable)
          ≡ all_of (λ r. not r.safety_applicable || is_true r.safety_passed) results)
      × ((m.convergence_passed == m.convergence_applicable)
          ≡ all_of (λ r. not r.convergence_applicable || is_true r.convergence_passed) results)
      × ((m.fail_closed_passed == m.fail_closed_applicable)
          ≡ all_of (λ r. not r.fail_closed_applicable || is_true r.fail_closed_passed) results)
      × (m.safety_passed ≤ m.safety_applicable)
      × (m.convergence_passed ≤ m.convergence_applicable)
      × (m.fail_closed_passed ≤ m.fail_closed_applicable)
unfolding summarize_results
summary_counts_results [] m h = absurd (ground arith)
summary_counts_results (result ∷ results) m h = facts (result ∷ results) m (ground arith)
  where
    facts :
        (all : List ScenarioResult) (m : Metrics)
        → m ≡ metrics_of all
        → (m.all_scenarios_passed ≡ all_of is_passed all)
          × (m.scenario_count ≡ length all)
          × ((m.safety_passed == m.safety_applicable)
              ≡ all_of (λ r. not r.safety_applicable || is_true r.safety_passed) all)
          × ((m.convergence_passed == m.convergence_applicable)
              ≡ all_of (λ r. not r.convergence_applicable || is_true r.convergence_passed) all)
          × ((m.fail_closed_passed == m.fail_closed_applicable)
              ≡ all_of (λ r. not r.fail_closed_applicable || is_true r.fail_closed_passed) all)
          × (m.safety_passed ≤ m.safety_applicable)
          × (m.convergence_passed ≤ m.convergence_applicable)
          × (m.fail_closed_passed ≤ m.fail_closed_applicable)
    facts all m e = rw e (
      all_of-count is_passed all,
      refl,
      all_of-both safety_applies (λ r. is_true r.safety_passed) all,
      all_of-both convergence_applies (λ r. is_true r.convergence_passed) all,
      all_of-both fail_closed_applies (λ r. is_true r.fail_closed_passed) all,
      count-both safety_applies (λ r. is_true r.safety_passed) all,
      count-both convergence_applies (λ r. is_true r.convergence_passed) all,
      count-both fail_closed_applies (λ r. is_true r.fail_closed_passed) all,
    )
