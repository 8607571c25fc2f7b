-- ===== src/Evaluation/Tests.antt =====
-- Two results, one of which fails, and their summary.
use coding_agent_reliability.Base.{
  ◌≡◌, refl, true, false, none, some, List, [], ◌∷◌, nat_eq, ℕ_discrete, pos, ok,
}
use coding_agent_reliability.Evaluation.{
  ScenarioResult, Metrics, new_result, metrics_of, summarize_results,
}

abbrev results : List ScenarioResult
unfolding new_result
results =
    new_result "stale_child" true (some true) (some true) none (pos 0) "ignored"
    ∷ new_result "lost_ack" false (some false) none (some true) (pos 1) "duplicate"
    ∷ []

abbrev metrics : Metrics
unfolding metrics_of
metrics = metrics_of results

summarized : summarize_results results ≡ ok metrics
unfolding summarize_results results
summarized = refl

counts :
    (metrics.scenario_passed ≡ 1)
    × (metrics.all_scenarios_passed ≡ false)
    × (metrics.convergence_pass_rate ≡ (1, 1))
unfolding metrics_of results ℕ_discrete
counts = (refl, refl, refl)
