-- ===== src/Approvals/Tests.antt =====
-- The lifecycles of tests/test_approval_interruptions.py, and the theorems there.
use coding_agent_reliability.Base.{
  ℕ, ◌≡◌, refl, true, List, [], ◌∷◌, ◌++◌, String, string_eq, pos, ok, err, Error, lookup, insert,
  contains, String-discrete, text_pair_discrete, int_list_discrete, ℤ-discrete, ℕ_discrete,
}
use coding_agent_reliability.Approvals.{
  ApprovalAction, requested, approved, denied, execute, ApprovalEvent, Approvals, no_approvals,
  ApprovalAction-discrete, replay_event, replay_events, replay_approval,
}
use coding_agent_reliability.Approvals.History.{occurs, execute_after_approval}
use coding_agent_reliability.Approvals.Sticky.{denied_never_runs}

abbrev event : ℕ → ApprovalAction → String → ApprovalEvent
event n action payload = record {
  sequence = pos n;
  action = action;
  operation_id = "write:plan";
  tool = "write_file";
  payload = payload;
}

abbrev before : List ApprovalEvent
before = event 1 requested "plan-v1" ∷ event 2 approved "plan-v1" ∷ []

abbrev lifecycle : List ApprovalEvent
lifecycle = before ++ event 3 execute "plan-v1" ∷ event 4 execute "plan-v1" ∷ []

abbrev done : Approvals
done = record {
  requests = ("write:plan", ("write_file", "plan-v1")) ∷ [];
  decisions = ("write:plan", approved) ∷ [];
  executed = "write:plan" ∷ [];
}

run_lifecycle : replay_events lifecycle no_approvals ≡ ok done
unfolding replay_events replay_event lookup insert contains String-discrete text_pair_discrete
    ApprovalAction-discrete
run_lifecycle = refl

changed_payload_conflicts :
    replay_approval (before ++ event 3 execute "plan-v2" ∷ []) ≡ err Error.approval_conflict
unfolding replay_approval String-discrete text_pair_discrete ApprovalAction-discrete
    int_list_discrete ℤ-discrete ℕ_discrete
changed_payload_conflicts = refl

execute_after_approval_example :
    (occurs requested "write:plan" ("write_file", "plan-v1") before ≡ true)
    × (occurs approved "write:plan" ("write_file", "plan-v1") before ≡ true)
execute_after_approval_example =
    execute_after_approval before (event 4 execute "plan-v1" ∷ []) (event 3 execute "plan-v1") done
      run_lifecycle refl

abbrev later : List ApprovalEvent
later = event 5 execute "plan-v1" ∷ []

run_later : replay_events later done ≡ ok done
unfolding replay_events replay_event lookup contains String-discrete text_pair_discrete
    ApprovalAction-discrete
run_later = refl

denied_never_runs_example : ¬ (
    replay_events
      ((event 1 requested "a" ∷ [])
        ++ event 2 denied "a" ∷ (event 3 requested "a" ∷ [])
        ++ event 4 execute "a" ∷ [])
      no_approvals
    ≡ ok done)
denied_never_runs_example =
    denied_never_runs (event 1 requested "a" ∷ []) (event 3 requested "a" ∷ []) []
      (event 2 denied "a") (event 4 execute "a") no_approvals done refl refl refl
