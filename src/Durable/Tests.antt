-- ===== src/Durable/Tests.antt =====
-- The crash windows of tests/test_durable_sandbox.py, and the theorems there.
use coding_agent_reliability.Base.{
  ◌≡◌, ◌≢◌, refl, true, false, Option, none, some, [], ◌∷◌, String, string_eq, ==-ne, Result, ok,
  err, Error, lookup, insert, String-discrete, text_pair_discrete, inr,
}
use coding_agent_reliability.Durable.{
  LocalOperation, new_operation, Decision, approved, denied, supported, OperationRow, Sandbox,
  Stage, after_effect, after_commit, Decision-discrete, decision_eq, request, decide, execute,
  read_notes,
}
use coding_agent_reliability.Durable.Consistent.{
  IsConsistent, empty, IsConsistent-empty, IsReady, with_effect, call_request, call_decide,
  call_execute, run_calls, run_calls-IsConsistent,
}
use coding_agent_reliability.Durable.Crash.{calm, execute_twice, attempts, attempts_converge}
use coding_agent_reliability.Durable.Binding.{changed_operation_refused, decision_repeats}

abbrev note : LocalOperation
note = record { operation_id = "op-1"; tool = "record_note"; payload = "safe" }

abbrev changed : LocalOperation
changed = record note { payload = "other" }

abbrev row : Option Decision → OperationRow
row decision = record {
  tool = "record_note";
  payload = "safe";
  decision = decision;
  completed = false;
}

abbrev stored : Option Decision → Sandbox
stored decision = record { operations = ("op-1", row decision) ∷ []; notes = [] }

-- The process ends at one stage.
abbrev ends_after_effect : Stage → Result (Unit {0})
ends_after_effect after_effect = err Error.process_exit
ends_after_effect _ = ok tt

abbrev ends_after_commit : Stage → Result (Unit {0})
ends_after_commit after_commit = err Error.process_exit
ends_after_commit _ = ok tt

note-valid : new_operation "op-1" "record_note" "safe" ≡ ok note
unfolding new_operation
note-valid = refl

found : (d : Option Decision) → lookup "op-1" (stored d).operations ≡ some (row d)
unfolding lookup String-discrete
found d = refl

ready : IsReady note (row (some approved)) (stored (some approved))
unfolding lookup
ready = record {
  found = found (some approved);
  tool = refl;
  payload = refl;
  decision = refl;
  open_ = refl;
  no_note = refl;
}

lifecycle_runs :
    (execute calm note (decide note (supported approved) (request note empty).1).1).0 ≡ ok true
unfolding execute decide request lookup insert String-discrete text_pair_discrete
lifecycle_runs = refl

crash_loses_effect :
    execute ends_after_effect note (stored (some approved))
    ≡ (err Error.process_exit, stored (some approved))
unfolding execute lookup insert String-discrete text_pair_discrete
crash_loses_effect = refl

one_note :
    read_notes (with_effect note (row (some approved)) (stored (some approved)))
    ≡ ("op-1", "safe") ∷ []
unfolding read_notes
one_note = refl

run_calls-IsConsistent_example : IsConsistent (
    run_calls
      (call_request note
        ∷ call_decide note (supported approved)
        ∷ call_execute ends_after_effect note
        ∷ call_execute ends_after_commit note
        ∷ [])
      empty)
run_calls-IsConsistent_example =
    run_calls-IsConsistent
      (call_request note
        ∷ call_decide note (supported approved)
        ∷ call_execute ends_after_effect note
        ∷ call_execute ends_after_commit note
        ∷ [])
      empty IsConsistent-empty

execute_twice_example :
    (execute calm note (stored (some approved))
      ≡ (ok true, with_effect note (row (some approved)) (stored (some approved))))
    × (execute ends_after_effect note (execute calm note (stored (some approved))).1
        ≡ (ok false, (execute calm note (stored (some approved))).1))
execute_twice_example =
    execute_twice note (row (some approved)) (stored (some approved)) ends_after_effect ready

attempts_converge_example :
    (execute calm note
      (attempts (ends_after_effect ∷ ends_after_commit ∷ []) note (stored (some approved)))).1
    ≡ with_effect note (row (some approved)) (stored (some approved))
attempts_converge_example =
    attempts_converge (ends_after_effect ∷ ends_after_commit ∷ []) note (row (some approved))
      (stored (some approved)) ready

other_payload : ◌≢◌ {A = String} "safe" "other"
unfolding String-discrete
other_payload = ==-ne "safe" "other" refl

changed_operation_refused_example :
    (request changed (stored none) ≡ (err Error.idempotency_conflict, stored none))
    × (decide changed (supported approved) (stored none)
        ≡ (err Error.idempotency_conflict, stored none))
    × (execute calm changed (stored none) ≡ (err Error.idempotency_conflict, stored none))
changed_operation_refused_example =
    changed_operation_refused changed (row none) (stored none) approved calm (found none)
      (inr other_payload)

approved_not_denied : approved ≢ denied
unfolding Decision-discrete
approved_not_denied = ==-ne approved denied refl

approves_twice :
    ((decide note (supported denied) (stored (some denied))).0 ≡ ok tt)
    × (lookup "op-1" (decide note (supported denied) (stored (some denied))).1.operations
        ≡ lookup "op-1" (stored (some denied)).operations)
approves_twice =
    decision_repeats note (row (some denied)) (stored (some denied)) denied "op-1"
      (found (some denied)) refl refl refl

denied_not_approved : ◌≢◌ {A = Option Decision} (some denied) (some approved)
denied_not_approved h = cc
