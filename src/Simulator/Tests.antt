-- ===== src/Simulator/Tests.antt =====
-- Runs of the reducer on the streams of tests/test_stale_child_events.py and
-- tests/test_ambiguous_terminal_states.py, and the theorems at concrete inputs.
use coding_agent_reliability.Base.{
  ℕ, ◌≡◌, refl, true, false, List, [], ◌∷◌, String, int_eq, pos, ok, err, Error, map_ok, some,
  Increasing, arith, if◌then◌else◌, String-discrete, ℤ-discrete, int_list_discrete, ℕ_discrete,
}
use coding_agent_reliability.Events.{
  Event, EventKind, output, completed, failed, EventKind-discrete,
}
use coding_agent_reliability.Simulator.{
  RunState, naive, scoped, initial, apply_event, apply_events, replay, sequences,
}
use coding_agent_reliability.Simulator.Terminal.{are_harmless, ignore_all, apply_events-terminal}
use coding_agent_reliability.Simulator.Scope.{own_events, forget_ignored, apply_events-own_events}
use coding_agent_reliability.Simulator.Accounting.{replay_disordered}

abbrev event : ℕ → String → EventKind → String → Event
event n run kind payload = record {
  sequence = pos n;
  run_id = run;
  turn_id = "turn";
  kind = kind;
  payload = payload;
}

abbrev parent : RunState
parent = initial "parent" "turn"

-- A child completes between two events of its parent.
abbrev stream : List Event
stream =
    event 1 "parent" output "partial"
    ∷ event 2 "child" completed "child-final"
    ∷ event 3 "parent" completed "parent-final"
    ∷ []

abbrev finished : RunState
finished = record {
  active_run_id = "parent";
  active_turn_id = "turn";
  output = "parent-final";
  terminal = true;
  failed = false;
  accepted_events = pos 1 ∷ pos 3 ∷ [];
  ignored_events = pos 2 ∷ [];
  terminal_kind = some completed;
  terminal_payload = "parent-final";
}

replay_stale_child : replay stream parent scoped ≡ ok (record { mode = scoped; state = finished })
unfolding replay String-discrete int_list_discrete EventKind-discrete ℤ-discrete ℕ_discrete
replay_stale_child = refl

run_stale_child : apply_events stream parent scoped ≡ ok finished
unfolding apply_events apply_event String-discrete EventKind-discrete
run_stale_child = refl

abbrev conflict : List Event
conflict =
    event 4 "child" failed "x"
    ∷ event 5 "parent" completed "parent-final"
    ∷ event 6 "parent" failed "late"
    ∷ []

apply_events-terminal_example : apply_events conflict finished scoped ≡ (
    if are_harmless finished conflict
    then ok (ignore_all finished conflict)
    else err Error.terminal_state_conflict)
apply_events-terminal_example = apply_events-terminal finished conflict refl

late_failure_conflicts : apply_events conflict finished scoped ≡ err Error.terminal_state_conflict
unfolding apply_events apply_event String-discrete EventKind-discrete
late_failure_conflicts = refl

apply_events-own_events_example :
    map_ok forget_ignored (apply_events stream parent scoped)
    ≡ map_ok forget_ignored (apply_events (own_events parent stream) parent scoped)
apply_events-own_events_example = apply_events-own_events parent stream

abbrev swapped : List Event
swapped = event 2 "parent" output "b" ∷ event 1 "parent" output "a" ∷ []

swapped_disordered : ¬ Increasing (sequences swapped)
swapped_disordered h = omega arith

refuses_disorder : replay swapped parent naive ≡ err Error.value_error
refuses_disorder = replay_disordered swapped parent naive swapped_disordered
