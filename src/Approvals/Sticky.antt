-- ===== src/Approvals/Sticky.antt =====
-- A decision is never reversed: what was approved stays approved, and what was denied never runs.
use coding_agent_reliability.Base.{
  ◌≡◌, some, List, [], ◌∷◌, ◌++◌, arith, String, string_eq, text_pair_eq, ok, lookup, lookup-insert,
  >>=-eq-ok,
}
use coding_agent_reliability.Approvals.{
  ApprovalAction, approved, denied, execute, approval_action_eq, ApprovalEvent, Approvals,
  replay_event, replay_events,
}
use coding_agent_reliability.Approvals.History.{replay_events_split}

decision_stable :
    (s t : Approvals) (e : ApprovalEvent) (id : String) (a : ApprovalAction)
    → replay_event s e ≡ ok t
    → lookup id s.decisions ≡ some a
    → lookup id t.decisions ≡ some a
unfolding replay_event
decision_stable s t e id a h l = ground (
  arith,
  lookup-insert e.operation_id id approved s.decisions,
  lookup-insert e.operation_id id denied s.decisions,
)

-- A replay that returns keeps every decision that was taken before it.
pub decisions_stable :
    (es : List ApprovalEvent) (s t : Approvals) (id : String) (a : ApprovalAction)
    → replay_events es s ≡ ok t
    → lookup id s.decisions ≡ some a
    → lookup id t.decisions ≡ some a
unfolding replay_events
decisions_stable [] s t id a h l = ground arith
decisions_stable (e ∷ es) s t id a h l =
    let (s', step, rest) = >>=-eq-ok (replay_event s e) (λ r. replay_events es r) h in
    decisions_stable es s' t id a rest (decision_stable s s' e id a step l)

denial_recorded :
    (s t : Approvals) (d : ApprovalEvent)
    → d.action ≡ denied
    → replay_event s d ≡ ok t
    → lookup d.operation_id t.decisions ≡ some denied
unfolding replay_event
denial_recorded s t d x h =
    ground (arith, lookup-insert d.operation_id d.operation_id denied s.decisions)

denied_raises :
    (s t : Approvals) (e : ApprovalEvent)
    → e.action ≡ execute
    → lookup e.operation_id s.decisions ≡ some denied
    → ¬ (replay_event s e ≡ ok t)
unfolding replay_event
denied_raises s t e x l h = ground arith

-- No stream is replayed without an exception if it denies an operation and executes that operation
-- later, whatever else it holds before, between and after.
pub denied_never_runs :
    (before between after : List ApprovalEvent) (d e : ApprovalEvent) (s t : Approvals)
    → d.action ≡ denied
    → e.action ≡ execute
    → e.operation_id ≡ d.operation_id
    → ¬ (replay_events (before ++ d ∷ (between ++ e ∷ after)) s ≡ ok t)
denied_never_runs before between after d e s t is_denied runs same h =
    let (m, _, from_denial) = replay_events_split before (d ∷ (between ++ e ∷ after)) s t h in
    let (n, denial, from_between) =
      >>=-eq-ok (replay_event m d) (λ r. replay_events (between ++ e ∷ after) r) {b = t}
        (unfold replay_events in from_denial) in
    let (p, passed, from_execution) = replay_events_split between (e ∷ after) n t from_between in
    let (q, execution, _) =
      >>=-eq-ok (replay_event p e) (λ r. replay_events after r) {b = t}
        (unfold replay_events in from_execution) in
    denied_raises p q e runs
      (rw same (
        decisions_stable between n p d.operation_id denied passed
          (denial_recorded m n d is_denied denial)))
      execution
