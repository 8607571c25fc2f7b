-- ===== src/Approvals/History.antt =====
-- What the past events of a stream justify: every execution has an earlier request and an earlier
-- approval of the same operation, tool and payload.
use coding_agent_reliability.Base.{
  ◌≡◌, refl, Bool, true, false, ◌&&◌, ◌||◌, some, List, [], ◌∷◌, ◌++◌, append_assoc, append-nil,
  arith, String, ◌==◌, string_eq, text_pair_eq, ok, lookup, lookup-insert, contains,
  contains-append, >>=-eq-ok, Option-cases, inl, inr, ◌⊎◌, subst,
}
use coding_agent_reliability.Approvals.{
  ApprovalAction, requested, approved, denied, execute, approval_action_eq, ApprovalEvent,
  Approvals, no_approvals, identity, replay_event, replay_events,
}

-- The stream has an event with this action, operation, tool and payload.
unfoldable pub occurs : ApprovalAction → String → String × String → List ApprovalEvent → Bool
occurs a id i [] = false
occurs a id i (e ∷ es) =
    (e.action == a && e.operation_id == id && identity e == i) || occurs a id i es

occurs-append :
    (a : ApprovalAction) (id : String) (i : String × String) (es fs : List ApprovalEvent)
    → occurs a id i (es ++ fs) ≡ (occurs a id i es || occurs a id i fs)
unfolding occurs
occurs-append a id i [] fs = refl
occurs-append a id i (e ∷ es) fs = ground (arith, occurs-append a id i es fs)

abbrev is_decision : ApprovalAction → Bool
is_decision approved = true
is_decision denied = true
is_decision _ = false

-- What the state after the events `past` holds is justified by them.
pub record Justified (past : List ApprovalEvent) (s : Approvals) : Type 0 where
  pub bound :
      (id : String) (i : String × String)
      → lookup id s.requests ≡ some i
      → occurs requested id i past ≡ true
  pub decision :
      (id : String) (a : ApprovalAction)
      → lookup id s.decisions ≡ some a
      → (i : String × String) × (lookup id s.requests ≡ some i) × (occurs a id i past ≡ true)
  pub legal :
      (id : String) (a : ApprovalAction) → lookup id s.decisions ≡ some a → is_decision a ≡ true
  pub run : (id : String) → contains id s.executed ≡ true → lookup id s.decisions ≡ some approved

module _ (past : List ApprovalEvent) (s t : Approvals) (e : ApprovalEvent)
    (h : replay_event s e ≡ ok t) (j : Justified past s) where
  bound_step :
      (id : String) (i : String × String)
      → lookup id t.requests ≡ some i
      → occurs requested id i (past ++ e ∷ []) ≡ true
  unfolding replay_event occurs
  bound_step id i l =
      rw (occurs-append requested id i past (e ∷ []))
        (ground (arith, j.bound id i, lookup-insert e.operation_id id (identity e) s.requests))

  legal_step :
      (id : String) (a : ApprovalAction) → lookup id t.decisions ≡ some a → is_decision a ≡ true
  unfolding replay_event
  legal_step id a l = ground (
    arith,
    j.legal id a,
    lookup-insert e.operation_id id approved s.decisions,
    lookup-insert e.operation_id id denied s.decisions,
  )

  run_step : (id : String) → contains id t.executed ≡ true → lookup id t.decisions ≡ some approved
  unfolding replay_event contains
  run_step id l = elim (Option-cases (lookup e.operation_id s.decisions)) [
    | inl undecided ↦ ground (
      arith,
      j.run id,
      undecided,
      lookup-insert e.operation_id id approved s.decisions,
      lookup-insert e.operation_id id denied s.decisions,
    )
    | inr (a, known) ↦ ground (
      arith,
      j.run id,
      known,
      j.legal e.operation_id a known,
      lookup-insert e.operation_id id approved s.decisions,
      lookup-insert e.operation_id id denied s.decisions,
      contains-append id s.executed (e.operation_id ∷ []),
    )
  ]

  -- what was requested stays bound
  bound_stable :
      (id : String) (i : String × String)
      → lookup id s.requests ≡ some i
      → lookup id t.requests ≡ some i
  unfolding replay_event
  bound_stable id i l = ground (arith, lookup-insert e.operation_id id (identity e) s.requests)

  -- a decision is an old one, or the event's
  decided_now :
      (id : String) (a : ApprovalAction)
      → lookup id t.decisions ≡ some a
      → ((e.operation_id ≡ id) × (e.action ≡ a)) ⊎ (lookup id s.decisions ≡ some a)
  unfolding replay_event
  decided_now id a l = ground (
    arith,
    lookup-insert e.operation_id id approved s.decisions,
    lookup-insert e.operation_id id denied s.decisions,
  )

  -- an event that passes is about what was requested
  request_matches : lookup e.operation_id t.requests ≡ some (identity e)
  unfolding replay_event
  request_matches =
      ground (arith, lookup-insert e.operation_id e.operation_id (identity e) s.requests)

  decision_step :
      (id : String) (a : ApprovalAction)
      → lookup id t.decisions ≡ some a
      → (i : String × String) × (lookup id t.requests ≡ some i)
        × (occurs a id i (past ++ e ∷ []) ≡ true)
  unfolding occurs
  decision_step id a l = elim (decided_now id a l) [
    | inl (same_id, same_action) ↦ (
      identity e,
      rw (← same_id) request_matches,
      rw (occurs-append a id (identity e) past (e ∷ [])) (ground arith),
    )
    | inr before ↦
        let (i, bound, seen) = j.decision id a before in
        (i, bound_stable id i bound, rw (occurs-append a id i past (e ∷ [])) (ground arith))
  ]

  Justified-step : Justified (past ++ e ∷ []) t
  Justified-step = record {
    bound = bound_step;
    decision = decision_step;
    legal = legal_step;
    run = run_step;
  }

Justified-empty : Justified [] no_approvals
unfolding lookup contains
Justified-empty = record {
  bound = λ id i h. cc;
  decision = λ id a h. cc;
  legal = λ id a h. cc;
  run = λ id h. cc;
}

pub Justified-replay_events :
    (es past : List ApprovalEvent) (s t : Approvals)
    → Justified past s
    → replay_events es s ≡ ok t
    → Justified (past ++ es) t
unfolding replay_events
Justified-replay_events [] past s t j h = rw append-nil (subst (Justified past) (cc) j)
Justified-replay_events (e ∷ es) past s t j h =
    let (s', step, rest) = >>=-eq-ok (replay_event s e) (λ r. replay_events es r) h in
    rw (← append_assoc past (e ∷ []) es)
      (Justified-replay_events es (past ++ e ∷ []) s' t (Justified-step past s s' e step j) rest)

-- After a replay that returns, every executed operation was requested by an event of the stream and
-- approved by an event of the stream, both with one and the same tool and payload, and its decision
-- is the approval.
pub executed-approved :
    (es : List ApprovalEvent) (s : Approvals) (id : String)
    → replay_events es no_approvals ≡ ok s
    → contains id s.executed ≡ true
    → (i : String × String) × (occurs requested id i es ≡ true)
      × (occurs approved id i es ≡ true)
      × (lookup id s.decisions ≡ some approved)
executed-approved es s id h x =
    let j = Justified-replay_events es [] no_approvals s Justified-empty h in
    let yes_ = j.run id x in
    let (i, bound, seen) = j.decision id approved yes_ in (i, j.bound id i bound, seen, yes_)

execute_needs :
    (s t : Approvals) (e : ApprovalEvent)
    → e.action ≡ execute
    → replay_event s e ≡ ok t
    → ((a : ApprovalAction) → lookup e.operation_id s.decisions ≡ some a → is_decision a ≡ true)
    → (lookup e.operation_id s.requests ≡ some (identity e))
      × (lookup e.operation_id s.decisions ≡ some approved)
unfolding replay_event
execute_needs s t e x h legal = elim (Option-cases (lookup e.operation_id s.decisions)) [
  | inl undecided ↦ ground arith
  | inr (a, known) ↦ ground (arith, legal a known)
]

pub replay_events_split :
    (es fs : List ApprovalEvent) (s t : Approvals)
    → replay_events (es ++ fs) s ≡ ok t
    → (m : Approvals) × (replay_events es s ≡ ok m) × (replay_events fs m ≡ ok t)
unfolding replay_events
replay_events_split [] fs s t h = (s, refl, h)
replay_events_split (e ∷ es) fs s t h =
    let (s', step, rest) = >>=-eq-ok (replay_event s e) (λ r. replay_events (es ++ fs) r) h in
    let (m, first, second) = replay_events_split es fs s' t rest in (m, rw step first, second)

-- If a stream with an execution in it is replayed without an exception, the events before the
-- execution hold a request and an approval of exactly its operation, tool and payload.
pub execute_after_approval :
    (before after : List ApprovalEvent) (e : ApprovalEvent) (t : Approvals)
    → replay_events (before ++ e ∷ after) no_approvals ≡ ok t
    → e.action ≡ execute
    → (occurs requested e.operation_id (identity e) before ≡ true)
      × (occurs approved e.operation_id (identity e) before ≡ true)
execute_after_approval before after e t h x =
    let (m, first, second) = replay_events_split before (e ∷ after) no_approvals t h in
    let (n, step, _) =
      >>=-eq-ok (replay_event m e) (λ r. replay_events after r) {b = t}
        (unfold replay_events in second) in
    let j = Justified-replay_events before [] no_approvals m Justified-empty first in
    let (bound, decision) = execute_needs m n e x step (j.legal e.operation_id) in
    let (i, known, seen) = j.decision e.operation_id approved decision in
    (j.bound e.operation_id (identity e) bound, ground (arith))
