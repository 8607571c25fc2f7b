-- ===== src/Approvals.antt =====
-- The approval lifecycle (src/agent_reliability_lab/approvals.py): requests, decisions and
-- executions, one event, and the replay of a list of events.
mod History
mod Sticky
mod Tests
use coding_agent_reliability.Base.{
  ◌≡◌, Bool, true, false, not, Option, none, some, List, [], ◌∷◌, ◌++◌, map, String, ℤ, DecEq, ◌==◌,
  string_eq, text_pair_eq, if◌then◌else◌, Result, ok, err, Error, ◌>>=◌, ◌>>◌, raise_if,
  is_unique_increasing, lookup, insert, contains,
}

pub data ApprovalAction : Type 0 where
  requested approved denied execute : ApprovalAction

unfoldable pub ApprovalAction-discrete : Discrete ApprovalAction
ApprovalAction-discrete = hlevel

instance abbrev pub approval_action_eq : DecEq ApprovalAction
approval_action_eq = record { dec = ApprovalAction-discrete }

pub record ApprovalEvent : Type 0 where
  pub sequence : ℤ
  pub action : ApprovalAction
  pub operation_id : String
  pub tool : String
  pub payload : String

pub record ApprovalReplayResult : Type 0 where
  pub executed : List String
  pub approved : List String
  pub denied : List String

unfoldable pub validate_order : List ApprovalEvent → Result (Unit {0})
unfolding is_unique_increasing
validate_order events =
    raise_if (not (is_unique_increasing (map (λ event. event.sequence) events))) Error.value_error

-- The local variables of `replay_approval`.
pub record Approvals : Type 0 where
  pub requests : List (String × (String × String))
  pub decisions : List (String × ApprovalAction)
  pub executed : List String

abbrev pub no_approvals : Approvals
no_approvals = record { requests = []; decisions = []; executed = [] }

abbrev pub identity : ApprovalEvent → String × String
identity event = (event.tool, event.payload)

-- An approval or a denial.
unfoldable pub decide :
    Approvals → String → ApprovalAction → Option ApprovalAction → Result Approvals
decide s id action none = ok (record s { decisions = insert id action s.decisions })
decide s id action (some previous) =
    if previous == action
    then ok (record s { decisions = insert id action s.decisions })
    else err Error.approval_conflict

unfoldable pub execute_decided : Approvals → String → Option ApprovalAction → Result Approvals
execute_decided s id none = err Error.approval_required
execute_decided s id (some denied) = err Error.approval_denied
execute_decided s id (some _) =
    if contains id s.executed then ok s else ok (record s { executed = s.executed ++ id ∷ [] })

-- An event whose operation was requested with the same tool and payload.
unfoldable pub replay_bound : Approvals → String → ApprovalAction → Result Approvals
unfolding decide execute_decided
replay_bound s id requested = ok s
replay_bound s id approved = decide s id approved (lookup id s.decisions)
replay_bound s id denied = decide s id denied (lookup id s.decisions)
replay_bound s id execute = execute_decided s id (lookup id s.decisions)

-- The body of the loop, by what was requested for the operation.
unfoldable pub replay_with : Approvals → ApprovalEvent → Option (String × String) → Result Approvals
unfolding replay_bound
replay_with s event none =
    if event.action == requested
    then ok (record s { requests = insert event.operation_id (identity event) s.requests })
    else err Error.approval_conflict
replay_with s event (some known) =
    if known == identity event
    then replay_bound s event.operation_id event.action
    else err Error.approval_conflict

unfoldable pub replay_event : Approvals → ApprovalEvent → Result Approvals
unfolding replay_with
replay_event s event = replay_with s event (lookup event.operation_id s.requests)

unfoldable pub replay_events : List ApprovalEvent → Approvals → Result Approvals
replay_events [] s = ok s
replay_events (event ∷ events) s = replay_event s event >>= λ next. replay_events events next

-- The operations with a given decision, in the order of the dict.
unfoldable pub decided : ApprovalAction → List (String × ApprovalAction) → List String
decided action [] = []
decided action ((id, decision) ∷ rest) =
    let others = decided action rest in if decision == action then id ∷ others else others

unfoldable pub replay_approval : List ApprovalEvent → Result ApprovalReplayResult
unfolding validate_order replay_event replay_events decided lookup insert contains
replay_approval events = do
  validate_order events
  s ← replay_events events no_approvals
  ok (record {
    executed = s.executed;
    approved = decided approved s.decisions;
    denied = decided denied s.decisions;
  })
