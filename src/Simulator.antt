-- ===== src/Simulator.antt =====
-- The event reducer (src/agent_reliability_lab/simulator.py): the state of the active turn, one
-- event, and the replay of a stream.
mod Terminal
mod Scope
mod Accounting
mod Tests
use coding_agent_reliability.Base.{
  ◌≡◌, Bool, true, false, not, ◌&&◌, ◌||◌, Option, none, some, List, [], ◌∷◌, ◌++◌, map, String, ℤ,
  ◌==◌, string_eq, if◌then◌else◌, Result, ok, err, Error, ◌>>=◌, ◌>>◌, raise_if, map_ok, is_some,
  is_unique_increasing,
}
use coding_agent_reliability.Events.{EventKind, output, completed, failed, Event, event_kind_eq}

-- `unsupported` is any other text that a caller passes as the mode.
pub data ReducerMode : Type 0 where
  naive scoped : ReducerMode
  unsupported : String → ReducerMode

pub record RunState : Type 0 where
  pub active_run_id : String
  pub active_turn_id : String
  pub output : String
  pub terminal : Bool
  pub failed : Bool
  pub accepted_events : List ℤ
  pub ignored_events : List ℤ
  pub terminal_kind : Option EventKind
  pub terminal_payload : String

-- `RunState(active_run_id, active_turn_id)` with the defaults of the other fields.
abbrev pub initial : String → String → RunState
initial run_id turn_id = record {
  active_run_id = run_id;
  active_turn_id = turn_id;
  output = "";
  terminal = false;
  failed = false;
  accepted_events = [];
  ignored_events = [];
  terminal_kind = none;
  terminal_payload = "";
}

pub record SimulationResult : Type 0 where
  pub mode : ReducerMode
  pub state : RunState

unfoldable pub belongs_to_active_turn : RunState → Event → Bool
belongs_to_active_turn state event =
    event.run_id == state.active_run_id && event.turn_id == state.active_turn_id

abbrev pub ignore : RunState → Event → RunState
ignore state event = record state { ignored_events = state.ignored_events ++ event.sequence ∷ [] }

abbrev pub is_kind : EventKind → Option EventKind → Bool
is_kind kind none = false
is_kind kind (some k) = kind == k

unfoldable pub handle_event_after_terminal : RunState → Event → Result RunState
handle_event_after_terminal state event =
    if is_kind event.kind state.terminal_kind && event.payload == state.terminal_payload
    then ok (ignore state event)
    else err Error.terminal_state_conflict

-- The branches on the event's kind, for the state that has accepted it.
abbrev pub accept_kind : RunState → EventKind → String → RunState
accept_kind next output payload = record next { output = payload }
accept_kind next completed payload = record next {
  terminal = true;
  terminal_kind = some completed;
  terminal_payload = payload;
  output = if payload == "" then next.output else payload;
}
accept_kind next failed payload = record next {
  terminal = true;
  failed = true;
  terminal_kind = some failed;
  terminal_payload = payload;
  output = payload;
}

abbrev pub accept : RunState → Event → RunState
accept state event =
    accept_kind (record state { accepted_events = state.accepted_events ++ event.sequence ∷ [] })
      event.kind event.payload

abbrev pub is_scoped : ReducerMode → Bool
is_scoped scoped = true
is_scoped _ = false

unfoldable pub apply_event : RunState → Event → ReducerMode → Result RunState
unfolding belongs_to_active_turn handle_event_after_terminal
apply_event state event mode =
    if is_scoped mode && not (belongs_to_active_turn state event)
    then ok (ignore state event)
    else if is_scoped mode && state.terminal
    then handle_event_after_terminal state event
    else ok (accept state event)

-- The loop of `replay`.
unfoldable pub apply_events : List Event → RunState → ReducerMode → Result RunState
apply_events [] state mode = ok state
apply_events (event ∷ events) state mode =
    apply_event state event mode >>= λ next. apply_events events next mode

abbrev pub is_supported : ReducerMode → Bool
is_supported (unsupported _) = false
is_supported _ = true

abbrev pub sequences : List Event → List ℤ
sequences = map (λ event. event.sequence)

unfoldable pub replay : List Event → RunState → ReducerMode → Result SimulationResult
unfolding apply_event apply_events is_unique_increasing
replay events start mode = do
  raise_if (not (is_supported mode)) Error.value_error
  raise_if (not (is_unique_increasing (sequences events))) Error.value_error
  state ← apply_events events start mode
  ok (record { mode = mode; state = state })
