-- ===== src/Simulator/Terminal.antt =====
-- What a turn that has ended keeps, and which events it refuses.
use coding_agent_reliability.Base.{
  ◌≡◌, refl, inl, inr, Bool, true, not, ◌&&◌, ◌||◌, List, [], ◌∷◌, arith, ◌==◌, string_eq,
  if◌then◌else◌, ok, err, Error, Bool-cases,
}
use coding_agent_reliability.Events.{Event, event_kind_eq}
use coding_agent_reliability.Simulator.{
  RunState, scoped, belongs_to_active_turn, apply_event, apply_events, is_kind, ignore,
}

-- The event repeats the one that ended the turn.
abbrev repeats_end : RunState → Event → Bool
repeats_end s e = is_kind e.kind s.terminal_kind && e.payload == s.terminal_payload

-- The event may follow the end of the turn.
abbrev pub is_harmless : RunState → Event → Bool
is_harmless s e = not (belongs_to_active_turn s e) || repeats_end s e

-- All of the events may follow the end of the turn.
unfoldable pub are_harmless : RunState → List Event → Bool
are_harmless s [] = true
are_harmless s (e ∷ es) = is_harmless s e && are_harmless s es

-- The state with the numbers of the events written behind the ignored ones.
unfoldable pub ignore_all : RunState → List Event → RunState
ignore_all s [] = s
ignore_all s (e ∷ es) = ignore_all (ignore s e) es

are_harmless-ignore :
    (s : RunState) (e : Event) (es : List Event) → are_harmless (ignore s e) es ≡ are_harmless s es
unfolding are_harmless belongs_to_active_turn
are_harmless-ignore s e [] = refl
are_harmless-ignore s e (x ∷ es) = ground (arith, are_harmless-ignore s e es)

apply_event-terminal :
    (s : RunState) (e : Event)
    → s.terminal ≡ true
    → apply_event s e scoped
      ≡ (if is_harmless s e then ok (ignore s e) else err Error.terminal_state_conflict)
unfolding apply_event
apply_event-terminal s e t = ground arith

-- Once the turn has ended, a scoped reducer decides the rest of the stream outright: if every
-- event is foreign or repeats the end exactly, all are ignored and nothing else changes; otherwise
-- the replay raises TerminalStateConflict.
pub apply_events-terminal :
    (s : RunState) (es : List Event)
    → s.terminal ≡ true
    → apply_events es s scoped
      ≡ (if are_harmless s es then ok (ignore_all s es) else err Error.terminal_state_conflict)
unfolding apply_events are_harmless ignore_all
apply_events-terminal s [] t = refl
apply_events-terminal s (e ∷ es) t = elim (Bool-cases (is_harmless s e)) [
  | inl good ↦ rw (
    apply_event-terminal s e t,
    good,
    apply_events-terminal (ignore s e) es t,
    are_harmless-ignore s e es,
  )
  | inr bad ↦ rw (apply_event-terminal s e t, bad)
]
