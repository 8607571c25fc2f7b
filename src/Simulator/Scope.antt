-- ===== src/Simulator/Scope.antt =====
-- Events of other runs and turns have no influence in scoped mode, and every influence in naive
-- mode.
use coding_agent_reliability.Base.{
  ◌≡◌, refl, sym, ap, Bool, true, false, ◌&&◌, ◌||◌, List, [], ◌∷◌, arith, string_eq, if◌then◌else◌,
  Result, ok, err, map_ok, Bool-cases, inl, inr, ◌>>=◌, >>=-eq-ok,
}
use coding_agent_reliability.Events.{Event, EventKind, output, event_kind_eq}
use coding_agent_reliability.Simulator.{
  RunState, ReducerMode, scoped, naive, belongs_to_active_turn, apply_event, apply_events, ignore,
  accept,
}

-- The events that the active turn emitted itself.
unfoldable pub own_events : RunState → List Event → List Event
own_events s [] = []
own_events s (e ∷ es) =
    let rest = own_events s es in if belongs_to_active_turn s e then e ∷ rest else rest

-- The state without the log of ignored events.
abbrev pub forget_ignored : RunState → RunState
forget_ignored s = record s { ignored_events = [] }

-- A stream has an event that ends a turn.
abbrev pub ends_turn : EventKind → Bool
ends_turn output = false
ends_turn _ = true

unfoldable pub has_end : List Event → Bool
has_end [] = false
has_end (e ∷ es) = ends_turn e.kind || has_end es

own_events_same :
    (s t : RunState) (es : List Event)
    → s.active_run_id ≡ t.active_run_id
    → s.active_turn_id ≡ t.active_turn_id
    → own_events s es ≡ own_events t es
unfolding own_events belongs_to_active_turn
own_events_same s t [] r u = refl
own_events_same s t (e ∷ es) r u = ground (arith, own_events_same s t es r u)

apply_event_ids :
    (s t : RunState) (e : Event) (m : ReducerMode)
    → apply_event s e m ≡ ok t
    → (t.active_run_id ≡ s.active_run_id) × (t.active_turn_id ≡ s.active_turn_id)
unfolding apply_event
apply_event_ids s t e m h = ground arith

apply_event_forget :
    (s t : RunState) (e : Event)
    → forget_ignored s ≡ forget_ignored t
    → map_ok forget_ignored (apply_event s e scoped)
      ≡ map_ok forget_ignored (apply_event t e scoped)
unfolding apply_event
apply_event_forget s t e h = ground arith

foreign_step :
    (s : RunState) (e : Event)
    → belongs_to_active_turn s e ≡ false
    → apply_event s e scoped ≡ ok (ignore s e)
unfolding apply_event
foreign_step s e f = rw f

-- Two results that agree up to the log of ignored events, and what follows each.
continue_forget :
    (f g : RunState → Result RunState) (r q : Result RunState)
    → map_ok forget_ignored r ≡ map_ok forget_ignored q
    → ((s t : RunState)
        → r ≡ ok s
        → forget_ignored s ≡ forget_ignored t
        → map_ok forget_ignored (f s) ≡ map_ok forget_ignored (g t))
    → map_ok forget_ignored (r >>= f) ≡ map_ok forget_ignored (q >>= g)
continue_forget f g (ok s) (ok t) h k = k s t refl (ground arith)
continue_forget f g (ok s) (err _) h k = cc
continue_forget f g (err _) (ok t) h k = cc
continue_forget f g (err a) (err b) h k = ground arith

forget_induction :
    (es : List Event) (s t : RunState)
    → forget_ignored s ≡ forget_ignored t
    → map_ok forget_ignored (apply_events es s scoped)
      ≡ map_ok forget_ignored (apply_events (own_events s es) t scoped)
unfolding apply_events own_events
forget_induction [] s t h = ap ok h
forget_induction (e ∷ es) s t h = elim (Bool-cases (belongs_to_active_turn s e)) [
  | inr foreign ↦
      rw (foreign, foreign_step s e foreign)
        (rw (own_events_same s (ignore s e) es refl refl) (forget_induction es (ignore s e) t h))
  | inl own ↦ rw own (
      continue_forget (λ r. apply_events es r scoped) (λ r. apply_events (own_events s es) r scoped)
        (apply_event s e scoped) (apply_event t e scoped) (apply_event_forget s t e h)
        (λ s' t' ok_s same.
          rw
            (own_events_same s s' es (sym (apply_event_ids s s' e scoped ok_s).0)
              (sym (apply_event_ids s s' e scoped ok_s).1))
            (forget_induction es s' t' same)))
]

-- In scoped mode a stream leads to the same state, or to the same exception, as the events of the
-- active turn alone, but for the numbers logged as ignored.
pub apply_events-own_events :
    (s : RunState) (es : List Event)
    → map_ok forget_ignored (apply_events es s scoped)
      ≡ map_ok forget_ignored (apply_events (own_events s es) s scoped)
apply_events-own_events s es = forget_induction es s s refl

apply_event_terminal_scoped :
    (s t : RunState) (e : Event)
    → apply_event s e scoped ≡ ok t
    → t.terminal ≡ (s.terminal || (belongs_to_active_turn s e && ends_turn e.kind))
unfolding apply_event
apply_event_terminal_scoped s t e h = ground arith

-- In scoped mode a turn that was running has ended after a replay exactly if one of its own events
-- is a completion or a failure.
pub terminal-scoped :
    (s t : RunState) (es : List Event)
    → apply_events es s scoped ≡ ok t
    → t.terminal ≡ (s.terminal || has_end (own_events s es))
unfolding apply_events own_events has_end
terminal-scoped s t [] h = ground arith
terminal-scoped s t (e ∷ es) h =
    let (s', step, rest) = >>=-eq-ok (apply_event s e scoped) (λ r. apply_events es r scoped) h in
    let (same_run, same_turn) = apply_event_ids s s' e scoped step in
    ground (
      arith,
      terminal-scoped s' t es rest,
      apply_event_terminal_scoped s s' e step,
      own_events_same s s' es (sym same_run) (sym same_turn),
    )

-- The state after every event is accepted.
unfoldable pub accept_all : RunState → List Event → RunState
accept_all s [] = s
accept_all s (e ∷ es) = accept_all (accept s e) es

terminal-accept_all :
    (s : RunState) (es : List Event) → (accept_all s es).terminal ≡ (s.terminal || has_end es)
unfolding accept_all has_end
terminal-accept_all s [] = ground arith
terminal-accept_all s (e ∷ es) = ground (arith, terminal-accept_all (accept s e) es)

accept_all-naive : (s : RunState) (es : List Event) → apply_events es s naive ≡ ok (accept_all s es)
unfolding apply_event apply_events accept_all
accept_all-naive s [] = refl
accept_all-naive s (e ∷ es) = accept_all-naive (accept s e) es

-- The naive reducer accepts every event, whoever emitted it: it never raises, and the turn counts as
-- ended as soon as any event of the stream is a completion or a failure.
pub apply_events-naive :
    (s : RunState) (es : List Event)
    → (t : RunState) × (apply_events es s naive ≡ ok t) × (t.terminal ≡ (s.terminal || has_end es))
apply_events-naive s es = (accept_all s es, accept_all-naive s es, terminal-accept_all s es)
