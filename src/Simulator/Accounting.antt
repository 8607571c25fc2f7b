-- ===== src/Simulator/Accounting.antt =====
-- A replay loses no event and invents none, and it runs only on ordered streams.
use coding_agent_reliability.Base.{
  ℕ, ◌+◌, ◌≡◌, refl, true, List, [], ◌∷◌, arith, ℤ, int_eq, Result, ok, err, Error, map_ok,
  >>=-eq-ok, count, count-append, is_unique_increasing, Increasing, Bool-cases, inl, inr, ◌>>=◌,
}
use coding_agent_reliability.Base.Order.{is_unique_increasing_iff}
use coding_agent_reliability.Events.{Event}
use coding_agent_reliability.Simulator.{
  RunState, ReducerMode, SimulationResult, apply_event, apply_events, sequences, replay,
  is_supported,
}

-- How often a number stands in the two logs of a state.
abbrev pub logged : ℤ → RunState → ℕ
logged q s = count q s.accepted_events + count q s.ignored_events

logged-apply_event :
    (q : ℤ) (s t : RunState) (e : Event) (m : ReducerMode)
    → apply_event s e m ≡ ok t
    → logged q t ≡ logged q s + count q (e.sequence ∷ [])
unfolding apply_event
logged-apply_event q s t e m h = ground (
  arith,
  count-append q s.accepted_events (e.sequence ∷ []),
  count-append q s.ignored_events (e.sequence ∷ []),
)

-- In every mode, a replay that returns has written the number of each event behind the accepted or
-- the ignored ones, exactly as often as the stream holds it.
pub logged-apply_events :
    (q : ℤ) (s t : RunState) (es : List Event) (m : ReducerMode)
    → apply_events es s m ≡ ok t
    → logged q t ≡ logged q s + count q (sequences es)
unfolding apply_events count
logged-apply_events q s t [] m h = ground arith
logged-apply_events q s t (e ∷ es) m h =
    let (s', step, rest) = >>=-eq-ok (apply_event s e m) (λ r. apply_events es r m) h in
    ground (arith, logged-apply_event q s s' e m step, logged-apply_events q s' t es m rest)

abbrev result_in : ReducerMode → RunState → SimulationResult
result_in m t = record { mode = m; state = t }

finish_result :
    (m : ReducerMode) (r : Result RunState)
    → (r >>= λ t. ok (result_in m t)) ≡ map_ok (result_in m) r
finish_result m (ok t) = refl
finish_result m (err e) = refl

-- In a known mode, a stream whose sequence numbers increase strictly passes the checks: the replay has
-- the outcome of the loop.
pub replay-Increasing :
    (es : List Event) (s : RunState) (m : ReducerMode)
    → is_supported m ≡ true
    → Increasing (sequences es)
    → replay es s m ≡ map_ok (λ t. record { mode = m; state = t }) (apply_events es s m)
unfolding replay
replay-Increasing es s m k i =
    rw (k, (is_unique_increasing_iff (sequences es)).1 i) (finish_result m (apply_events es s m))

-- A stream whose sequence numbers do not increase strictly raises ValueError in every mode.
pub replay_disordered :
    (es : List Event) (s : RunState) (m : ReducerMode)
    → ¬ Increasing (sequences es)
    → replay es s m ≡ err Error.value_error
unfolding replay
replay_disordered es s m n = elim (Bool-cases (is_unique_increasing (sequences es))) [
  | inl good ↦ absurd (n ((is_unique_increasing_iff (sequences es)).0 good))
  | inr bad ↦ ground (arith, bad)
]
