-- ===== src/Effects.antt =====
-- The replay of tool effects (src/agent_reliability_lab/effects.py): the idempotency ledger, one
-- request, and the replay of a list of requests.
mod Consistency
mod Once
mod Retry
mod Tests
use coding_agent_reliability.Base.{
  ◌≡◌, Bool, true, false, not, Option, none, some, List, [], ◌∷◌, ◌++◌, map, String, ℤ, ◌==◌,
  string_eq, text_pair_eq, if◌then◌else◌, Result, ok, err, Error, ◌>>=◌, ◌>>◌, raise_if,
  is_unique_increasing, lookup, insert,
}

pub record EffectRequest : Type 0 where
  pub sequence : ℤ
  pub operation_id : String
  pub tool : String
  pub payload : String

-- `unsupported` is any other text that a caller passes as the mode.
pub data ReplayMode : Type 0 where
  naive idempotent : ReplayMode
  unsupported : String → ReplayMode

pub record EffectReplayResult : Type 0 where
  pub mode : ReplayMode
  pub applied : List EffectRequest
  pub duplicates : List EffectRequest

-- The negation of the test in `_validate_order`.
unfoldable pub validate_order : List EffectRequest → Result (Unit {0})
unfolding is_unique_increasing
validate_order requests =
    raise_if (not (is_unique_increasing (map (λ request. request.sequence) requests)))
      Error.value_error

-- The local variables of `replay_effects`.
pub record Progress : Type 0 where
  pub applied : List EffectRequest
  pub duplicates : List EffectRequest
  pub ledger : List (String × (String × String))

abbrev pub no_progress : Progress
no_progress = record { applied = []; duplicates = []; ledger = [] }

abbrev pub identity : EffectRequest → String × String
identity request = (request.tool, request.payload)

-- The body of the loop, by what the ledger holds for the operation.
unfoldable pub replay_with : Progress → EffectRequest → Option (String × String) → Result Progress
replay_with p request none = ok (record p {
  ledger = insert request.operation_id (identity request) p.ledger;
  applied = p.applied ++ request ∷ [];
})
replay_with p request (some previous) =
    if previous == identity request
    then ok (record p { duplicates = p.duplicates ++ request ∷ [] })
    else err Error.idempotency_conflict

abbrev pub is_naive : ReplayMode → Bool
is_naive naive = true
is_naive _ = false

unfoldable pub replay_request : Progress → EffectRequest → ReplayMode → Result Progress
unfolding replay_with
replay_request p request mode =
    if is_naive mode
    then ok (record p { applied = p.applied ++ request ∷ [] })
    else replay_with p request (lookup request.operation_id p.ledger)

unfoldable pub replay_requests : List EffectRequest → Progress → ReplayMode → Result Progress
replay_requests [] p mode = ok p
replay_requests (request ∷ requests) p mode =
    replay_request p request mode >>= λ next. replay_requests requests next mode

abbrev pub is_supported : ReplayMode → Bool
is_supported (unsupported _) = false
is_supported _ = true

unfoldable pub replay_effects : List EffectRequest → ReplayMode → Result EffectReplayResult
unfolding validate_order replay_request replay_requests lookup insert
replay_effects requests mode = do
  raise_if (not (is_supported mode)) Error.value_error
  validate_order requests
  p ← replay_requests requests no_progress mode
  ok (record { mode = mode; applied = p.applied; duplicates = p.duplicates })
