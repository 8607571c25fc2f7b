-- ===== src/Effects/Tests.antt =====
-- A lost acknowledgement, as in tests/test_retry_replay_idempotency.py, and the theorems there.
use coding_agent_reliability.Base.{
  ℕ, ◌≡◌, refl, true, List, [], ◌∷◌, String, string_eq, pos, ok, err, Error, count, contains,
  lookup, insert, arith, if◌then◌else◌, String-discrete, text_pair_discrete,
}
use coding_agent_reliability.Effects.{
  EffectRequest, Progress, no_progress, idempotent, replay_request, replay_requests, replay_effects,
}
use coding_agent_reliability.Effects.Consistency.{
  is_consistent, outcome, replay_effects-is_consistent,
}
use coding_agent_reliability.Effects.Once.{operations, count-replay_requests}
use coding_agent_reliability.Effects.Retry.{asks_for}

abbrev write : ℕ → String → EffectRequest
write n text = record {
  sequence = pos n;
  operation_id = "write:plan";
  tool = "write_file";
  payload = text;
}

abbrev read : EffectRequest
read = record { sequence = pos 2; operation_id = "read:plan"; tool = "read_file"; payload = "" }

abbrev asked : List EffectRequest
asked = write 1 "plan-v1" ∷ read ∷ []

abbrev retried : List EffectRequest
retried = write 3 "plan-v1" ∷ []

abbrev after_asked : Progress
after_asked = record {
  applied = asked;
  duplicates = [];
  ledger = ("write:plan", ("write_file", "plan-v1")) ∷ ("read:plan", ("read_file", "")) ∷ [];
}

run_asked : replay_requests asked no_progress idempotent ≡ ok after_asked
unfolding replay_requests replay_request lookup insert String-discrete
run_asked = refl

retries_are_asked_for : asks_for (write 3 "plan-v1") asked ≡ true
unfolding asks_for String-discrete text_pair_discrete
retries_are_asked_for = refl

count-replay_requests_example :
    count "write:plan" (operations after_asked.applied)
    ≡ (if contains "write:plan" (operations asked) then 1 else 0)
count-replay_requests_example = count-replay_requests "write:plan" asked after_asked run_asked

abbrev reused : List EffectRequest
reused = write 1 "plan-v1" ∷ write 2 "plan-v2" ∷ []

replay_effects-is_consistent_example :
    outcome (replay_effects reused idempotent)
    ≡ (if is_consistent reused then ok tt else err Error.idempotency_conflict)
replay_effects-is_consistent_example = replay_effects-is_consistent reused (omega arith)
