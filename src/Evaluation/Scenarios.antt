-- ===== src/Evaluation/Scenarios.antt =====
-- The scenarios of evaluation.py that replay lists of events or requests and that decide on provider
-- evidence, each with the result that its runner returns or the exception that it lets through.
use coding_agent_reliability.Base.{
  ℕ, ◌-◌, Bool, true, false, not, ◌&&◌, none, some, List, [], ◌∷◌, String, ℤ, pos, ◌==◌, string_eq,
  nat_eq, int_list_eq, DecEq, Result, ok, err, Error, length, if◌then◌else◌,
}
use coding_agent_reliability.Base.Errors.{◌>>=◌}
use coding_agent_reliability.Events.{Event, EventKind, output, completed, failed}
use coding_agent_reliability.Simulator.{RunState, initial, scoped, replay}
use coding_agent_reliability.Effects.{EffectRequest, idempotent, replay_effects}
use coding_agent_reliability.Approvals.{requested, approved, execute, replay_approval}
use coding_agent_reliability.Reconciliation.{
  ExternalOperation, ProviderEvidence, present, absent, ReconciliationDecision,
  accept_remote_commit, retry_action_eq, new_operation, new_evidence, new_provider_state,
  effect_sha256, reconcile_lost_ack, apply_conditional_retry,
}
use coding_agent_reliability.Evaluation.{ScenarioResult, new_result}

unfoldable pub Error-discrete : Discrete Error
Error-discrete = hlevel

instance abbrev pub error_eq : DecEq Error
error_eq = record { dec = Error-discrete }

-- `blocked` after `try: call ... except error: blocked = True`; another exception goes through.
abbrev pub blocks {ℓ} : {A : Type ℓ} → Error → Result A → Result Bool
blocks error (ok _) = ok false
blocks error (err raised) = if raised == error then ok true else err raised

-- `max(0, n - 1)`
abbrev pub excess : ℕ → ℤ
excess n = pos (n - 1)

abbrev event : ℤ → String → String → EventKind → String → Event
event sequence run_id turn_id kind payload = record {
  sequence = sequence;
  run_id = run_id;
  turn_id = turn_id;
  kind = kind;
  payload = payload;
}

abbrev is_parent_final : RunState → Bool
is_parent_final state =
    state.terminal
    && (not state.failed
        && (state.output == "parent-final"
            && (state.accepted_events == (pos 1 ∷ pos 3 ∷ [])
                && state.ignored_events == (pos 2 ∷ []))))

unfoldable pub stale_child_completion_scoped : Result ScenarioResult
unfolding replay new_result
stale_child_completion_scoped = do
  result ←
      replay
        (event (pos 1) "parent" "parent-turn" output "partial"
          ∷ event (pos 2) "child" "child-turn" completed "child-final"
          ∷ event (pos 3) "parent" "parent-turn" completed "parent-final"
          ∷ [])
        (initial "parent" "parent-turn") scoped
  let passed = is_parent_final result.state
  ok (
      new_result "stale_child_completion_scoped" passed (some passed) (some passed) none (pos 0)
        "foreign child completion is ignored and the parent reaches its own terminal state")

abbrev request : ℤ → EffectRequest
request sequence = record {
  sequence = sequence;
  operation_id = "write:plan";
  tool = "write_file";
  payload = "plan-v1";
}

unfoldable pub lost_ack_retry_idempotency : Result ScenarioResult
unfolding replay_effects new_result
lost_ack_retry_idempotency = do
  result ← replay_effects (request (pos 1) ∷ request (pos 2) ∷ []) idempotent
  let passed = length result.applied == 1 && length result.duplicates == 1
  ok (
      new_result "lost_ack_retry_idempotency" passed (some passed) (some passed) none
        (if passed then pos 0 else excess (length result.applied))
        "exact replay is suppressed by the stable operation identity")

unfoldable pub terminal_conflict_fails_closed : Result ScenarioResult
unfolding replay new_result Error-discrete
terminal_conflict_fails_closed = do
  blocked ← blocks Error.terminal_state_conflict (
      replay
        (event (pos 1) "parent" "turn" completed "answer"
          ∷ event (pos 2) "parent" "turn" failed "late-failure"
          ∷ [])
        (initial "parent" "turn") scoped)
  ok (
      new_result "terminal_conflict_fails_closed" blocked (some blocked) none (some blocked) (pos 0)
        "incompatible same-turn terminal outcomes are rejected instead of last-write-wins")

unfoldable pub approval_mutation_fails_closed : Result ScenarioResult
unfolding replay_approval new_result Error-discrete
approval_mutation_fails_closed = do
  blocked ← blocks Error.approval_conflict (
      replay_approval (
        record {
          sequence = pos 1;
          action = requested;
          operation_id = "write:plan";
          tool = "write_file";
          payload = "plan-v1";
        }
        ∷ record {
          sequence = pos 2;
          action = approved;
          operation_id = "write:plan";
          tool = "write_file";
          payload = "plan-v1";
        }
        ∷ record {
          sequence = pos 3;
          action = execute;
          operation_id = "write:plan";
          tool = "write_file";
          payload = "plan-v2";
        }
        ∷ []))
  ok (
      new_result "approval_mutation_fails_closed" blocked (some blocked) none (some blocked) (pos 0)
        "approval is bound to the exact operation, tool, and payload")

-- `ProviderEvidence` of an operation that the provider has.
abbrev pub present_evidence : ExternalOperation → ℤ → Result ProviderEvidence
present_evidence operation revision = new_evidence (record {
  provider = operation.provider;
  operation_id = operation.operation_id;
  readback = present;
  observed_tool = some operation.tool;
  observed_payload = some operation.payload;
  readback_revision = some revision;
  idempotency_key = none;
  idempotency_effect_sha256 = none;
})

unfoldable pub accepts_commit : ReconciliationDecision → Bool
accepts_commit decision = decision.action == accept_remote_commit && not decision.should_retry

-- `hashlib.sha256(text.encode()).hexdigest()` is the parameter `sha256`.
module _ (sha256 : List ℕ → String) where
  -- `ProviderEvidence` of an operation that the provider does not have.
  abbrev pub absent_evidence : ExternalOperation → ℤ → Result ProviderEvidence
  absent_evidence operation revision = new_evidence (record {
    provider = operation.provider;
    operation_id = operation.operation_id;
    readback = absent;
    observed_tool = none;
    observed_payload = none;
    readback_revision = some revision;
    idempotency_key = some operation.operation_id;
    idempotency_effect_sha256 = some (effect_sha256 sha256 operation);
  })

  unfoldable pub provider_present_suppresses_retry : Result ScenarioResult
  unfolding new_operation new_evidence reconcile_lost_ack accepts_commit new_result
  provider_present_suppresses_retry = do
    operation ← new_operation "provider-a" "op-1" "create_record" "payload-v1"
    evidence ← present_evidence operation (pos 5)
    decision ← reconcile_lost_ack sha256 operation evidence
    let passed = accepts_commit decision
    ok (
        new_result "provider_present_suppresses_retry" passed (some passed) (some passed) none
          (pos 0)
          "authoritative PRESENT readback accepts the committed effect instead of replaying it")

  unfoldable pub stale_readback_revision_fails_closed : Result ScenarioResult
  unfolding new_operation new_evidence reconcile_lost_ack apply_conditional_retry new_provider_state
      new_result Error-discrete
  stale_readback_revision_fails_closed = do
    operation ← new_operation "provider-a" "op-1" "create_record" "payload-v1"
    evidence ← absent_evidence operation (pos 4)
    decision ← reconcile_lost_ack sha256 operation evidence
    state ← new_provider_state (pos 5) (operation ∷ [])
    blocked ←
        blocks Error.stale_provider_readback
          (apply_conditional_retry sha256 operation decision state)
    ok (
        new_result "stale_readback_revision_fails_closed" blocked (some blocked) none (some blocked)
          (pos 0) "revision drift invalidates old absence evidence before a retry can commit")
