-- ===== src/Reconciliation.antt =====
-- Reconciliation of a lost acknowledgement (src/agent_reliability_lab/reconciliation.py): the value
-- types, the decision on provider evidence, and the retry that is bound to a provider revision. The
-- SQLite provider is in Reconciliation/Provider.
pub mod Provider
pub mod Decisions
pub mod Retry
mod Identity
mod Tests
use coding_agent_reliability.Base.{
  ℕ, ◌≡◌, Bool, true, false, not, ◌&&◌, ◌||◌, Option, none, some, List, [], ◌∷◌, ◌++◌, String, ◌==◌,
  string_eq, DecEq, String-discrete, optional_text_eq, optional_int_eq, optional_int_discrete,
  optional_text_discrete, int_eq, ℤ, pos, ◌+ℤ◌, ltb_ℤ, if◌then◌else◌, Result, ok, err, Error,
  is_blank, is_some,
}
use coding_agent_reliability.Base.Json.{encode_string, encode_array}

pub data ProviderReadbackState : Type 0 where
  present absent ambiguous : ProviderReadbackState

pub record ExternalOperation : Type 0 where
  pub provider : String
  pub operation_id : String
  pub tool : String
  pub payload : String

-- `ExternalOperation(...)` with the tests of `__post_init__`.
unfoldable pub new_operation : String → String → String → String → Result ExternalOperation
new_operation provider operation_id tool payload =
    if is_blank provider || is_blank operation_id || is_blank tool
    then err Error.value_error
    else ok (record {
      provider = provider;
      operation_id = operation_id;
      tool = tool;
      payload = payload;
    })

-- The text that `effect_sha256` hashes.
unfoldable pub canonical : ExternalOperation → List ℕ
unfolding encode_array encode_string
canonical o = encode_array encode_string (o.provider ∷ o.operation_id ∷ o.tool ∷ o.payload ∷ [])

pub record ProviderEvidence : Type 0 where
  pub provider : String
  pub operation_id : String
  pub readback : ProviderReadbackState
  pub observed_tool : Option String
  pub observed_payload : Option String
  pub readback_revision : Option ℤ
  pub idempotency_key : Option String
  pub idempotency_effect_sha256 : Option String

abbrev is_negative : Option ℤ → Bool
is_negative none = false
is_negative (some revision) = ltb_ℤ revision (pos 0)

-- The test of `ProviderEvidence.__post_init__`.
unfoldable pub new_evidence : ProviderEvidence → Result ProviderEvidence
new_evidence evidence =
    if is_negative evidence.readback_revision then err Error.value_error else ok evidence

pub data RetryAction : Type 0 where
  accept_remote_commit retry_exact_operation : RetryAction

unfoldable pub RetryAction-discrete : Discrete RetryAction
RetryAction-discrete = hlevel

instance abbrev pub retry_action_eq : DecEq RetryAction
retry_action_eq = record { dec = RetryAction-discrete }

pub record ReconciliationDecision : Type 0 where
  pub action : RetryAction
  pub should_retry : Bool
  pub reason : String
  pub retry_precondition_revision : Option ℤ
  pub retry_effect_sha256 : Option String

unfoldable pub ReconciliationDecision-discrete : Discrete ReconciliationDecision
unfolding String-discrete optional_int_discrete optional_text_discrete
ReconciliationDecision-discrete =
    hlevel (String-discrete, optional_int_discrete, optional_text_discrete)

instance abbrev pub decision_eq : DecEq ReconciliationDecision
decision_eq = record { dec = ReconciliationDecision-discrete }

pub record VersionedProviderState : Type 0 where
  pub revision : ℤ
  pub effects : List ExternalOperation

-- `VersionedProviderState(...)` with the test of `__post_init__`.
unfoldable pub new_provider_state : ℤ → List ExternalOperation → Result VersionedProviderState
new_provider_state revision effects =
    if ltb_ℤ revision (pos 0)
    then err Error.value_error
    else ok (record { revision = revision; effects = effects })

abbrev pub accepted : ReconciliationDecision
accepted = record {
  action = accept_remote_commit;
  should_retry = false;
  reason = "provider readback confirms the exact effect already committed";
  retry_precondition_revision = none;
  retry_effect_sha256 = none;
}

-- `existing.provider == operation.provider and existing.operation_id == operation.operation_id` for
-- some existing effect.
unfoldable pub has_effect : String → String → List ExternalOperation → Bool
has_effect provider operation_id [] = false
has_effect provider operation_id (e ∷ es) =
    (e.provider == provider && e.operation_id == operation_id)
    || has_effect provider operation_id es

-- `hashlib.sha256(text.encode()).hexdigest()` is the parameter `sha256`.
module _ (sha256 : List ℕ → String) where
  abbrev pub effect_sha256 : ExternalOperation → String
  effect_sha256 operation = sha256 (canonical operation)

  abbrev pub retry_at : ExternalOperation → ℤ → ReconciliationDecision
  retry_at operation revision = record {
    action = retry_exact_operation;
    should_retry = true;
    reason =
        "provider confirms absence and exact idempotency evidence permits a retry only while the observed provider revision is still current";
    retry_precondition_revision = some revision;
    retry_effect_sha256 = some (effect_sha256 operation);
  }

  abbrev pub or_unsafe : ExternalOperation → Option ℤ → Result ReconciliationDecision
  or_unsafe operation none = err Error.retry_safety_unknown
  or_unsafe operation (some revision) = ok (retry_at operation revision)

  -- The branches on the readback, for evidence that names the operation.
  unfoldable pub reconcile_readback :
      ExternalOperation → ProviderEvidence → ProviderReadbackState → Result ReconciliationDecision
  reconcile_readback operation evidence ambiguous = err Error.remote_state_ambiguous
  reconcile_readback operation evidence present =
      if evidence.observed_tool == some operation.tool
        && evidence.observed_payload == some operation.payload
      then ok accepted
      else err Error.reconciliation_conflict
  reconcile_readback operation evidence absent =
      if is_some evidence.observed_tool || is_some evidence.observed_payload
      then err Error.reconciliation_conflict
      else if not (
          evidence.idempotency_key == some operation.operation_id
          && evidence.idempotency_effect_sha256 == some (effect_sha256 operation))
      then err Error.retry_safety_unknown
      else or_unsafe operation evidence.readback_revision

  unfoldable pub reconcile_lost_ack :
      ExternalOperation → ProviderEvidence → Result ReconciliationDecision
  unfolding reconcile_readback
  reconcile_lost_ack operation evidence =
      if not (evidence.provider == operation.provider)
        || not (evidence.operation_id == operation.operation_id)
      then err Error.reconciliation_conflict
      else reconcile_readback operation evidence evidence.readback

  -- `apply_conditional_retry` behind its first test, by the decision's revision.
  unfoldable pub apply_at :
      ExternalOperation
      → ReconciliationDecision
      → VersionedProviderState
      → Option ℤ
      → Result VersionedProviderState
  unfolding new_provider_state has_effect
  apply_at operation decision state none = err Error.retry_safety_unknown
  apply_at operation decision state (some expected) =
      if not (decision.retry_effect_sha256 == some (effect_sha256 operation))
      then err Error.reconciliation_conflict
      else if not (state.revision == expected)
      then err Error.stale_provider_readback
      else if has_effect operation.provider operation.operation_id state.effects
      then err Error.reconciliation_conflict
      else new_provider_state (state.revision +ℤ pos 1) (state.effects ++ operation ∷ [])

  unfoldable pub apply_conditional_retry :
      ExternalOperation
      → ReconciliationDecision
      → VersionedProviderState
      → Result VersionedProviderState
  unfolding apply_at
  apply_conditional_retry operation decision state =
      if not decision.should_retry || not (decision.action == retry_exact_operation)
      then err Error.retry_safety_unknown
      else apply_at operation decision state decision.retry_precondition_revision
