-- ===== src/Evaluation/Stores.antt =====
-- The scenarios of evaluation.py that run on stores in a temporary directory. A store begins empty, and
-- opening it again after a restart finds the same tables.
use coding_agent_reliability.Base.{
  texts_discrete, texts_eq, ℕ, Bool, true, false, not, ◌&&◌, none, some, List, [], ◌∷◌, map, String,
  pos, ◌==◌, string_eq, text_pair_eq, nat_eq, int_eq, DecEq, Result, ok, err, Error, length,
  text_pair_discrete, if◌then◌else◌,
}
use coding_agent_reliability.Base.Errors.{◌>>=◌ as bind}
use coding_agent_reliability.Base.Transaction.{Tx, pure, raise, lift, gets, ◌>>=◌, ◌>>◌}
use coding_agent_reliability.Durable
use coding_agent_reliability.Durable.{Sandbox}
use coding_agent_reliability.Recovery
use coding_agent_reliability.Recovery.{RecoveryOperation, CheckpointDatabase}
use coding_agent_reliability.Reconciliation.{
  ExternalOperation, new_operation, new_evidence, new_provider_state,
}
use coding_agent_reliability.Reconciliation.Provider.{
  ProviderDatabase, read, conditional_apply, snapshot,
}
use coding_agent_reliability.EvidenceLineage.{
  EvidenceDatabase, record_evidence, apply_retry, mark_reconciled,
}
use coding_agent_reliability.Evaluation.{ScenarioResult, new_result}
use coding_agent_reliability.Evaluation.Scenarios.{
  Error-discrete, error_eq, excess, present_evidence, absent_evidence,
}

-- `blocked` after `try: call ... except error: blocked = True`.
abbrev caught : {S : Type 0} → Error → Error → Tx S Bool
caught error raised = if raised == error then pure true else raise raised

abbrev blocked_by : {S A : Type 0} → Error → Result A → Tx S Bool
blocked_by error (ok _) = pure false
blocked_by error (err raised) = caught error raised

abbrev pub blocks : {S A : Type 0} → Error → Tx S A → Tx S Bool
blocks error call s = let (r, s') = call s in blocked_by error r s'

-- What a runner returns on a store that begins as given.
abbrev pub from : {S A : Type 0} → S → Tx S A → Result A
from s m = (m s).0

unfoldable pub notes_discrete : Discrete (List (String × String))
unfolding text_pair_discrete
notes_discrete = hlevel text_pair_discrete

instance abbrev notes_eq : DecEq (List (String × String))
notes_eq = record { dec = notes_discrete }

-- No exception is raised at the checkpoints of `execute`.
abbrev undisturbed : Durable.Stage → Result (Unit {0})
undisturbed stage = ok tt

durable_restart : Tx Sandbox ScenarioResult
unfolding Durable.new_operation Durable.request Durable.decide Durable.execute Durable.read_notes
    notes_discrete new_result
durable_restart = do
  operation ← lift (Durable.new_operation "op-1" "record_note" "safe-local-note")
  Durable.request operation
  Durable.decide operation (Durable.supported Durable.approved)
  first_apply ← Durable.execute undisturbed operation
  second_apply ← Durable.execute undisturbed operation
  notes ← gets Durable.read_notes
  let passed = first_apply && (not second_apply && notes == (("op-1", "safe-local-note") ∷ []))
  pure (
      new_result "durable_restart_exact_replay" passed (some passed) (some passed) none
        (if passed then pos 0 else excess (length notes))
        "file-backed completion survives restart and exact replay does not repeat the local effect")

unfoldable pub durable_restart_exact_replay : Result ScenarioResult
unfolding durable_restart
durable_restart_exact_replay = from (record { operations = []; notes = [] }) durable_restart

abbrev recovery_plan : Result (List RecoveryOperation)
unfolding Recovery.new_operation
recovery_plan = bind (Recovery.new_operation "op-1" "edit" "one") λ one.
    bind (Recovery.new_operation "op-2" "test" "two") λ two.
      bind (Recovery.new_operation "op-3" "publish" "three") λ three. ok (one ∷ two ∷ three ∷ [])

-- `hashlib.sha256(text.encode()).hexdigest()` is the parameter `sha256`.
module _ (sha256 : List ℕ → String) where
  stale_checkpoint_lineage : Tx CheckpointDatabase ScenarioResult
  unfolding Recovery.new_operation Recovery.start Recovery.advance Recovery.resume texts_discrete
      new_result Error-discrete
  stale_checkpoint_lineage = do
    operations ← lift recovery_plan
    start ← Recovery.start sha256 "run-1" operations "start"
    after_one ← Recovery.advance start "after-one" (pos 1)
    after_two ← Recovery.advance after_one "after-two" (pos 2)
    blocked ← blocks Error.stale_checkpoint (Recovery.resume sha256 after_one operations)
    remaining ← Recovery.resume sha256 after_two operations
    let converged = map (λ (o : RecoveryOperation). o.operation_id) remaining == ("op-3" ∷ [])
    pure (
        new_result "stale_checkpoint_lineage_fails_closed" (blocked && converged) (some blocked)
          (some converged) (some blocked) (pos 0)
          "stale checkpoint replay is rejected and recovery resumes only from the current lineage")

  unfoldable pub stale_checkpoint_lineage_fails_closed : Result ScenarioResult
  unfolding stale_checkpoint_lineage
  stale_checkpoint_lineage_fails_closed =
      from (record { runs = []; checkpoints = [] }) stale_checkpoint_lineage

  abbrev create_record : String → Result ExternalOperation
  create_record operation_id = new_operation "provider-a" operation_id "create_record" "payload-v1"

  restart_evidence : Tx EvidenceDatabase ScenarioResult
  unfolding new_operation new_evidence record_evidence apply_retry new_provider_state new_result
      Error-discrete
  restart_evidence = do
    operation ← lift (create_record "op-1")
    absent ← lift (absent_evidence sha256 operation (pos 4))
    old ← record_evidence sha256 operation "absent-4" absent
    present ← lift (present_evidence operation (pos 5))
    current ← record_evidence sha256 operation "present-5" present
    state ← lift (new_provider_state (pos 4) [])
    blocked ←
        blocks Error.superseded_reconciliation_decision
          (apply_retry sha256 operation old.evidence_id old.decision state)
    let converged = current.revision == pos 5 && not current.decision.should_retry
    pure (
        new_result "restart_evidence_supersedes_retry" (blocked && converged) (some blocked)
          (some converged) (some blocked) (pos 0)
          "newer provider evidence durably supersedes pre-restart retry authority")

  unfoldable pub restart_evidence_supersedes_retry : Result ScenarioResult
  unfolding restart_evidence
  restart_evidence_supersedes_retry =
      from (record { heads = []; completions = [] }) restart_evidence

  repeated_lost_ack : Tx EvidenceDatabase ScenarioResult
  unfolding new_operation new_evidence record_evidence apply_retry mark_reconciled
      new_provider_state new_result Error-discrete
  repeated_lost_ack = do
    operation ← lift (create_record "op-loop")
    absent ← lift (absent_evidence sha256 operation (pos 4))
    retry ← record_evidence sha256 operation "absent-4" absent
    state ← lift (new_provider_state (pos 4) [])
    provider ← apply_retry sha256 operation retry.evidence_id retry.decision state
    present ← lift (present_evidence operation (pos 5))
    current ← record_evidence sha256 operation "present-5" present
    completion ← mark_reconciled sha256 operation current.evidence_id current.decision
    blocked ←
        blocks Error.superseded_reconciliation_decision
          (apply_retry sha256 operation retry.evidence_id retry.decision provider)
    let effect_count = length provider.effects
    let converged = completion.revision == pos 5 && effect_count == 1
    pure (
        new_result "repeated_lost_ack_converges" (blocked && converged)
          (some (blocked && effect_count == 1)) (some converged) (some blocked)
          (excess effect_count)
          "fresh PRESENT evidence closes a lost-ack loop and supersedes stale retry authority")

  unfoldable pub repeated_lost_ack_converges : Result ScenarioResult
  unfolding repeated_lost_ack
  repeated_lost_ack_converges = from (record { heads = []; completions = [] }) repeated_lost_ack

  -- The databases of the provider and of the evidence are two files.
  abbrev on_provider :
      {A : Type 0} → Tx ProviderDatabase A → Tx (ProviderDatabase × EvidenceDatabase) A
  on_provider m (p, e) = let (r, p') = m p in (r, (p', e))

  abbrev on_evidence :
      {A : Type 0} → Tx EvidenceDatabase A → Tx (ProviderDatabase × EvidenceDatabase) A
  on_evidence m (p, e) = let (r, e') = m e in (r, (p, e'))

  competing_retries : Tx (ProviderDatabase × EvidenceDatabase) ScenarioResult
  unfolding new_operation read conditional_apply snapshot record_evidence mark_reconciled new_result
      Error-discrete
  competing_retries = do
    operation ← lift (create_record "op-race")
    readback ← on_provider (read sha256 operation)
    retry ← on_evidence (record_evidence sha256 operation "absent-0" readback)
    first ← on_provider (conditional_apply sha256 operation retry.decision)
    stale_blocked ←
        blocks Error.stale_provider_readback
          (on_provider (conditional_apply sha256 operation retry.decision))
    present ← on_provider (read sha256 operation)
    current ← on_evidence (record_evidence sha256 operation "present-1" present)
    completion ← on_evidence (mark_reconciled sha256 operation current.evidence_id current.decision)
    final ← on_provider (snapshot operation.provider)
    let effect_count = length final.effects
    let converged =
        first.revision == pos 1
        && (final.revision == pos 1
            && (completion.revision == pos 1
                && (not current.decision.should_retry && effect_count == 1)))
    pure (
        new_result "competing_retry_authorities_converge" (stale_blocked && converged)
          (some (stale_blocked && effect_count == 1)) (some converged) (some stale_blocked)
          (excess effect_count)
          "one revision-bound retry commits and stale competing authority is rejected before convergence")

  unfoldable pub competing_retry_authorities_converge : Result ScenarioResult
  unfolding competing_retries
  competing_retry_authorities_converge =
      from (record { revisions = []; effects = [] }, record { heads = []; completions = [] })
        competing_retries
