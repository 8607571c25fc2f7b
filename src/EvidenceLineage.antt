-- ===== src/EvidenceLineage.antt =====
-- The durable lineage of reconciliation evidence (src/agent_reliability_lab/evidence_lineage.py): one
-- head and at most one completion for each external operation.
mod Settled
mod Mark
mod History
mod Tests
use coding_agent_reliability.Base.{
  ℕ, ◌≡◌, Bool, true, false, not, ◌&&◌, ◌||◌, Option, none, some, List, String, ◌==◌, string_eq,
  text_pair_eq, int_eq, ℤ, ltb_ℤ, if◌then◌else◌, Result, ok, err, Error, is_blank, lookup, insert,
}
use coding_agent_reliability.Base.Transaction.{
  Tx, pure, lift, gets, modify, refuse_if, raise, transaction, ◌>>=◌, ◌>>◌,
}
use coding_agent_reliability.Reconciliation.{
  ExternalOperation, ProviderEvidence, ReconciliationDecision, decision_eq, retry_action_eq,
  accept_remote_commit, VersionedProviderState, effect_sha256, reconcile_lost_ack,
  apply_conditional_retry,
}

pub record ReconciliationEvidenceRecord : Type 0 where
  pub provider : String
  pub operation_id : String
  pub evidence_id : String
  pub revision : ℤ
  pub effect_sha256 : String
  pub decision : ReconciliationDecision

pub record ReconciliationCompletionRecord : Type 0 where
  pub provider : String
  pub operation_id : String
  pub effect_sha256 : String
  pub evidence_id : String
  pub revision : ℤ

-- The tables reconciliation_heads and reconciliation_completions, keyed by provider and operation_id.
pub record EvidenceDatabase : Type 0 where
  pub heads : List ((String × String) × ReconciliationEvidenceRecord)
  pub completions : List ((String × String) × ReconciliationCompletionRecord)

abbrev pub key_of : ExternalOperation → String × String
key_of operation = (operation.provider, operation.operation_id)

abbrev pub head_of : String × String → EvidenceDatabase → Option ReconciliationEvidenceRecord
head_of key db = lookup key db.heads

abbrev pub completion_of :
    String × String → EvidenceDatabase → Option ReconciliationCompletionRecord
completion_of key db = lookup key db.completions

abbrev pub or_unrecorded : Option ℤ → Result ℤ
or_unrecorded none = err Error.evidence_lineage_conflict
or_unrecorded (some revision) = ok revision

-- `INSERT INTO reconciliation_heads ... ON CONFLICT ... DO UPDATE`
unfoldable pub put_head :
    ReconciliationEvidenceRecord → Tx EvidenceDatabase ReconciliationEvidenceRecord
put_head candidate = do
  modify (λ db. record db {
    heads = insert (candidate.provider, candidate.operation_id) candidate db.heads;
  })
  pure candidate

-- The branches on `candidate.revision == current.revision`.
abbrev pub put_or_keep :
    ReconciliationEvidenceRecord
    → ReconciliationEvidenceRecord
    → Bool
    → Tx EvidenceDatabase ReconciliationEvidenceRecord
put_or_keep candidate head true = do
  refuse_if
      (not (candidate.effect_sha256 == head.effect_sha256 && candidate.decision == head.decision))
      Error.evidence_lineage_conflict
  pure head
put_or_keep candidate head false = put_head candidate

-- `hashlib.sha256(text.encode()).hexdigest()` is the parameter `sha256`.
module _ (sha256 : List ℕ → String) where
  abbrev pub candidate_of :
      ExternalOperation → String → ℤ → ReconciliationDecision → ReconciliationEvidenceRecord
  candidate_of operation evidence_id revision decision = record {
    provider = operation.provider;
    operation_id = operation.operation_id;
    evidence_id = evidence_id;
    revision = revision;
    effect_sha256 = effect_sha256 sha256 operation;
    decision = decision;
  }

  -- The tests of `record` on a completion.
  unfoldable pub check_completion :
      ExternalOperation
      → ReconciliationDecision
      → Option ReconciliationCompletionRecord
      → Tx EvidenceDatabase Unit
  check_completion operation decision none = pure tt
  check_completion operation decision (some completion) = do
    refuse_if (not (completion.effect_sha256 == effect_sha256 sha256 operation))
        Error.evidence_lineage_conflict
    refuse_if decision.should_retry Error.superseded_reconciliation_decision

  -- The rest of `record`, by the row of the head.
  unfoldable pub record_head :
      ExternalOperation
      → ReconciliationEvidenceRecord
      → Option ReconciliationEvidenceRecord
      → Tx EvidenceDatabase ReconciliationEvidenceRecord
  unfolding put_head
  record_head operation candidate none = put_head candidate
  record_head operation candidate (some head) = do
    refuse_if (not (head.effect_sha256 == effect_sha256 sha256 operation))
        Error.evidence_lineage_conflict
    refuse_if (ltb_ℤ candidate.revision head.revision) Error.superseded_reconciliation_decision
    put_or_keep candidate head (candidate.revision == head.revision)

  -- The transaction of `record`.
  unfoldable pub record_candidate :
      ExternalOperation
      → ReconciliationEvidenceRecord
      → Tx EvidenceDatabase ReconciliationEvidenceRecord
  unfolding check_completion record_head transaction
  record_candidate operation candidate = transaction do
    completion ← gets (completion_of (key_of operation))
    check_completion operation candidate.decision completion
    head ← gets (head_of (key_of operation))
    record_head operation candidate head

  -- The method `record`.
  unfoldable pub record_evidence :
      ExternalOperation
      → String
      → ProviderEvidence
      → Tx EvidenceDatabase ReconciliationEvidenceRecord
  record_evidence operation evidence_id evidence = do
    refuse_if (is_blank evidence_id) Error.value_error
    revision ← lift (or_unrecorded evidence.readback_revision)
    decision ← lift (reconcile_lost_ack sha256 operation evidence)
    record_candidate operation (candidate_of operation evidence_id revision decision)

  -- The row of the head, which must be that of the operation.
  abbrev pub bound_head :
      ExternalOperation → Option ReconciliationEvidenceRecord → Result ReconciliationEvidenceRecord
  bound_head operation none = err Error.evidence_lineage_conflict
  bound_head operation (some head) =
      if not (head.effect_sha256 == effect_sha256 sha256 operation)
      then err Error.evidence_lineage_conflict
      else ok head

  unfoldable pub current : ExternalOperation → Tx EvidenceDatabase ReconciliationEvidenceRecord
  unfolding transaction
  current operation = do
    row ← transaction (gets (head_of (key_of operation)))
    lift (bound_head operation row)

  abbrev bound_completion :
      ExternalOperation
      → Option ReconciliationCompletionRecord
      → Result (Option ReconciliationCompletionRecord)
  bound_completion operation none = ok none
  bound_completion operation (some completion) =
      if not (completion.effect_sha256 == effect_sha256 sha256 operation)
      then err Error.evidence_lineage_conflict
      else ok (some completion)

  unfoldable pub completion :
      ExternalOperation → Tx EvidenceDatabase (Option ReconciliationCompletionRecord)
  unfolding transaction
  completion operation = do
    row ← transaction (gets (completion_of (key_of operation)))
    lift (bound_completion operation row)

  -- `current.evidence_id != evidence_id or current.decision != decision`
  abbrev pub is_superseded : ReconciliationEvidenceRecord → String → ReconciliationDecision → Bool
  is_superseded head evidence_id decision =
      not (head.evidence_id == evidence_id) || not (head.decision == decision)

  abbrev pub new_completion : ExternalOperation → String → ℤ → ReconciliationCompletionRecord
  new_completion operation evidence_id revision = record {
    provider = operation.provider;
    operation_id = operation.operation_id;
    effect_sha256 = effect_sha256 sha256 operation;
    evidence_id = evidence_id;
    revision = revision;
  }

  -- The end of `mark_reconciled`, by the row of the completion.
  unfoldable pub complete :
      ExternalOperation
      → ReconciliationCompletionRecord
      → Option ReconciliationCompletionRecord
      → Tx EvidenceDatabase ReconciliationCompletionRecord
  complete operation done (some existing) = do
    refuse_if (not (existing.effect_sha256 == effect_sha256 sha256 operation))
        Error.evidence_lineage_conflict
    pure existing
  complete operation done none = do
    modify (λ db. record db { completions = insert (key_of operation) done db.completions })
    pure done

  unfoldable pub mark_reconciled :
      ExternalOperation
      → String
      → ReconciliationDecision
      → Tx EvidenceDatabase ReconciliationCompletionRecord
  unfolding complete transaction
  mark_reconciled operation evidence_id decision = transaction do
    row ← gets (head_of (key_of operation))
    head ← lift (bound_head operation row)
    refuse_if (is_superseded head evidence_id decision) Error.superseded_reconciliation_decision
    refuse_if (decision.should_retry || not (decision.action == accept_remote_commit))
        Error.evidence_lineage_conflict
    existing ← gets (completion_of (key_of operation))
    complete operation (new_completion operation evidence_id head.revision) existing

  unfoldable pub assert_current :
      ExternalOperation → String → ReconciliationDecision → Tx EvidenceDatabase Unit
  unfolding current
  assert_current operation evidence_id decision = do
    head ← current operation
    refuse_if (is_superseded head evidence_id decision) Error.superseded_reconciliation_decision

  unfoldable pub apply_retry :
      ExternalOperation
      → String
      → ReconciliationDecision
      → VersionedProviderState
      → Tx EvidenceDatabase VersionedProviderState
  unfolding assert_current
  apply_retry operation evidence_id decision provider_state = do
    assert_current operation evidence_id decision
    lift (apply_conditional_retry sha256 operation decision provider_state)
