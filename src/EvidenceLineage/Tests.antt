-- ===== src/EvidenceLineage/Tests.antt =====
-- An operation whose retry is recorded, and whose commit is then found and marked as reconciled, as in
-- tests/test_reconciliation_evidence_lineage.py, and the theorems there.
use coding_agent_reliability.Base.{
  ℕ, ◌≡◌, ◌≢◌, refl, ap, none, some, List, [], ◌∷◌, String, String-discrete, text_pair_discrete,
  optional_text_discrete, ℤ-discrete, pos, ◌+ℤ◌, ok, is_blank, lookup, insert,
}
use coding_agent_reliability.Reconciliation.{
  ExternalOperation, ProviderEvidence, present, absent, RetryAction-discrete,
  ReconciliationDecision-discrete, accepted, VersionedProviderState, retry_at, reconcile_lost_ack,
  apply_conditional_retry,
}
use coding_agent_reliability.EvidenceLineage.{
  ReconciliationEvidenceRecord, ReconciliationCompletionRecord, EvidenceDatabase, key_of,
  candidate_of, new_completion, record_candidate, record_evidence, mark_reconciled, apply_retry,
}
use coding_agent_reliability.EvidenceLineage.Settled.{Extends, IsSettled}
use coding_agent_reliability.EvidenceLineage.History.{
  record_call, mark_call, run_call, run_calls, run_calls-IsSettled, no_retry_after_completion,
}

abbrev operation : ExternalOperation
operation = record {
  provider = "provider-a";
  operation_id = "op-1";
  tool = "create";
  payload = "ticket";
}

-- A digest of the tests' own.
abbrev digest : List ℕ → String
digest text = "d"

abbrev evidence_missing : ProviderEvidence
evidence_missing = record {
  provider = "provider-a";
  operation_id = "op-1";
  readback = absent;
  observed_tool = none;
  observed_payload = none;
  readback_revision = some (pos 3);
  idempotency_key = some "op-1";
  idempotency_effect_sha256 = some "d";
}

abbrev evidence_committed : ProviderEvidence
evidence_committed = record {
  provider = "provider-a";
  operation_id = "op-1";
  readback = present;
  observed_tool = some "create";
  observed_payload = some "ticket";
  readback_revision = some (pos 4);
  idempotency_key = none;
  idempotency_effect_sha256 = none;
}

abbrev empty : EvidenceDatabase
empty = record { heads = []; completions = [] }

abbrev retry_recorded : ReconciliationEvidenceRecord
retry_recorded =
    candidate_of digest operation "evidence-1" (pos 3) (retry_at digest operation (pos 3))

abbrev commit_recorded : ReconciliationEvidenceRecord
commit_recorded = candidate_of digest operation "evidence-2" (pos 4) accepted

abbrev completed : ReconciliationCompletionRecord
completed = new_completion digest operation "evidence-2" (pos 4)

abbrev with_head : ReconciliationEvidenceRecord → EvidenceDatabase
with_head r = record { heads = (key_of operation, r) ∷ []; completions = [] }

abbrev before : VersionedProviderState
before = record { revision = pos 3; effects = [] }

abbrev after : VersionedProviderState
after = record { revision = pos 4; effects = operation ∷ [] }

empty-IsSettled : IsSettled empty
unfolding lookup
empty-IsSettled key c h = cc

records_missing :
    record_evidence digest operation "evidence-1" evidence_missing empty
    ≡ (ok retry_recorded, with_head retry_recorded)
unfolding record_evidence record_candidate reconcile_lost_ack is_blank lookup insert String-discrete
    optional_text_discrete
records_missing = refl

records_committed :
    record_evidence digest operation "evidence-2" evidence_committed (with_head retry_recorded)
    ≡ (ok commit_recorded, with_head commit_recorded)
unfolding record_evidence record_candidate reconcile_lost_ack is_blank lookup insert String-discrete
    text_pair_discrete optional_text_discrete ℤ-discrete
records_committed = refl

marks : mark_reconciled digest operation "evidence-2" accepted (with_head commit_recorded) ≡ (
  ok completed,
  record {
    heads = (key_of operation, commit_recorded) ∷ [];
    completions = (key_of operation, completed) ∷ [];
  },
)
unfolding mark_reconciled lookup insert String-discrete text_pair_discrete
    ReconciliationDecision-discrete RetryAction-discrete
marks = refl

run_calls-IsSettled_example :
    let calls =
      record_call operation "evidence-1" evidence_missing
      ∷ record_call operation "evidence-2" evidence_committed
      ∷ mark_call operation "evidence-2" accepted
      ∷ [] in
    Extends empty (run_calls digest calls empty) × IsSettled (run_calls digest calls empty)
run_calls-IsSettled_example =
    run_calls-IsSettled digest
      (record_call operation "evidence-1" evidence_missing
        ∷ record_call operation "evidence-2" evidence_committed
        ∷ mark_call operation "evidence-2" accepted
        ∷ [])
      empty empty-IsSettled

retries :
    apply_retry digest operation "evidence-1"
      (retry_at digest operation (pos 3))
      before
      (with_head retry_recorded)
    ≡ (ok after, with_head retry_recorded)
unfolding apply_retry apply_conditional_retry lookup String-discrete text_pair_discrete
    ReconciliationDecision-discrete RetryAction-discrete optional_text_discrete ℤ-discrete ◌+ℤ◌
retries = refl

settled : IsSettled (with_head commit_recorded)
unfolding lookup
settled key c h = cc

no_retry_after_completion_example :
    apply_retry digest operation "evidence-1" (retry_at digest operation (pos 3)) before (
      run_calls digest
        (record_call operation "evidence-3" evidence_missing ∷ [])
        (run_call digest (mark_call operation "evidence-2" accepted) (with_head commit_recorded)))
    ≢ (ok after, empty)
no_retry_after_completion_example =
    no_retry_after_completion digest operation operation "evidence-2" "evidence-1" accepted
      (retry_at digest operation (pos 3)) (record_call operation "evidence-3" evidence_missing ∷ [])
      before after (with_head commit_recorded) empty completed settled (ap (λ p. p.0) marks) refl
