-- ===== src/Reconciliation/Decisions.antt =====
-- Which evidence leads to which decision.
use coding_agent_reliability.Base.{
  ℕ, ◌≡◌, refl, none, some, List, arith, String, string_eq, optional_text_eq, ℤ, ok, ◌⊎◌, inl, inr,
  Option-cases,
}
use coding_agent_reliability.Reconciliation.{
  ExternalOperation, ProviderReadbackState, ProviderEvidence, present, absent, ambiguous,
  ReconciliationDecision, accepted, retry_at, effect_sha256, reconcile_lost_ack,
}

readback_cases : (s : ProviderReadbackState) → ((s ≡ present) ⊎ (s ≡ absent)) ⊎ (s ≡ ambiguous)
readback_cases present = inl (inl refl)
readback_cases absent = inl (inr refl)
readback_cases ambiguous = inr refl

module _ (sha256 : List ℕ → String) where
  -- The evidence reports the exact effect of the operation.
  pub record ConfirmsCommit (op : ExternalOperation) (ev : ProviderEvidence) : Type 0 where
    pub provider : ev.provider ≡ op.provider
    pub operation : ev.operation_id ≡ op.operation_id
    pub readback : ev.readback ≡ present
    pub tool : ev.observed_tool ≡ some op.tool
    pub payload : ev.observed_payload ≡ some op.payload

  -- The evidence reports at a revision that there is no effect, and binds the operation's identity as
  -- the idempotency key of exactly its effect.
  pub record PermitsRetry (op : ExternalOperation) (ev : ProviderEvidence) (revision : ℤ)
      : Type 0 where
    pub provider : ev.provider ≡ op.provider
    pub operation : ev.operation_id ≡ op.operation_id
    pub readback : ev.readback ≡ absent
    pub tool : ev.observed_tool ≡ none
    pub payload : ev.observed_payload ≡ none
    pub key : ev.idempotency_key ≡ some op.operation_id
    pub effect : ev.idempotency_effect_sha256 ≡ some (effect_sha256 sha256 op)
    pub at_revision : ev.readback_revision ≡ some revision

  reconcile_ambiguous :
      (op : ExternalOperation) (ev : ProviderEvidence) (d : ReconciliationDecision)
      → ev.readback ≡ ambiguous
      → ¬ (reconcile_lost_ack sha256 op ev ≡ ok d)
  unfolding reconcile_lost_ack
  reconcile_ambiguous op ev d s h = ground arith

  reconcile_present :
      (op : ExternalOperation) (ev : ProviderEvidence) (d : ReconciliationDecision)
      → ev.readback ≡ present
      → reconcile_lost_ack sha256 op ev ≡ ok d
      → ConfirmsCommit op ev × (d ≡ accepted)
  unfolding reconcile_lost_ack
  reconcile_present op ev d s h = ground arith

  reconcile_absent :
      (op : ExternalOperation) (ev : ProviderEvidence) (d : ReconciliationDecision)
      → ev.readback ≡ absent
      → reconcile_lost_ack sha256 op ev ≡ ok d
      → (revision : ℤ) × PermitsRetry op ev revision × (d ≡ retry_at sha256 op revision)
  unfolding reconcile_lost_ack
  reconcile_absent op ev d s h = elim (Option-cases ev.readback_revision) [
    | inl unknown ↦ absurd (ground (arith, unknown))
    | inr (revision, known) ↦ (revision, ground arith, ground arith)
  ]

  -- A decision that reconciliation returns is one of two: to accept the commit, on evidence that
  -- confirms it, or to retry at a revision, on evidence that permits it there. All other evidence
  -- raises.
  pub reconcile_sound :
      (op : ExternalOperation) (ev : ProviderEvidence) (d : ReconciliationDecision)
      → reconcile_lost_ack sha256 op ev ≡ ok d
      → (ConfirmsCommit op ev × (d ≡ accepted))
        ⊎ ((revision : ℤ) × PermitsRetry op ev revision × (d ≡ retry_at sha256 op revision))
  reconcile_sound op ev d h = elim (readback_cases ev.readback) [
    | inl (inl s) ↦ inl (reconcile_present op ev d s h)
    | inl (inr s) ↦ inr (reconcile_absent op ev d s h)
    | inr s ↦ absurd (reconcile_ambiguous op ev d s h)
  ]

  -- Evidence that confirms the commit of the operation is accepted, without a retry.
  pub reconcile_accepts :
      (op : ExternalOperation) (ev : ProviderEvidence)
      → ConfirmsCommit op ev
      → reconcile_lost_ack sha256 op ev ≡ ok accepted
  unfolding reconcile_lost_ack
  reconcile_accepts op ev c = ground arith

  -- Evidence that permits a retry leads to a retry of the exact operation at that revision.
  pub reconcile_permits :
      (op : ExternalOperation) (ev : ProviderEvidence) (revision : ℤ)
      → PermitsRetry op ev revision
      → reconcile_lost_ack sha256 op ev ≡ ok (retry_at sha256 op revision)
  unfolding reconcile_lost_ack
  reconcile_permits op ev revision p = ground arith
