-- ===== src/Reconciliation/Tests.antt =====
-- The operations and evidence of tests/test_idempotency_reconciliation.py, and the theorems there.
use coding_agent_reliability.Base.{
  ℕ, ◌≡◌, ◌≢◌, refl, true, false, none, some, List, [], ◌∷◌, ◌++◌, String, String-discrete,
  optional_text_discrete, ℤ-discrete, ℤ, pos, ◌+ℤ◌, arith, ok, ◌⊎◌,
}
use coding_agent_reliability.Reconciliation.{
  ExternalOperation, ProviderEvidence, present, absent, ReconciliationDecision,
  RetryAction-discrete, retry_exact_operation, accepted, VersionedProviderState, retry_at,
  effect_sha256, has_effect, reconcile_lost_ack, apply_conditional_retry,
}
use coding_agent_reliability.Reconciliation.Decisions.{
  ConfirmsCommit, PermitsRetry, reconcile_sound, reconcile_accepts, reconcile_permits,
}
use coding_agent_reliability.Reconciliation.Retry.{
  HasUniqueEffects, effect_count, apply_conditional_retry_commits, retry_authority_is_spent,
}
use coding_agent_reliability.Reconciliation.Identity.{canonical-injective}

abbrev operation : String → ExternalOperation
operation id = record {
  provider = "provider-a";
  operation_id = id;
  tool = "create";
  payload = "ticket";
}

-- A digest of the tests' own.
abbrev digest : List ℕ → String
digest text = "d"

abbrev committed : ProviderEvidence
committed = record {
  provider = "provider-a";
  operation_id = "op-1";
  readback = present;
  observed_tool = some "create";
  observed_payload = some "ticket";
  readback_revision = some (pos 3);
  idempotency_key = none;
  idempotency_effect_sha256 = none;
}

abbrev missing : ProviderEvidence
missing = record {
  provider = "provider-a";
  operation_id = "op-1";
  readback = absent;
  observed_tool = none;
  observed_payload = none;
  readback_revision = some (pos 3);
  idempotency_key = some "op-1";
  idempotency_effect_sha256 = some "d";
}

abbrev before : VersionedProviderState
before = record { revision = pos 3; effects = operation "op-0" ∷ [] }

abbrev after : VersionedProviderState
after = record { revision = pos 4; effects = operation "op-0" ∷ operation "op-1" ∷ [] }

committed-ConfirmsCommit : ConfirmsCommit digest (operation "op-1") committed
committed-ConfirmsCommit = record {
  provider = refl;
  operation = refl;
  readback = refl;
  tool = refl;
  payload = refl;
}

missing-PermitsRetry : PermitsRetry digest (operation "op-1") missing (pos 3)
missing-PermitsRetry = record {
  provider = refl;
  operation = refl;
  readback = refl;
  tool = refl;
  payload = refl;
  key = refl;
  effect = refl;
  at_revision = refl;
}

accepts_committed : reconcile_lost_ack digest (operation "op-1") committed ≡ ok accepted
accepts_committed = reconcile_accepts digest (operation "op-1") committed committed-ConfirmsCommit

permits_missing :
    reconcile_lost_ack digest (operation "op-1") missing
    ≡ ok (retry_at digest (operation "op-1") (pos 3))
permits_missing = reconcile_permits digest (operation "op-1") missing (pos 3) missing-PermitsRetry

abbrev decision : ReconciliationDecision
decision = retry_at digest (operation "op-1") (pos 3)

reconcile_sound_example :
    (ConfirmsCommit digest (operation "op-1") missing × (decision ≡ accepted))
    ⊎ ((revision : ℤ) × PermitsRetry digest (operation "op-1") missing revision
        × (decision ≡ retry_at digest (operation "op-1") revision))
reconcile_sound_example = reconcile_sound digest (operation "op-1") missing decision permits_missing

applied : apply_conditional_retry digest (operation "op-1") decision before ≡ ok after
unfolding apply_conditional_retry String-discrete RetryAction-discrete optional_text_discrete
    ℤ-discrete ◌+ℤ◌
applied = refl

retry_commits :
    (true ≡ true)
    × (decision.action ≡ retry_exact_operation)
    × (some (pos 3) ≡ some before.revision)
    × (some "d" ≡ some (effect_sha256 digest (operation "op-1")))
    × (has_effect "provider-a" "op-1" before.effects ≡ false)
    × (after ≡ record {
      revision = before.revision +ℤ pos 1;
      effects = before.effects ++ operation "op-1" ∷ [];
    })
retry_commits =
    apply_conditional_retry_commits digest (operation "op-1") decision before after applied

before-HasUniqueEffects : HasUniqueEffects before
unfolding effect_count
before-HasUniqueEffects provider id = ground arith

retry_authority_is_spent_example :
    apply_conditional_retry digest (operation "op-2") decision after ≢ ok before
retry_authority_is_spent_example =
    retry_authority_is_spent digest (operation "op-1") (operation "op-2") decision before after
      after before applied (omega arith)

canonical-injective_example : operation "op-1" ≡ operation "op-1"
canonical-injective_example = canonical-injective (operation "op-1") (operation "op-1") refl
