-- ===== src/Reconciliation/Provider.antt =====
-- The SQLite provider, `VersionedProviderStore` of src/agent_reliability_lab/reconciliation.py.
mod Revisions
mod Spent
mod Rows
mod Readback
mod Tests
use coding_agent_reliability.Base.{
  ℕ, not, Option, none, some, List, [], ◌∷◌, String, ◌==◌, string_eq, text_pair_eq, ℤ, pos,
  if◌then◌else◌, Result, ok, err, Error, is_blank, is_some, lookup, insert,
}
use coding_agent_reliability.Base.Errors.{◌>>=◌ as bind}
use coding_agent_reliability.Base.Sorting.{sort_by_id}
use coding_agent_reliability.Base.Transaction.{
  Tx, pure, lift, gets, modify, refuse_if, transaction, ◌>>=◌, ◌>>◌,
}
use coding_agent_reliability.Reconciliation.{
  ExternalOperation, ProviderEvidence, present, absent, ReconciliationDecision,
  VersionedProviderState, new_operation, new_evidence, new_provider_state, effect_sha256,
  apply_conditional_retry,
}

-- The tables provider_revisions, keyed by provider, and provider_effects, keyed by provider and
-- operation_id, with the tool and the payload of an effect.
pub record ProviderDatabase : Type 0 where
  pub revisions : List (String × ℤ)
  pub effects : List ((String × String) × (String × String))

-- The rows of one provider: operation_id, and the tool and the payload.
unfoldable pub select_effects :
    String → List ((String × String) × (String × String)) → List (String × (String × String))
select_effects provider [] = []
select_effects provider ((key, effect) ∷ rows) =
    let rest = select_effects provider rows in
    if key.0 == provider then (key.1, effect) ∷ rest else rest

-- `ExternalOperation(...)` for each row.
unfoldable pub build_effects :
    String → List (String × (String × String)) → Result (List ExternalOperation)
unfolding new_operation
build_effects provider [] = ok []
build_effects provider ((id, (tool, payload)) ∷ rows) =
    bind (new_operation provider id tool payload)
      λ operation. bind (build_effects provider rows) λ operations. ok (operation ∷ operations)

-- The revision of a provider, whose row is inserted when there is none.
unfoldable pub read_revision : String → Option ℤ → Tx ProviderDatabase ℤ
read_revision provider none = do
  modify (λ db. record db { revisions = insert provider (pos 0) db.revisions })
  pure (pos 0)
read_revision provider (some revision) = pure revision

unfoldable pub snapshot_of :
    String → ℤ → List ((String × String) × (String × String)) → Result VersionedProviderState
snapshot_of provider revision rows =
    bind (build_effects provider (sort_by_id (select_effects provider rows)))
      λ effects. new_provider_state revision effects

-- `_snapshot_in_transaction`
unfoldable pub snapshot_in_transaction : String → Tx ProviderDatabase VersionedProviderState
unfolding read_revision
snapshot_in_transaction provider = do
  row ← gets (λ db. lookup provider db.revisions)
  revision ← read_revision provider row
  rows ← gets (λ db. db.effects)
  lift (snapshot_of provider revision rows)

unfoldable pub snapshot : String → Tx ProviderDatabase VersionedProviderState
unfolding transaction
snapshot provider = do
  refuse_if (is_blank provider) Error.value_error
  transaction (snapshot_in_transaction provider)

module _ (sha256 : List ℕ → String) where
  -- What `read` returns for the row that it has read.
  unfoldable pub evidence_of :
      ExternalOperation → ℤ → Option (String × String) → Result ProviderEvidence
  unfolding new_evidence
  evidence_of operation revision none = new_evidence (record {
    provider = operation.provider;
    operation_id = operation.operation_id;
    readback = absent;
    observed_tool = none;
    observed_payload = none;
    readback_revision = some revision;
    idempotency_key = some operation.operation_id;
    idempotency_effect_sha256 = some (effect_sha256 sha256 operation);
  })
  evidence_of operation revision (some effect) =
      if not (effect == (operation.tool, operation.payload))
      then err Error.reconciliation_conflict
      else new_evidence (record {
        provider = operation.provider;
        operation_id = operation.operation_id;
        readback = present;
        observed_tool = some effect.0;
        observed_payload = some effect.1;
        readback_revision = some revision;
        idempotency_key = none;
        idempotency_effect_sha256 = none;
      })

  -- The transaction of `read`: the snapshot and the row of the operation.
  unfoldable pub read_row :
      ExternalOperation → Tx ProviderDatabase (VersionedProviderState × Option (String × String))
  read_row operation = do
    state ← snapshot_in_transaction operation.provider
    row ← gets (λ db. lookup (operation.provider, operation.operation_id) db.effects)
    pure (state, row)

  unfoldable pub read : ExternalOperation → Tx ProviderDatabase ProviderEvidence
  unfolding read_row evidence_of transaction
  read operation = do
    found ← transaction (read_row operation)
    lift (evidence_of operation found.0.revision found.1)

  -- `INSERT INTO provider_effects`, under its primary key, and the update of the revision.
  unfoldable pub insert_effect : ExternalOperation → ℤ → Tx ProviderDatabase Unit
  insert_effect operation revision = do
    row ← gets (λ db. lookup (operation.provider, operation.operation_id) db.effects)
    refuse_if (is_some row) Error.integrity_error
    modify (λ db. record {
      revisions = insert operation.provider revision db.revisions;
      effects =
          insert (operation.provider, operation.operation_id) (operation.tool, operation.payload)
            db.effects;
    })

  unfoldable pub conditional_apply :
      ExternalOperation → ReconciliationDecision → Tx ProviderDatabase VersionedProviderState
  unfolding insert_effect transaction
  conditional_apply operation decision = transaction do
    now ← snapshot_in_transaction operation.provider
    updated ← lift (apply_conditional_retry sha256 operation decision now)
    insert_effect operation updated.revision
    pure updated
