-- ===== src/Reconciliation/Provider/Readback.antt =====
-- What a worker reads back from the provider: the commit of a retry, or its absence.
use coding_agent_reliability.Base.{
  ℕ, ◌≡◌, refl, ◌∙◌, ap, none, some, List, [], ◌∷◌, ◌++◌, arith, String, string_eq, text_pair_eq, ℤ,
  pos, ◌+ℤ◌, ◌≤ℤ◌, +ℤ_parts, ok, lookup, insert, lookup-insert,
}
use coding_agent_reliability.Reconciliation.{
  ExternalOperation, new_operation, ProviderEvidence, present, ReconciliationDecision, accepted,
  VersionedProviderState, reconcile_lost_ack,
}
use coding_agent_reliability.Reconciliation.Retry.{apply_conditional_retry_commits}
use coding_agent_reliability.Reconciliation.Decisions.{reconcile_accepts}
use coding_agent_reliability.Reconciliation.Provider.{
  ProviderDatabase, snapshot_of, read, conditional_apply,
}
use coding_agent_reliability.Reconciliation.Provider.Revisions.{
  revision_of, prepared, prepared-effects, snapshot_of-revision, snapshot_step,
  conditional_apply_commits,
}
use coding_agent_reliability.Reconciliation.Provider.Rows.{snapshot_of-bound, snapshot_of-insert}

prepared-found :
    (provider : String) (revision : ℤ) (db : ProviderDatabase)
    → lookup provider db.revisions ≡ some revision
    → prepared provider db ≡ db
prepared-found provider revision db found = ground (arith, found)

-- The evidence of a commit at a revision.
abbrev pub confirming : ExternalOperation → ℤ → ProviderEvidence
confirming op revision = record {
  provider = op.provider;
  operation_id = op.operation_id;
  readback = present;
  observed_tool = some op.tool;
  observed_payload = some op.payload;
  readback_revision = some revision;
  idempotency_key = none;
  idempotency_effect_sha256 = none;
}

own_row :
    (key value : String × String) (rows : List ((String × String) × (String × String)))
    → lookup key (insert key value rows) ≡ some value
own_row key value rows = ground (arith, lookup-insert key key value rows)

own_revision :
    (provider : String) (revision : ℤ) (rows : List (String × ℤ))
    → lookup provider (insert provider revision rows) ≡ some revision
own_revision provider revision rows = ground (arith, lookup-insert provider provider revision rows)

next_revision :
    (op : ExternalOperation) (t s : VersionedProviderState) (revision : ℤ)
    → t ≡ record { revision = s.revision +ℤ pos 1; effects = s.effects ++ op ∷ [] }
    → s.revision ≡ revision
    → t.revision ≡ revision +ℤ pos 1
next_revision op t s revision result at_revision = ground arith

grown : (a b : ℤ) → pos 0 ≤ℤ a → b ≡ a +ℤ pos 1 → pos 0 ≤ℤ b
grown a b le moved = ground (arith, +ℤ_parts a (pos 1))

module _ (sha256 : List ℕ → String) where
  read_present :
      (op : ExternalOperation) (db : ProviderDatabase) (s : VersionedProviderState)
      → snapshot_of op.provider (revision_of op.provider db) db.effects ≡ ok s
      → lookup (op.provider, op.operation_id) (prepared op.provider db).effects
        ≡ some (op.tool, op.payload)
      → pos 0 ≤ℤ s.revision
      → read sha256 op db ≡ (ok (confirming op s.revision), prepared op.provider db)
  unfolding read
  read_present op db s taken found le = ground (arith, taken, found, snapshot_step op.provider db)

  read_stored :
      (op : ExternalOperation) (s : VersionedProviderState) (revision : ℤ) (db : ProviderDatabase)
      (rows : List ((String × String) × (String × String)))
      → lookup op.provider db.revisions ≡ some revision
      → db.effects ≡ insert (op.provider, op.operation_id) (op.tool, op.payload) rows
      → snapshot_of op.provider revision
          (insert (op.provider, op.operation_id) (op.tool, op.payload) rows)
        ≡ ok s
      → pos 0 ≤ℤ revision
      → read sha256 op db ≡ (ok (confirming op revision), db)
  read_stored op s revision db rows found effects taken le =
      read_present op db s (rw (found, effects) taken) stored (rw at_revision le)
      ∙ rw (prepared-found op.provider revision db found, at_revision) refl
    where
      at_revision : s.revision ≡ revision
      at_revision = snapshot_of-revision op.provider revision _ s taken

      stored :
          lookup (op.provider, op.operation_id) (prepared op.provider db).effects
          ≡ some (op.tool, op.payload)
      stored =
          rw (prepared-effects op.provider db, effects)
            (own_row (op.provider, op.operation_id) (op.tool, op.payload) rows)

  -- A committed retry reads back as committed: when `conditional_apply` of an operation with nonblank
  -- names has returned, `read` of the operation succeeds, changes nothing, confirms exactly its effect
  -- at the next revision, and `reconcile_lost_ack` accepts that evidence without a retry.
  pub read_after_apply :
      (op : ExternalOperation) (d : ReconciliationDecision) (t : VersionedProviderState)
      (db db' : ProviderDatabase)
      → new_operation op.provider op.operation_id op.tool op.payload ≡ ok op
      → conditional_apply sha256 op d db ≡ (ok t, db')
      → (read sha256 op db' ≡ (ok (confirming op (revision_of op.provider db +ℤ pos 1)), db'))
        × (reconcile_lost_ack sha256 op (confirming op (revision_of op.provider db +ℤ pos 1))
            ≡ ok accepted)
  read_after_apply op d t db db' valid h =
      let (s, taken, applied, free, same) = conditional_apply_commits sha256 op d t db db' h in
      let at_revision =
        snapshot_of-revision op.provider (revision_of op.provider db) db.effects s taken in
      let (_, _, _, _, _, result) = apply_conditional_retry_commits sha256 op d s t applied in
      let is_next = next_revision op t s (revision_of op.provider db) result at_revision in
      let le =
        grown (revision_of op.provider db) t.revision
          (snapshot_of-bound op.provider (revision_of op.provider db) db.effects s taken) is_next in
      let (s', built) =
        snapshot_of-insert op s (revision_of op.provider db) t.revision db.effects valid taken free
          le in
      let found =
        ap (λ (x : ProviderDatabase). lookup op.provider x.revisions) same
        ∙ own_revision op.provider t.revision (prepared op.provider db).revisions in
      let effects =
        ap (λ (x : ProviderDatabase). x.effects) same
        ∙ ap (insert (op.provider, op.operation_id) (op.tool, op.payload))
            (prepared-effects op.provider db) in
      let reads = read_stored op s' t.revision db' db.effects found effects built le in
      (
        reads ∙ ap (λ (r : ℤ). (ok (confirming op r), db')) is_next,
        reconcile_accepts sha256 op (confirming op (revision_of op.provider db +ℤ pos 1)) (record {
          provider = refl;
          operation = refl;
          readback = refl;
          tool = refl;
          payload = refl;
        }),
      )
