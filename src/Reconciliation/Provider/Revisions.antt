-- ===== src/Reconciliation/Provider/Revisions.antt =====
-- The revisions of the provider store: what each method does to them, and that a committed retry
-- spends its decision for all workers.
use coding_agent_reliability.Base.{
  ℕ, ◌≡◌, ◌≢◌, refl, ◌∙◌, ap, Option, none, some, List, [], ◌∷◌, ◌++◌, arith, String, ◌==◌,
  string_eq, text_pair_eq, ℤ, pos, ◌+ℤ◌, ◌≤ℤ◌, +ℤ_parts, if◌then◌else◌, ok, err, Error, lookup,
  insert, lookup-insert, inl, inr, Option-cases, Result-cases,
}
use coding_agent_reliability.Base.Sorting.{sort_by_id}
use coding_agent_reliability.Reconciliation.{
  ExternalOperation, ReconciliationDecision, VersionedProviderState, new_provider_state,
  apply_conditional_retry,
}
use coding_agent_reliability.Reconciliation.Retry.{apply_conditional_retry_commits}
use coding_agent_reliability.Reconciliation.Provider.{
  ProviderDatabase, select_effects, build_effects, snapshot_of, snapshot_in_transaction,
  conditional_apply,
}

-- The revision of a row, and 0 without one.
abbrev revision_from : Option ℤ → ℤ
revision_from none = pos 0
revision_from (some revision) = revision

abbrev pub revision_of : String → ProviderDatabase → ℤ
revision_of provider db = revision_from (lookup provider db.revisions)

-- The row of the provider is there.
abbrev with_row : String → Option ℤ → ProviderDatabase → ProviderDatabase
with_row provider none db = record db { revisions = insert provider (pos 0) db.revisions }
with_row provider (some revision) db = db

abbrev pub prepared : String → ProviderDatabase → ProviderDatabase
prepared provider db = with_row provider (lookup provider db.revisions) db

pub revision_of-prepared :
    (provider p : String) (db : ProviderDatabase)
    → revision_of p (prepared provider db) ≡ revision_of p db
revision_of-prepared provider p db = elim (Option-cases (lookup provider db.revisions)) [
  | inl missing ↦ ground (arith, missing, lookup-insert provider p (pos 0) db.revisions)
  | inr (revision, found) ↦ ground (arith, found)
]

pub prepared-effects :
    (provider : String) (db : ProviderDatabase) → (prepared provider db).effects ≡ db.effects
prepared-effects provider db = elim (Option-cases (lookup provider db.revisions)) [
  | inl missing ↦ ground (arith, missing)
  | inr (revision, found) ↦ ground (arith, found)
]

pub snapshot_step :
    (provider : String) (db : ProviderDatabase)
    → snapshot_in_transaction provider db
      ≡ (snapshot_of provider (revision_of provider db) db.effects, prepared provider db)
unfolding snapshot_in_transaction
snapshot_step provider db = elim (Option-cases (lookup provider db.revisions)) [
  | inl missing ↦ rw missing (refl)
  | inr (revision, found) ↦ rw found (refl)
]

pub snapshot_of-revision :
    (provider : String) (revision : ℤ) (rows : List ((String × String) × (String × String)))
    (s : VersionedProviderState)
    → snapshot_of provider revision rows ≡ ok s
    → s.revision ≡ revision
unfolding snapshot_of new_provider_state
snapshot_of-revision provider revision rows s h =
    elim (Result-cases (build_effects provider (sort_by_id (select_effects provider rows)))) [
      | inl (e, failed) ↦ ground (arith, failed)
      | inr (effects, built) ↦ ground (arith, built)
    ]

module _ (sha256 : List ℕ → String) where
  abbrev pub committed :
      ExternalOperation → VersionedProviderState → ProviderDatabase → ProviderDatabase
  committed op state db = record {
    revisions = insert op.provider state.revision (prepared op.provider db).revisions;
    effects =
        insert (op.provider, op.operation_id) (op.tool, op.payload)
          (prepared op.provider db).effects;
  }

  pub committed-revision :
      (op : ExternalOperation) (t : VersionedProviderState) (db : ProviderDatabase) (p : String)
      → revision_of p (committed op t db)
        ≡ (if op.provider == p then t.revision else revision_of p db)
  committed-revision op t db p =
      rw (lookup-insert op.provider p t.revision (prepared op.provider db).revisions)
        (ground (arith, revision_of-prepared op.provider p db))

  apply_without_snapshot :
      (op : ExternalOperation) (d : ReconciliationDecision) (t : VersionedProviderState)
      (db db' : ProviderDatabase) (e : Error)
      → snapshot_of op.provider (revision_of op.provider db) db.effects ≡ err e
      → conditional_apply sha256 op d db ≢ (ok t, db')
  unfolding conditional_apply
  apply_without_snapshot op d t db db' e failed h =
      ground (arith, failed, snapshot_step op.provider db)

  apply_with_snapshot :
      (op : ExternalOperation) (d : ReconciliationDecision) (s t : VersionedProviderState)
      (db db' : ProviderDatabase)
      → snapshot_of op.provider (revision_of op.provider db) db.effects ≡ ok s
      → conditional_apply sha256 op d db ≡ (ok t, db')
      → (apply_conditional_retry sha256 op d s ≡ ok t)
        × (lookup (op.provider, op.operation_id) (prepared op.provider db).effects ≡ none)
        × (db' ≡ committed op t db)
  unfolding conditional_apply
  apply_with_snapshot op d s t db db' taken h = ground (arith, taken, snapshot_step op.provider db)

  -- What a committed call of `conditional_apply` has done.
  pub conditional_apply_commits :
      (op : ExternalOperation) (d : ReconciliationDecision) (t : VersionedProviderState)
      (db db' : ProviderDatabase)
      → conditional_apply sha256 op d db ≡ (ok t, db')
      → (s : VersionedProviderState) × (snapshot_of op.provider
            (revision_of op.provider db)
            db.effects
          ≡ ok s)
        × (apply_conditional_retry sha256 op d s ≡ ok t)
        × (lookup (op.provider, op.operation_id) db.effects ≡ none)
        × (db' ≡ committed op t db)
  conditional_apply_commits op d t db db' h =
      elim (Result-cases (snapshot_of op.provider (revision_of op.provider db) db.effects)) [
        | inl (e, failed) ↦ absurd (apply_without_snapshot op d t db db' e failed h)
        | inr (s, taken) ↦
            let (applied, free, same) = apply_with_snapshot op d s t db db' taken h in
            (s, taken, applied, (rw (prepared-effects op.provider db) at free), same)
      ]

  -- What a committed retry does to the revisions: it found the one of its decision, and the next one
  -- is there afterwards; other providers keep theirs.
  pub conditional_apply_revision :
      (op : ExternalOperation) (d : ReconciliationDecision) (t : VersionedProviderState)
      (db db' : ProviderDatabase)
      → conditional_apply sha256 op d db ≡ (ok t, db')
      → (d.retry_precondition_revision ≡ some (revision_of op.provider db))
        × (revision_of op.provider db' ≡ revision_of op.provider db +ℤ pos 1)
  conditional_apply_revision op d t db db' h =
      let (s, taken, applied, free, same) = conditional_apply_commits op d t db db' h in
      let at_revision =
        snapshot_of-revision op.provider (revision_of op.provider db) db.effects s taken in
      let (_, _, precondition, _, _, result) =
        apply_conditional_retry_commits sha256 op d s t applied in
      (
        precondition ∙ ap some at_revision,
        ap (revision_of op.provider) same
            ∙ committed-revision op t db op.provider
            ∙ own op.provider t s result at_revision,
      )
    where
      own :
          (p : String) (t s : VersionedProviderState)
          → t ≡ record { revision = s.revision +ℤ pos 1; effects = s.effects ++ op ∷ [] }
          → s.revision ≡ revision_of op.provider db
          → (if p == p then t.revision else revision_of p db) ≡ revision_of op.provider db +ℤ pos 1
      own p t s result at_revision = ground arith

  pub conditional_apply_grows :
      (op : ExternalOperation) (d : ReconciliationDecision) (t : VersionedProviderState)
      (db db' : ProviderDatabase) (p : String)
      → conditional_apply sha256 op d db ≡ (ok t, db')
      → revision_of p db ≤ℤ revision_of p db'
  conditional_apply_grows op d t db db' p h =
      let (s, taken, applied, free, same) = conditional_apply_commits op d t db db' h in
      let at_revision =
        snapshot_of-revision op.provider (revision_of op.provider db) db.effects s taken in
      let (_, _, _, _, _, result) = apply_conditional_retry_commits sha256 op d s t applied in
      grows t s (revision_of p db') (ap (revision_of p) same ∙ committed-revision op t db p) result
        at_revision
    where
      grows :
          (t s : VersionedProviderState) (revision : ℤ)
          → revision ≡ (if op.provider == p then t.revision else revision_of p db)
          → t ≡ record { revision = s.revision +ℤ pos 1; effects = s.effects ++ op ∷ [] }
          → s.revision ≡ revision_of op.provider db
          → revision_of p db ≤ℤ revision
      grows t s revision now result at_revision = ground (arith, +ℤ_parts s.revision (pos 1))
