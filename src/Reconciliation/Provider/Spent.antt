-- ===== src/Reconciliation/Provider/Spent.antt =====
-- Over every interleaving of the workers' calls, a committed retry spends its decision.
use coding_agent_reliability.Base.{
  ℕ, ◌≡◌, ◌≢◌, some, List, [], ◌∷◌, arith, String, string_eq, ℤ, pos, ◌+ℤ◌, ◌≤ℤ◌, +ℤ_parts, Result,
  ok, err, Error, ◌⊎◌, inl, inr, Result-cases,
}
use coding_agent_reliability.Reconciliation.{
  ExternalOperation, ReconciliationDecision, VersionedProviderState,
}
use coding_agent_reliability.Reconciliation.Provider.{
  ProviderDatabase, snapshot_of, snapshot, read, conditional_apply,
}
use coding_agent_reliability.Reconciliation.Provider.Revisions.{
  revision_of, prepared, revision_of-prepared, snapshot_step, conditional_apply_revision,
  conditional_apply_grows,
}

-- A call of any worker.
pub data ProviderCall : Type 0 where
  snapshot_call : String → ProviderCall
  read_call : ExternalOperation → ProviderCall
  apply_call : ExternalOperation → ReconciliationDecision → ProviderCall

snapshot_cases :
    (provider : String) (db : ProviderDatabase)
    → ((snapshot provider db).1 ≡ db) ⊎ ((snapshot provider db).1 ≡ prepared provider db)
unfolding snapshot
snapshot_cases provider db =
    elim (Result-cases (snapshot_of provider (revision_of provider db) db.effects)) [
      | inl (e, failed) ↦ ground (arith, failed, snapshot_step provider db)
      | inr (s, taken) ↦ ground (arith, taken, snapshot_step provider db)
    ]

module _ (sha256 : List ℕ → String) where
  read_cases :
      (op : ExternalOperation) (db : ProviderDatabase)
      → ((read sha256 op db).1 ≡ db) ⊎ ((read sha256 op db).1 ≡ prepared op.provider db)
  unfolding read
  read_cases op db =
      elim (Result-cases (snapshot_of op.provider (revision_of op.provider db) db.effects)) [
        | inl (e, failed) ↦ ground (arith, failed, snapshot_step op.provider db)
        | inr (s, taken) ↦ ground (arith, taken, snapshot_step op.provider db)
      ]

  unfoldable pub perform : ProviderCall → ProviderDatabase → ProviderDatabase
  perform (snapshot_call provider) db = (snapshot provider db).1
  perform (read_call op) db = (read sha256 op db).1
  perform (apply_call op d) db = (conditional_apply sha256 op d db).1

  unfoldable pub perform_all : List ProviderCall → ProviderDatabase → ProviderDatabase
  perform_all [] db = db
  perform_all (call ∷ calls) db = perform_all calls (perform call db)

  conditional_apply_atomic :
      (op : ExternalOperation) (d : ReconciliationDecision) (db : ProviderDatabase) (e : Error)
      → (conditional_apply sha256 op d db).0 ≡ err e
      → (conditional_apply sha256 op d db).1 ≡ db
  unfolding conditional_apply
  conditional_apply_atomic op d db e h =
      elim (Result-cases (snapshot_of op.provider (revision_of op.provider db) db.effects)) [
        | inl (e', failed) ↦ ground (arith, failed, snapshot_step op.provider db)
        | inr (s, taken) ↦ ground (arith, taken, snapshot_step op.provider db)
      ]

  apply_grows :
      (op : ExternalOperation) (d : ReconciliationDecision) (db : ProviderDatabase) (p : String)
      → revision_of p db ≤ℤ revision_of p (conditional_apply sha256 op d db).1
  apply_grows op d db p = elim (Result-cases (conditional_apply sha256 op d db).0) [
    | inl (e, failed) ↦ rw (conditional_apply_atomic op d db e failed) (omega arith)
    | inr (t, done) ↦
        conditional_apply_grows sha256 op d t db (conditional_apply sha256 op d db).1 p
          (pair (conditional_apply sha256 op d db) t done)
  ]
    where
      pair :
          (r : Result VersionedProviderState × ProviderDatabase) (t : VersionedProviderState)
          → r.0 ≡ ok t
          → r ≡ (ok t, r.1)
      pair (x, later) t e = cc

  prepared_grows :
      (provider p : String) (db later : ProviderDatabase)
      → (later ≡ db) ⊎ (later ≡ prepared provider db)
      → revision_of p db ≤ℤ revision_of p later
  prepared_grows provider p db later (inl same) = rw same (omega arith)
  prepared_grows provider p db later (inr same) =
      rw (same, revision_of-prepared provider p db) (omega arith)

  -- No call of the store takes a provider back to an older revision.
  perform_grows :
      (call : ProviderCall) (db : ProviderDatabase) (p : String)
      → revision_of p db ≤ℤ revision_of p (perform call db)
  unfolding perform
  perform_grows (snapshot_call provider) db p =
      prepared_grows provider p db (snapshot provider db).1 (snapshot_cases provider db)
  perform_grows (read_call op) db p =
      prepared_grows op.provider p db (read sha256 op db).1 (read_cases op db)
  perform_grows (apply_call op d) db p = apply_grows op d db p

  perform_all_grows :
      (calls : List ProviderCall) (db : ProviderDatabase) (p : String)
      → revision_of p db ≤ℤ revision_of p (perform_all calls db)
  unfolding perform_all
  perform_all_grows [] db p = omega arith
  perform_all_grows (call ∷ calls) db p =
      let first = perform_grows call db p in
      let rest = perform_all_grows calls (perform call db) p in omega arith

  -- Of all workers that hold one retry decision, at most one commits: when a call of
  -- `conditional_apply` has committed with it, no later call does, for any operation on the same
  -- provider and whatever calls of any workers come between.
  pub decision_commits_once :
      (op other : ExternalOperation) (d : ReconciliationDecision) (calls : List ProviderCall)
      (t u : VersionedProviderState) (db db' later : ProviderDatabase)
      → other.provider ≡ op.provider
      → conditional_apply sha256 op d db ≡ (ok t, db')
      → conditional_apply sha256 other d (perform_all calls db') ≢ (ok u, later)
  decision_commits_once op other d calls t u db db' later same first second =
      let (at_first, moved) = conditional_apply_revision sha256 op d t db db' first in
      let (at_second, _) =
        conditional_apply_revision sha256 other d u (perform_all calls db') later second in
      spent (revision_of op.provider db) (revision_of op.provider db')
        (revision_of op.provider (perform_all calls db')) at_first (rw same at at_second) moved
        (perform_all_grows calls db' op.provider)
    where
      spent :
          (a b c : ℤ)
          → d.retry_precondition_revision ≡ some a
          → d.retry_precondition_revision ≡ some c
          → b ≡ a +ℤ pos 1
          → b ≤ℤ c
          → ⊥
      spent a b c at_first at_second moved le = ground (arith, +ℤ_parts a (pos 1))
