-- ===== src/EvidenceLineage/History.antt =====
-- What the lineage keeps over every sequence of calls: heads never go back, and a completed operation
-- never has retry authority again.
use coding_agent_reliability.Base.{
  ℕ, ◌≡◌, ◌≢◌, true, false, none, some, List, [], ◌∷◌, arith, String, string_eq, text_pair_eq,
  int_eq, ok, inl, inr, Option-cases,
}
use coding_agent_reliability.Reconciliation.{
  ExternalOperation, ProviderEvidence, ReconciliationDecision, decision_eq, retry_action_eq,
  VersionedProviderState, effect_sha256, apply_conditional_retry,
}
use coding_agent_reliability.Reconciliation.Retry.{apply_conditional_retry_commits}
use coding_agent_reliability.EvidenceLineage.{
  ReconciliationEvidenceRecord, ReconciliationCompletionRecord, EvidenceDatabase, key_of, head_of,
  record_evidence, mark_reconciled, apply_retry,
}
use coding_agent_reliability.EvidenceLineage.Settled.{
  Extends, IsSettled, Extends-refl, Extends-trans, record_evidence_keeps,
}
use coding_agent_reliability.EvidenceLineage.Mark.{mark_reconciled_keeps, mark_reconciled_stored}

-- The calls that write, of any worker. The other methods only read.
pub data Call : Type 0 where
  record_call : ExternalOperation → String → ProviderEvidence → Call
  mark_call : ExternalOperation → String → ReconciliationDecision → Call

module _ (sha256 : List ℕ → String) where
  unfoldable pub run_call : Call → EvidenceDatabase → EvidenceDatabase
  run_call (record_call op id ev) db = (record_evidence sha256 op id ev db).1
  run_call (mark_call op id d) db = (mark_reconciled sha256 op id d db).1

  unfoldable pub run_calls : List Call → EvidenceDatabase → EvidenceDatabase
  run_calls [] db = db
  run_calls (call ∷ calls) db = run_calls calls (run_call call db)

  run_call_keeps :
      (call : Call) (db : EvidenceDatabase)
      → IsSettled db
      → Extends db (run_call call db) × IsSettled (run_call call db)
  unfolding run_call
  run_call_keeps (record_call op id ev) db s = record_evidence_keeps sha256 op id ev db s
  run_call_keeps (mark_call op id d) db s = mark_reconciled_keeps sha256 op id d db s

  -- Over every sequence of calls, from a database in which each completed operation has a head
  -- without retry authority: this stays so, each head stays at its exact effect and never goes back
  -- to an older provider revision, and each completion stays as it is.
  pub run_calls-IsSettled :
      (calls : List Call) (db : EvidenceDatabase)
      → IsSettled db
      → Extends db (run_calls calls db) × IsSettled (run_calls calls db)
  unfolding run_calls
  run_calls-IsSettled [] db s = (Extends-refl db, s)
  run_calls-IsSettled (call ∷ calls) db s =
      let (first, settled) = run_call_keeps call db s in
      let (rest, still) = run_calls-IsSettled calls (run_call call db) settled in
      (Extends-trans db (run_call call db) (run_calls calls (run_call call db)) first rest, still)

  without_head :
      (op : ExternalOperation) (id : String) (d : ReconciliationDecision)
      (s t : VersionedProviderState) (db db' : EvidenceDatabase)
      → head_of (key_of op) db ≡ none
      → apply_retry sha256 op id d s db ≢ (ok t, db')
  unfolding apply_retry
  without_head op id d s t db db' unknown e = ground (arith, unknown)

  with_head :
      (op : ExternalOperation) (id : String) (d : ReconciliationDecision)
      (s t : VersionedProviderState) (db db' : EvidenceDatabase) (r : ReconciliationEvidenceRecord)
      → head_of (key_of op) db ≡ some r
      → apply_retry sha256 op id d s db ≡ (ok t, db')
      → (r.effect_sha256 ≡ effect_sha256 sha256 op)
        × (r.evidence_id ≡ id)
        × (r.decision ≡ d)
        × (apply_conditional_retry sha256 op d s ≡ ok t)
        × (db' ≡ db)
  unfolding apply_retry
  with_head op id d s t db db' r found e = ground (arith, found)

  -- A retry that commits is current: the head of the operation is for exactly this effect and holds
  -- exactly this evidence and decision, and the provider has taken the conditional retry. The lineage
  -- is left alone.
  pub apply_retry_current :
      (op : ExternalOperation) (id : String) (d : ReconciliationDecision)
      (s t : VersionedProviderState) (db db' : EvidenceDatabase)
      → apply_retry sha256 op id d s db ≡ (ok t, db')
      → (r : ReconciliationEvidenceRecord) × (head_of (key_of op) db ≡ some r)
        × (r.effect_sha256 ≡ effect_sha256 sha256 op)
        × (r.evidence_id ≡ id)
        × (r.decision ≡ d)
        × (apply_conditional_retry sha256 op d s ≡ ok t)
        × (db' ≡ db)
  apply_retry_current op id d s t db db' h = elim (Option-cases (head_of (key_of op) db)) [
    | inl unknown ↦ absurd (without_head op id d s t db db' unknown h)
    | inr (r, found) ↦
        let (effect, evidence, decided, applied, same) = with_head op id d s t db db' r found h in
        (r, found, effect, evidence, decided, applied, same)
  ]

  -- Once `mark_reconciled` has returned a completion, in a database in which each completed operation
  -- has a head without retry authority, no retry of the same operation identity commits again: not
  -- after any later calls, for any evidence, decision or provider state.
  pub no_retry_after_completion :
      (op again : ExternalOperation) (id id' : String) (d d' : ReconciliationDecision)
      (calls : List Call) (s t : VersionedProviderState) (db later : EvidenceDatabase)
      (c : ReconciliationCompletionRecord)
      → IsSettled db
      → (mark_reconciled sha256 op id d db).0 ≡ ok c
      → key_of again ≡ key_of op
      → apply_retry sha256 again id' d' s (run_calls calls (run_call (mark_call op id d) db))
        ≢ (ok t, later)
  unfolding run_call
  no_retry_after_completion op again id id' d d' calls s t db later c settled done same h =
      let after = (mark_reconciled sha256 op id d db).1 in
      let (_, settled1) = mark_reconciled_keeps sha256 op id d db settled in
      let stored = mark_reconciled_stored sha256 op id d db c done in
      let (extends, settled2) = run_calls-IsSettled calls after settled1 in
      let (r, found, no_retry) =
        settled2 (key_of op) c (extends.completions (key_of op) c stored) in
      let (r', found', _, _, is_decided, applied, _) =
        apply_retry_current again id' d' s t (run_calls calls after) later h in
      let (retries, _, _, _, _, _) = apply_conditional_retry_commits sha256 again d' s t applied in
      contradiction (run_calls calls after) r r' found no_retry found' is_decided retries
    where
      contradiction :
          (final : EvidenceDatabase) (r r' : ReconciliationEvidenceRecord)
          → head_of (key_of op) final ≡ some r
          → r.decision.should_retry ≡ false
          → head_of (key_of again) final ≡ some r'
          → r'.decision ≡ d'
          → d'.should_retry ≡ true
          → ⊥
      contradiction final r r' found no_retry found' is_decided retries = ground (arith, same)
