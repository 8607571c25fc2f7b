-- ===== src/EvidenceLineage/Mark.antt =====
-- What `mark_reconciled` does to the lineage.
use coding_agent_reliability.Base.{
  ℕ, ◌≡◌, ◌≢◌, refl, ◌∙◌, ap, false, none, some, List, arith, String, ◌==◌, string_eq, text_pair_eq,
  int_eq, if◌then◌else◌, ok, insert, lookup-insert, ◌⊎◌, inl, inr, Option-cases, text_pair_discrete,
}
use coding_agent_reliability.Reconciliation.{
  ExternalOperation, ReconciliationDecision, decision_eq, retry_action_eq,
}
use coding_agent_reliability.EvidenceLineage.{
  ReconciliationEvidenceRecord, ReconciliationCompletionRecord, EvidenceDatabase, key_of, head_of,
  completion_of, new_completion, mark_reconciled,
}
use coding_agent_reliability.EvidenceLineage.Settled.{Extends, IsSettled, Extends-refl}

module _ (sha256 : List ℕ → String) where
  module _ (op : ExternalOperation) (id : String) (d : ReconciliationDecision)
      (db : EvidenceDatabase) where
    abbrev marked_later : EvidenceDatabase
    marked_later = (mark_reconciled sha256 op id d db).1

    abbrev marked : ReconciliationEvidenceRecord → EvidenceDatabase
    marked r = record db {
      completions = insert (key_of op) (new_completion sha256 op id r.revision) db.completions;
    }

    mark_case_done :
        (c : ReconciliationCompletionRecord)
        → completion_of (key_of op) db ≡ some c
        → marked_later ≡ db
    unfolding mark_reconciled
    mark_case_done c done = ground (arith, done)

    mark_case_unknown : head_of (key_of op) db ≡ none → marked_later ≡ db
    unfolding mark_reconciled
    mark_case_unknown unknown = ground (arith, unknown)

    mark_case_open :
        (r : ReconciliationEvidenceRecord)
        → head_of (key_of op) db ≡ some r
        → completion_of (key_of op) db ≡ none
        → (marked_later ≡ db) ⊎ ((marked_later ≡ marked r) × (r.decision.should_retry ≡ false))
    unfolding mark_reconciled
    mark_case_open r found open_ = ground (arith, found, open_)

    marked-completion :
        (r : ReconciliationEvidenceRecord) (key : String × String)
        → completion_of key (marked r) ≡ (
            if key_of op == key
            then some (new_completion sha256 op id r.revision)
            else completion_of key db)
    marked-completion r key = rw lookup-insert (ground arith)

    marked-Extends :
        (r : ReconciliationEvidenceRecord)
        → completion_of (key_of op) db ≡ none
        → Extends db (marked r)
    marked-Extends r open_ = record {
      heads = λ key t h. (t, h, refl, omega arith);
      completions = λ key c h. marked-completion r key ∙ ground (arith, open_, h);
    }

    marked-IsSettled :
        (r : ReconciliationEvidenceRecord)
        → head_of (key_of op) db ≡ some r
        → r.decision.should_retry ≡ false
        → IsSettled db
        → IsSettled (marked r)
    marked-IsSettled r found no_retry s key c h = elim (text_pair_discrete (key_of op) key) [
      | yes same ↦ (r, rw (← same) found, no_retry)
      | no other ↦ s key c (ground (arith, other, marked-completion r key, h))
    ]

    -- `mark_reconciled` keeps the invariant and extends the database.
    pub mark_reconciled_keeps : IsSettled db → Extends db marked_later × IsSettled marked_later
    mark_reconciled_keeps s = elim (Option-cases (completion_of (key_of op) db)) [
      | inr (c, done) ↦ rw (mark_case_done c done) (Extends-refl db, s)
      | inl open_ ↦ elim (Option-cases (head_of (key_of op) db)) [
        | inl unknown ↦ rw (mark_case_unknown unknown) (Extends-refl db, s)
        | inr (r, found) ↦ elim (mark_case_open r found open_) [
          | inl same ↦ rw same (Extends-refl db, s)
          | inr (put, no_retry) ↦
              rw put (marked-Extends r open_, marked-IsSettled r found no_retry s)
        ]
      ]
    ]

    mark_returns_old :
        (c e : ReconciliationCompletionRecord)
        → completion_of (key_of op) db ≡ some e
        → (mark_reconciled sha256 op id d db).0 ≡ ok c
        → e ≡ c
    unfolding mark_reconciled
    mark_returns_old c e done h = ground (arith, done)

    mark_returns_new :
        (c : ReconciliationCompletionRecord) (r : ReconciliationEvidenceRecord)
        → completion_of (key_of op) db ≡ none
        → head_of (key_of op) db ≡ some r
        → (mark_reconciled sha256 op id d db).0 ≡ ok c
        → (marked_later ≡ marked r) × (new_completion sha256 op id r.revision ≡ c)
    unfolding mark_reconciled
    mark_returns_new c r open_ found h = ground (arith, open_, found)

    mark_without_head :
        (c : ReconciliationCompletionRecord)
        → head_of (key_of op) db ≡ none
        → (mark_reconciled sha256 op id d db).0 ≢ ok c
    unfolding mark_reconciled
    mark_without_head c unknown h = ground (arith, unknown)

    -- What `mark_reconciled` returns is the completion in the table.
    pub mark_reconciled_stored :
        (c : ReconciliationCompletionRecord)
        → (mark_reconciled sha256 op id d db).0 ≡ ok c
        → completion_of (key_of op) marked_later ≡ some c
    mark_reconciled_stored c h = elim (Option-cases (completion_of (key_of op) db)) [
      | inr (e, done) ↦ rw (mark_case_done e done) (done ∙ ap some (mark_returns_old c e done h))
      | inl open_ ↦ elim (Option-cases (head_of (key_of op) db)) [
        | inl unknown ↦ absurd (mark_without_head c unknown h)
        | inr (r, found) ↦
            let (put, same) = mark_returns_new c r open_ found h in
            rw (put, marked-completion r (key_of op)) (ground (arith, same))
      ]
    ]
