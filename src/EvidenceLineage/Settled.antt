-- ===== src/EvidenceLineage/Settled.antt =====
-- What the lineage keeps over every sequence of calls: heads never go back, and a completed operation
-- never has retry authority again.
use coding_agent_reliability.Base.{
  ℕ, ◌≡◌, ◌≢◌, refl, sym, ◌∙◌, false, none, some, List, arith, String, string_eq, text_pair_eq,
  int_eq, ℤ, ◌≤ℤ◌, ok, err, Error, insert, lookup-insert, ◌⊎◌, inl, inr, Option-cases, Result-cases,
  text_pair_discrete,
}
use coding_agent_reliability.Reconciliation.{
  ExternalOperation, ProviderEvidence, ReconciliationDecision, decision_eq, retry_action_eq,
  effect_sha256, reconcile_lost_ack,
}
use coding_agent_reliability.EvidenceLineage.{
  ReconciliationEvidenceRecord, ReconciliationCompletionRecord, EvidenceDatabase, key_of, head_of,
  completion_of, candidate_of, record_candidate, record_evidence,
}

-- A later database: each head is still there, for the same effect and at no older revision, and each
-- completion is as it was.
pub record Extends (db later : EvidenceDatabase) : Type 0 where
  pub heads :
      (key : String × String) (r : ReconciliationEvidenceRecord)
      → head_of key db ≡ some r
      → (r' : ReconciliationEvidenceRecord) × (head_of key later ≡ some r')
        × (r'.effect_sha256 ≡ r.effect_sha256)
        × (r.revision ≤ℤ r'.revision)
  pub completions :
      (key : String × String) (c : ReconciliationCompletionRecord)
      → completion_of key db ≡ some c
      → completion_of key later ≡ some c

-- A completed operation has a head without retry authority.
abbrev pub IsSettled : EvidenceDatabase → Type 0
IsSettled db =
    (key : String × String) (c : ReconciliationCompletionRecord)
    → completion_of key db ≡ some c
    → (r : ReconciliationEvidenceRecord) × (head_of key db ≡ some r)
      × (r.decision.should_retry ≡ false)

pub Extends-refl : (db : EvidenceDatabase) → Extends db db
Extends-refl db = record {
  heads = λ key r h. (r, h, refl, omega arith);
  completions = λ key c h. h;
}

pub Extends-trans : (a b c : EvidenceDatabase) → Extends a b → Extends b c → Extends a c
Extends-trans a b c ab bc = record {
  heads = λ key r h.
      let (r1, h1, e1, l1) = ab.heads key r h in
      let (r2, h2, e2, l2) = bc.heads key r1 h1 in (r2, h2, e2 ∙ e1, omega arith);
  completions = λ key c h. bc.completions key c (ab.completions key c h);
}

module _ (sha256 : List ℕ → String) where
  -- What a write of the candidate as the head rests on.
  record IsAdmitted (op : ExternalOperation) (n : ℤ) (d : ReconciliationDecision)
      (db : EvidenceDatabase) : Type 0 where
    completed :
        (q : ReconciliationCompletionRecord)
        → completion_of (key_of op) db ≡ some q
        → d.should_retry ≡ false
    newer :
        (r : ReconciliationEvidenceRecord)
        → head_of (key_of op) db ≡ some r
        → (r.effect_sha256 ≡ effect_sha256 sha256 op) × (r.revision ≤ℤ n)

  module _ (op : ExternalOperation) (id : String) (n : ℤ) (d : ReconciliationDecision)
      (db : EvidenceDatabase) where
    abbrev candidate : ReconciliationEvidenceRecord
    candidate = candidate_of sha256 op id n d

    abbrev later : EvidenceDatabase
    later = (record_candidate sha256 op candidate db).1

    abbrev written : EvidenceDatabase
    written = record db { heads = insert (key_of op) candidate db.heads }

    case_new : completion_of (key_of op) db ≡ none → head_of (key_of op) db ≡ none → later ≡ written
    unfolding record_candidate
    case_new open_ fresh = ground (arith, open_, fresh)

    case_open :
        completion_of (key_of op) db ≡ none
        → (r : ReconciliationEvidenceRecord) → head_of (key_of op) db ≡ some r
        → (later ≡ db)
          ⊎ ((later ≡ written) × (r.effect_sha256 ≡ effect_sha256 sha256 op) × (r.revision ≤ℤ n))
    unfolding record_candidate
    case_open open_ r found = ground (arith, open_, found)

    case_done :
        (q : ReconciliationCompletionRecord)
        → completion_of (key_of op) db ≡ some q
        → head_of (key_of op) db ≡ none
        → (later ≡ db) ⊎ ((later ≡ written) × (d.should_retry ≡ false))
    unfolding record_candidate
    case_done q done fresh = ground (arith, done, fresh)

    case_both :
        (q : ReconciliationCompletionRecord)
        → completion_of (key_of op) db ≡ some q
        → (r : ReconciliationEvidenceRecord) → head_of (key_of op) db ≡ some r
        → (later ≡ db)
          ⊎ ((later ≡ written)
              × (d.should_retry ≡ false)
              × (r.effect_sha256 ≡ effect_sha256 sha256 op)
              × (r.revision ≤ℤ n))
    unfolding record_candidate
    case_both q done r found = ground (arith, done, found)

    -- `record` of a candidate leaves the database alone or makes the candidate the head.
    record_candidate_cases : (later ≡ db) ⊎ ((later ≡ written) × IsAdmitted op n d db)
    record_candidate_cases = elim (Option-cases (completion_of (key_of op) db)) [
      | inl open_ ↦ elim (Option-cases (head_of (key_of op) db)) [
        | inl fresh ↦ inr (
          case_new open_ fresh,
          record {
            completed = λ q h. absurd (ground (arith, open_, h));
            newer = λ r h. absurd (ground (arith, fresh, h));
          },
        )
        | inr (r, found) ↦ elim (case_open open_ r found) [
          | inl same ↦ inl same
          | inr (put, effect, le) ↦ inr (
            put,
            record {
              completed = λ q h. absurd (ground (arith, open_, h));
              newer = λ t h. ground (arith, found, h);
            },
          )
        ]
      ]
      | inr (q, done) ↦ elim (Option-cases (head_of (key_of op) db)) [
        | inl fresh ↦ elim (case_done q done fresh) [
          | inl same ↦ inl same
          | inr (put, no_retry) ↦ inr (
            put,
            record {
              completed = λ c h. no_retry;
              newer = λ r h. absurd (ground (arith, fresh, h));
            },
          )
        ]
        | inr (r, found) ↦ elim (case_both q done r found) [
          | inl same ↦ inl same
          | inr (put, no_retry, effect, le) ↦
              inr (
                put,
                record { completed = λ c h. no_retry; newer = λ t h. ground (arith, found, h) },
              )
        ]
      ]
    ]

    head_of-same : (key : String × String) → key_of op ≡ key → head_of key written ≡ some candidate
    head_of-same key same = rw lookup-insert (ground (arith, same))

    head_of-other :
        (key : String × String) → (key_of op ≢ key) → head_of key written ≡ head_of key db
    head_of-other key other = rw lookup-insert (ground (arith, other))

    written-Extends : IsAdmitted op n d db → Extends db written
    written-Extends a = record {
      heads = λ key r h. elim (text_pair_discrete (key_of op) key) [
        | yes same ↦
            let (effect, le) = a.newer r (rw (← same) at h) in
            (candidate, head_of-same key same, sym effect, le)
        | no other ↦ (r, head_of-other key other ∙ h, refl, omega arith)
      ];
      completions = λ key c h. h;
    }

    written-IsSettled : IsAdmitted op n d db → IsSettled db → IsSettled written
    written-IsSettled a s key c h = elim (text_pair_discrete (key_of op) key) [
      | yes same ↦ (candidate, head_of-same key same, a.completed c (rw (← same) at h))
      | no other ↦
          let (r, found, no_retry) = s key c h in (r, head_of-other key other ∙ found, no_retry)
    ]

    -- `record` of a candidate keeps the invariant and extends the database.
    record_candidate_keeps : IsSettled db → Extends db later × IsSettled later
    record_candidate_keeps s = elim record_candidate_cases [
      | inl same ↦ rw same (Extends-refl db, s)
      | inr (put, a) ↦ rw put (written-Extends a, written-IsSettled a s)
    ]

  record_passed :
      (op : ExternalOperation) (id : String) (ev : ProviderEvidence) (db : EvidenceDatabase) (n : ℤ)
      (d : ReconciliationDecision)
      → ev.readback_revision ≡ some n
      → reconcile_lost_ack sha256 op ev ≡ ok d
      → ((record_evidence sha256 op id ev db).1 ≡ db)
        ⊎ ((record_evidence sha256 op id ev db).1
            ≡ (record_candidate sha256 op (candidate_of sha256 op id n d) db).1)
  unfolding record_evidence
  record_passed op id ev db n d known decided = ground (arith, known, decided)

  record_undecided :
      (op : ExternalOperation) (id : String) (ev : ProviderEvidence) (db : EvidenceDatabase) (n : ℤ)
      (e : Error)
      → ev.readback_revision ≡ some n
      → reconcile_lost_ack sha256 op ev ≡ err e
      → (record_evidence sha256 op id ev db).1 ≡ db
  unfolding record_evidence
  record_undecided op id ev db n e known raised = ground (arith, known, raised)

  record_without_revision :
      (op : ExternalOperation) (id : String) (ev : ProviderEvidence) (db : EvidenceDatabase)
      → ev.readback_revision ≡ none
      → (record_evidence sha256 op id ev db).1 ≡ db
  unfolding record_evidence
  record_without_revision op id ev db unknown = ground (arith, unknown)

  -- `record` keeps the invariant and extends the database.
  pub record_evidence_keeps :
      (op : ExternalOperation) (id : String) (ev : ProviderEvidence) (db : EvidenceDatabase)
      → IsSettled db
      → let later = (record_evidence sha256 op id ev db).1 in Extends db later × IsSettled later
  record_evidence_keeps op id ev db s = elim (Option-cases ev.readback_revision) [
    | inl unknown ↦ rw (record_without_revision op id ev db unknown) (Extends-refl db, s)
    | inr (n, known) ↦ elim (Result-cases (reconcile_lost_ack sha256 op ev)) [
      | inl (e, raised) ↦ rw (record_undecided op id ev db n e known raised) (Extends-refl db, s)
      | inr (d, decided) ↦ elim (record_passed op id ev db n d known decided) [
        | inl same ↦ rw same (Extends-refl db, s)
        | inr same ↦ rw same (record_candidate_keeps op id n d db s)
      ]
    ]
  ]
