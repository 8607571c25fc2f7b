-- ===== src/TraceIntegrity/Clean.antt =====
-- What each handler has tested when it adds no violation, and the state that it leaves then.
use coding_agent_reliability.Base.{
  ℕ, ◌+◌, ◌≡◌, refl, sym, ◌∙◌, ap, Bool, true, false, not, List, [], ◌∷◌, ◌++◌, String, string_eq,
  text_pair_eq, int_eq, arith, ltb, ok, err, Error, ◌≢◌, inl, inr, Result-cases,
}
use coding_agent_reliability.Base.Messages.{++-nothing}
use coding_agent_reliability.Base.Document.{object, Fields, get, as_int, json_eq, member}
use coding_agent_reliability.TraceIntegrity.Progress.{
  when, is_sha256, TraceScope, TraceProgress, add, note_identity, valid_id, record_kinds,
  event_kinds, readback_states, decisions, identity_violations,
}
use coding_agent_reliability.TraceIntegrity.Handlers.{
  is_other_effect, candidate_binding, event_violations, effect_violations, evidence_violations,
  all_completion_violations, order_violations, evidence_id_violations, file_evidence,
  completion_violations, is_revision, history_violations, last, named_evidence, max_revision,
  is_not_latest, handle_event, handle_checkpoint, handle_approval, decide, handle_effect,
  handle_evidence, handle_completion,
}
use coding_agent_reliability.TraceIntegrity.Loop.{
  binding_violations, bind_operation, handle_kind, handle_record,
}

pub when_nil : (test : Bool) (violation : String) → when test violation ≡ [] → test ≡ false
when_nil true violation h = cc
when_nil false violation h = refl

-- A list, three tests and a list again that add nothing.
three_tests :
    (a e : List String) (b c d : Bool) (u v w : String)
    → a ++ (when b u ++ (when c v ++ (when d w ++ e))) ≡ []
    → (a ≡ []) × (b ≡ false) × (c ≡ false) × (d ≡ false) × (e ≡ [])
three_tests [] e b c d u v w h = ground arith
three_tests (x ∷ a) e b c d u v w h = cc

two_tests :
    (a e : List String) (b c : Bool) (u v : String)
    → when b u ++ (when c v ++ (a ++ e)) ≡ []
    → (b ≡ false) × (c ≡ false) × (a ≡ []) × (e ≡ [])
two_tests a e b c u v h = ground (arith, ++-nothing a e)

pub handle_event_clean :
    (scope : TraceScope) (r : Fields) (s s' : TraceProgress)
    → handle_event scope r s ≡ ok s'
    → s'.violations ≡ []
    → (s.violations ≡ [])
      × (json_eq (get "run_id" r) scope.run_id ≡ true)
      × (json_eq (get "turn_id" r) scope.turn_id ≡ true)
      × (is_sha256 (get "payload_sha256" r) ≡ true)
      × (s' ≡ record s { violations = []; event_ids = s.event_ids ++ valid_id (get "event_id" r) })
unfolding handle_event
handle_event_clean scope r s s' h clean =
    elim (Result-cases (member event_kinds (get "event_kind" r))) [
      | inl (e, raised) ↦ absurd (ground (arith, raised))
      | inr (known, tested) ↦
          ground
            (arith, tested, ++-nothing s.violations (event_violations scope r s.event_ids known))
    ]

pub handle_checkpoint_clean :
    (scope : TraceScope) (r : Fields) (s s' : TraceProgress)
    → handle_checkpoint scope r s ≡ s'
    → s'.violations ≡ []
    → (s.violations ≡ [])
      × (json_eq (get "run_id" r) scope.run_id ≡ true)
      × (s' ≡ record s { violations = []; checkpoints = s.checkpoints ++ r ∷ [] })
unfolding handle_checkpoint
handle_checkpoint_clean scope r s s' h clean = ground (
  arith,
  ++-nothing s.violations
      (when (not (json_eq (get "run_id" r) scope.run_id)) "checkpoint_run_scope_mismatch"),
)

pub handle_approval_clean :
    (r : Fields) (s s' : TraceProgress)
    → handle_approval r s ≡ ok s'
    → s'.violations ≡ []
    → (s.violations ≡ [])
      × (member decisions (get "decision" r) ≡ ok true)
      × (is_other_effect s.expected_effect (get "effect_sha256" r) ≡ false)
      × (s' ≡ record (decide true r s) { violations = [] })
unfolding handle_approval
handle_approval_clean r s s' h clean = elim (Result-cases (member decisions (get "decision" r))) [
  | inl (e, raised) ↦ absurd (ground (arith, raised))
  | inr (known, tested) ↦ ground (
    arith,
    tested,
    ++-nothing (decide known r s).violations (
        when (is_other_effect s.expected_effect (get "effect_sha256" r))
          "approval_effect_fingerprint_mismatch"),
    ++-nothing s.violations ("approval_decision_invalid" ∷ []),
  )
]

pub handle_effect_clean :
    (r : Fields) (s s' : TraceProgress)
    → handle_effect r s ≡ s'
    → s'.violations ≡ []
    → (s.violations ≡ [])
      × (is_other_effect s.expected_effect (get "effect_sha256" r) ≡ false)
      × (order_violations s.approved_sequence s.denied_sequence (as_int (get "sequence" r)) ≡ [])
      × (s' ≡ s)
unfolding handle_effect
handle_effect_clean r s s' h clean = ground (arith, ++-nothing s.violations (effect_violations r s))

-- The locals after a piece of evidence, with these violations.
abbrev pub filed : List String → Fields → TraceProgress → TraceProgress
filed violations r s = record s {
  violations = violations;
  evidence_by_id = file_evidence (get "evidence_id" r) r s.evidence_by_id;
  evidence_history = s.evidence_history ++ r ∷ [];
}

handle_evidence_known :
    (r : Fields) (s s' : TraceProgress) (known : Bool)
    → member readback_states (get "readback" r) ≡ ok known
    → handle_evidence r s ≡ ok s'
    → s' ≡ filed (s.violations ++ evidence_violations r s known) r s
unfolding handle_evidence
handle_evidence_known r s s' known tested h = ground (arith, tested)

handle_evidence_raised :
    (r : Fields) (s s' : TraceProgress) (e : Error)
    → member readback_states (get "readback" r) ≡ err e
    → handle_evidence r s ≢ ok s'
unfolding handle_evidence
handle_evidence_raised r s s' e raised h = ground (arith, raised)

holds_unless_denied : {b : Bool} → not b ≡ false → b ≡ true
holds_unless_denied {b} e = ground arith

evidence_violations_clean :
    (r : Fields) (s : TraceProgress) (known : Bool)
    → evidence_violations r s known ≡ []
    → (evidence_id_violations (get "evidence_id" r) s.evidence_by_id ≡ [])
      × (is_revision (get "revision" r) ≡ true)
      × (known ≡ true)
      × (is_other_effect s.expected_effect (get "effect_sha256" r) ≡ false)
      × (history_violations (last s.evidence_history) r ≡ [])
evidence_violations_clean r s known found =
    let (id, revision, readback, effect, history) =
      three_tests (evidence_id_violations (get "evidence_id" r) s.evidence_by_id)
        (history_violations (last s.evidence_history) r) (not (is_revision (get "revision" r)))
        (not known) (is_other_effect s.expected_effect (get "effect_sha256" r))
        "provider_revision_invalid" "provider_readback_invalid"
        "provider_effect_fingerprint_mismatch" found in
    (id, holds_unless_denied revision, holds_unless_denied readback, effect, history)

pub handle_evidence_clean :
    (r : Fields) (s s' : TraceProgress)
    → handle_evidence r s ≡ ok s'
    → s'.violations ≡ []
    → (s.violations ≡ [])
      × (evidence_id_violations (get "evidence_id" r) s.evidence_by_id ≡ [])
      × (is_revision (get "revision" r) ≡ true)
      × (member readback_states (get "readback" r) ≡ ok true)
      × (is_other_effect s.expected_effect (get "effect_sha256" r) ≡ false)
      × (history_violations (last s.evidence_history) r ≡ [])
      × (s' ≡ filed [] r s)
handle_evidence_clean r s s' h clean =
    elim (Result-cases (member readback_states (get "readback" r))) [
      | inl (e, raised) ↦ absurd (handle_evidence_raised r s s' e raised h)
      | inr (known, tested) ↦
          let after = handle_evidence_known r s s' known tested h in
          let (before, found) =
            ++-nothing s.violations (evidence_violations r s known)
              (sym (ap (λ (t : TraceProgress). t.violations) after) ∙ clean) in
          let (id, revision, readback, effect, history) =
            evidence_violations_clean r s known found in
          let none_left : s.violations ++ evidence_violations r s known ≡ [] =
            rw (before, found) refl in
          (
            before,
            id,
            revision,
            tested ∙ ap ok readback,
            effect,
            history,
            after ∙ ap (λ v. filed v r s) none_left,
          )
    ]

pub handle_completion_clean :
    (r : Fields) (s s' : TraceProgress)
    → handle_completion r s ≡ s'
    → s'.violations ≡ []
    → (s.violations ≡ [])
      × (s.completion_count ≡ 0)
      × (is_other_effect s.expected_effect (get "effect_sha256" r) ≡ false)
      × (completion_violations (named_evidence (get "evidence_id" r) s.evidence_by_id) r ≡ [])
      × (is_not_latest (get "revision" r) (max_revision s.evidence_history) ≡ false)
      × (s' ≡ record s { violations = []; completion_count = 1 })
unfolding handle_completion
handle_completion_clean r s s' h clean =
    let (before, found) =
      ++-nothing s.violations (all_completion_violations r s)
        (ap (λ (t : TraceProgress). t.violations) h ∙ clean) in
    let (single, effect, evidence, latest) =
      two_tests (completion_violations (named_evidence (get "evidence_id" r) s.evidence_by_id) r)
        (when (is_not_latest (get "revision" r) (max_revision s.evidence_history))
          "completion_not_latest_provider_revision")
        (ltb 1 (s.completion_count + 1)) (is_other_effect s.expected_effect (get "effect_sha256" r))
        "multiple_reconciliation_completions" "completion_effect_fingerprint_mismatch" found in
    (
      before,
      first s.completion_count single,
      effect,
      evidence,
      when_nil (is_not_latest (get "revision" r) (max_revision s.evidence_history))
          "completion_not_latest_provider_revision" latest,
      sym h ∙ result (first s.completion_count single) before found,
    )
  where
    first : (n : ℕ) → ltb 1 (n + 1) ≡ false → n ≡ 0
    first n e = ground arith

    result :
        s.completion_count ≡ 0
        → s.violations ≡ []
        → all_completion_violations r s ≡ []
        → record s {
          violations = s.violations ++ all_completion_violations r s;
          completion_count = s.completion_count + 1;
        }
          ≡ record s { violations = []; completion_count = 1 }
    result none_yet before found = rw (before, found, none_yet) refl

pub note_identity_clean :
    (r : Fields) (s : TraceProgress)
    → (note_identity r s).violations ≡ []
    → (s.violations ≡ []) × (identity_violations r ≡ [])
unfolding note_identity
note_identity_clean r s clean = ++-nothing s.violations (identity_violations r) clean

module _ (sha256 : List ℕ → String) where
  pub bind_operation_clean :
      (scope : TraceScope) (r : Fields) (s : TraceProgress)
      → (bind_operation sha256 scope r s).violations ≡ []
      → let candidate = candidate_binding (get "tool" r) (get "payload_sha256" r) in
        (s.violations ≡ []) × (binding_violations r s.binding candidate ≡ [])
  unfolding bind_operation
  bind_operation_clean scope r s clean =
      ++-nothing s.violations
        (binding_violations r s.binding (candidate_binding (get "tool" r) (get "payload_sha256" r)))
        clean

  pub record_of_object :
      (scope : TraceScope) (index : ℕ) (r : Fields) (s s' : TraceProgress)
      → handle_record sha256 scope index (object r) s ≡ ok s'
      → s'.violations ≡ []
      → (member record_kinds (get "kind" r) ≡ ok true)
        × (handle_kind sha256 scope r (note_identity r s) ≡ ok s')
  unfolding handle_record
  record_of_object scope index r s s' h clean =
      elim (Result-cases (member record_kinds (get "kind" r))) [
        | inl (e, raised) ↦ absurd (ground (arith, raised))
        | inr (known, tested) ↦
            ground (
              arith,
              tested,
              ++-nothing (note_identity r s).violations ("record_kind_invalid" ∷ []),
            )
      ]

  pub not_an_object :
      (scope : TraceScope) (index : ℕ) (s s' : TraceProgress) (violation : String)
      → ok (add (violation ∷ []) s) ≡ ok s'
      → s'.violations ≡ []
      → ⊥
  not_an_object scope index s s' violation h clean =
      ground (arith, ++-nothing s.violations (violation ∷ []))
