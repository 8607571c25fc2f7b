-- ===== src/TraceIntegrity/Steps.antt =====
-- The records of a trace without violations, one step each: which kind of record it is, what was
-- tested, and the variables of the loop behind it.
use coding_agent_reliability.Base.{
  ok-injective, ℕ, ◌≡◌, refl, true, false, Option, List, [], ◌∷◌, ◌++◌, String, arith, ok,
  Bool-cases, inl, inr, contains,
}
use coding_agent_reliability.Base.Messages.{++-nothing}
use coding_agent_reliability.Base.Document.{Json, text, Fields, get, as_int, json_eq, member}
use coding_agent_reliability.TraceIntegrity.Progress.{
  TraceScope, TraceProgress, add, note_identity, valid_id, valid_sequence, record_kinds, decisions,
}
use coding_agent_reliability.TraceIntegrity.Handlers.{
  is_other_effect, candidate_binding, decide, order_violations, evidence_id_violations,
  file_evidence, completion_violations, is_revision, history_violations, last, named_evidence,
  max_revision, is_not_latest, handle_approval, handle_effect, handle_evidence, handle_completion,
}
use coding_agent_reliability.TraceIntegrity.Loop.{
  is_kind, binding_violations, operation_violations, new_binding, new_expected, bind_operation,
  handle_operation, handle_kind,
}
use coding_agent_reliability.TraceIntegrity.Clean.{
  handle_event_clean, handle_checkpoint_clean, handle_approval_clean, handle_effect_clean,
  handle_evidence_clean, handle_completion_clean, bind_operation_clean,
}

-- The variables behind the first tests of a record, without violations.
abbrev pub noted : Fields → TraceProgress → TraceProgress
noted r s = record s {
  violations = [];
  record_ids = s.record_ids ++ valid_id (get "record_id" r);
  sequences = s.sequences ++ valid_sequence (get "sequence" r);
}

abbrev pub candidate_of : Fields → Option (String × String)
candidate_of r = candidate_binding (get "tool" r) (get "payload_sha256" r)

-- A known kind that is none of the first five is the sixth.
sixth_kind :
    (kind : Json)
    → member record_kinds kind ≡ ok true
    → json_eq kind (text "runtime_event") ≡ false
    → json_eq kind (text "checkpoint") ≡ false
    → json_eq kind (text "approval") ≡ false
    → json_eq kind (text "effect") ≡ false
    → json_eq kind (text "provider_evidence") ≡ false
    → json_eq kind (text "reconciliation_completion") ≡ true
unfolding json_eq contains
sixth_kind (text k) known a b c d e = ground arith
sixth_kind _ known a b c d e = cc

module _ (sha256 : List ℕ → String) (scope : TraceScope) where
  -- The variables behind the tests that an approval and an effect share, without violations.
  abbrev pub bound : Fields → TraceProgress → TraceProgress
  bound r s =
      let n = noted r s in
      record n {
        binding = new_binding s.binding (candidate_of r);
        expected_effect = new_expected sha256 scope s.binding (candidate_of r) s.expected_effect;
      }

  -- What an operation's record has in common with the scope.
  pub record InScope (r : Fields) : Type 0 where
    pub operation : json_eq (get "operation_id" r) scope.operation_id ≡ true
    pub provider : json_eq (get "provider" r) scope.provider ≡ true

  pub data Outcome (r : Fields) (s t : TraceProgress) : Type 0 where
    as_event :
        is_kind "runtime_event" r ≡ true
        → json_eq (get "run_id" r) scope.run_id ≡ true
        → json_eq (get "turn_id" r) scope.turn_id ≡ true
        → t ≡ record (noted r s) { event_ids = s.event_ids ++ valid_id (get "event_id" r) }
        → Outcome r s t
    as_checkpoint :
        is_kind "checkpoint" r ≡ true
        → json_eq (get "run_id" r) scope.run_id ≡ true
        → t ≡ record (noted r s) { checkpoints = s.checkpoints ++ r ∷ [] }
        → Outcome r s t
    as_approval :
        is_kind "approval" r ≡ true
        → InScope r
        → binding_violations r s.binding (candidate_of r) ≡ []
        → member decisions (get "decision" r) ≡ ok true
        → is_other_effect (bound r s).expected_effect (get "effect_sha256" r) ≡ false
        → t ≡ record (decide true r (bound r s)) { violations = [] }
        → Outcome r s t
    as_effect :
        is_kind "effect" r ≡ true
        → InScope r
        → binding_violations r s.binding (candidate_of r) ≡ []
        → is_other_effect (bound r s).expected_effect (get "effect_sha256" r) ≡ false
        → order_violations s.approved_sequence s.denied_sequence (as_int (get "sequence" r)) ≡ []
        → t ≡ bound r s
        → Outcome r s t
    as_evidence :
        is_kind "provider_evidence" r ≡ true
        → InScope r
        → evidence_id_violations (get "evidence_id" r) s.evidence_by_id ≡ []
        → is_revision (get "revision" r) ≡ true
        → is_other_effect s.expected_effect (get "effect_sha256" r) ≡ false
        → history_violations (last s.evidence_history) r ≡ []
        → t ≡ record (noted r s) {
          evidence_by_id = file_evidence (get "evidence_id" r) r s.evidence_by_id;
          evidence_history = s.evidence_history ++ r ∷ [];
        }
        → Outcome r s t
    as_completion :
        is_kind "reconciliation_completion" r ≡ true
        → InScope r
        → s.completion_count ≡ 0
        → is_other_effect s.expected_effect (get "effect_sha256" r) ≡ false
        → completion_violations (named_evidence (get "evidence_id" r) s.evidence_by_id) r ≡ []
        → is_not_latest (get "revision" r) (max_revision s.evidence_history) ≡ false
        → t ≡ record (noted r s) { completion_count = 1 }
        → Outcome r s t

  pub note_identity-noted :
      (r : Fields) (s : TraceProgress)
      → (note_identity r s).violations ≡ []
      → note_identity r s ≡ noted r s
  unfolding note_identity
  note_identity-noted r s clean = rw clean refl

  bind_operation-bound :
      (r : Fields) (s : TraceProgress)
      → (bind_operation sha256 scope r (noted r s)).violations ≡ []
      → bind_operation sha256 scope r (noted r s) ≡ bound r s
  unfolding bind_operation
  bind_operation-bound r s clean = rw clean refl

  operation-InScope : (r : Fields) → operation_violations scope r ≡ [] → InScope r
  operation-InScope r h = ground arith

  approval_step :
      (r : Fields) (s t : TraceProgress)
      → is_kind "approval" r ≡ true
      → InScope r
      → handle_approval r (bind_operation sha256 scope r (noted r s)) ≡ ok t
      → t.violations ≡ []
      → Outcome r s t
  approval_step r s t kind inside h clean =
      let (bound_clean, decided, effect, result) =
        handle_approval_clean r (bind_operation sha256 scope r (noted r s)) t h clean in
      let is_bound = bind_operation-bound r s bound_clean in
      let (_, binding) = bind_operation_clean sha256 scope r (noted r s) bound_clean in
      as_approval kind inside binding decided (rw is_bound at effect) (rw is_bound at result)

  effect_step :
      (r : Fields) (s t : TraceProgress)
      → is_kind "effect" r ≡ true
      → InScope r
      → handle_effect r (bind_operation sha256 scope r (noted r s)) ≡ t
      → t.violations ≡ []
      → Outcome r s t
  effect_step r s t kind inside h clean =
      let (bound_clean, effect, order, result) =
        handle_effect_clean r (bind_operation sha256 scope r (noted r s)) t h clean in
      let is_bound = bind_operation-bound r s bound_clean in
      let (_, binding) = bind_operation_clean sha256 scope r (noted r s) bound_clean in
      as_effect kind inside binding (rw is_bound at effect) (rw is_bound at order)
        (rw is_bound at result)

  evidence_step :
      (r : Fields) (s t : TraceProgress)
      → is_kind "provider_evidence" r ≡ true
      → InScope r
      → handle_evidence r (noted r s) ≡ ok t
      → t.violations ≡ []
      → Outcome r s t
  evidence_step r s t kind inside h clean =
      let (_, id, revision, _, effect, history, result) =
        handle_evidence_clean r (noted r s) t h clean in
      as_evidence kind inside id revision effect history result

  completion-Step :
      (r : Fields) (s t : TraceProgress)
      → is_kind "reconciliation_completion" r ≡ true
      → InScope r
      → handle_completion r (noted r s) ≡ t
      → t.violations ≡ []
      → Outcome r s t
  completion-Step r s t kind inside h clean =
      let (_, first, effect, evidence, latest, result) =
        handle_completion_clean r (noted r s) t h clean in
      as_completion kind inside first effect evidence latest result

  -- The kinds behind the tests of the scope.
  operation_step :
      (r : Fields) (s t : TraceProgress)
      → InScope r
      → member record_kinds (get "kind" r) ≡ ok true
      → is_kind "runtime_event" r ≡ false
      → is_kind "checkpoint" r ≡ false
      → handle_operation sha256 scope r (noted r s) ≡ ok t
      → t.violations ≡ []
      → Outcome r s t
  unfolding handle_operation
  operation_step r s t inside known a b h clean = elim (Bool-cases (is_kind "approval" r)) [
    | inl c ↦ approval_step r s t c inside (rw c at h) clean
    | inr c ↦ elim (Bool-cases (is_kind "effect" r)) [
      | inl d ↦ effect_step r s t d inside (ok-injective (rw (c, d) at h)) clean
      | inr d ↦ elim (Bool-cases (is_kind "provider_evidence" r)) [
        | inl e ↦ evidence_step r s t e inside (rw (c, d, e) at h) clean
        | inr e ↦
            completion-Step r s t (sixth_kind (get "kind" r) known a b c d e) inside
              (ok-injective (rw (c, d, e) at h)) clean
      ]
    ]
  ]

  -- A handler that ends without violations began without.
  operation_clean :
      (r : Fields) (m t : TraceProgress)
      → handle_operation sha256 scope r m ≡ ok t
      → t.violations ≡ []
      → m.violations ≡ []
  unfolding handle_operation
  operation_clean r m t h clean = elim (Bool-cases (is_kind "approval" r)) [
    | inl c ↦
        (bind_operation_clean sha256 scope r m
          (handle_approval_clean r (bind_operation sha256 scope r m) t (rw c at h) clean).0).0
    | inr c ↦ elim (Bool-cases (is_kind "effect" r)) [
      | inl d ↦
          (bind_operation_clean sha256 scope r m
            (handle_effect_clean r (bind_operation sha256 scope r m) t
              (ok-injective (rw (c, d) at h)) clean).0).0
      | inr d ↦ elim (Bool-cases (is_kind "provider_evidence" r)) [
        | inl e ↦ (handle_evidence_clean r m t (rw (c, d, e) at h) clean).0
        | inr e ↦ (handle_completion_clean r m t (ok-injective (rw (c, d, e) at h)) clean).0
      ]
    ]
  ]

  pub kind_clean :
      (r : Fields) (n t : TraceProgress)
      → handle_kind sha256 scope r n ≡ ok t
      → t.violations ≡ []
      → n.violations ≡ []
  unfolding handle_kind
  kind_clean r n t h clean = elim (Bool-cases (is_kind "runtime_event" r)) [
    | inl a ↦ (handle_event_clean scope r n t (rw a at h) clean).0
    | inr a ↦ elim (Bool-cases (is_kind "checkpoint" r)) [
      | inl b ↦ (handle_checkpoint_clean scope r n t (ok-injective (rw (a, b) at h)) clean).0
      | inr b ↦
          (++-nothing n.violations (operation_violations scope r)
            (operation_clean r (add (operation_violations scope r) n) t (rw (a, b) at h) clean)).0
    ]
  ]

  pub kind_step :
      (r : Fields) (s t : TraceProgress)
      → member record_kinds (get "kind" r) ≡ ok true
      → handle_kind sha256 scope r (noted r s) ≡ ok t
      → t.violations ≡ []
      → Outcome r s t
  unfolding handle_kind
  kind_step r s t known h clean = elim (Bool-cases (is_kind "runtime_event" r)) [
    | inl a ↦
        let (_, run, turn, _, result) =
          handle_event_clean scope r (noted r s) t (rw a at h) clean in
        as_event a run turn result
    | inr a ↦ elim (Bool-cases (is_kind "checkpoint" r)) [
      | inl b ↦
          let (_, run, result) =
            handle_checkpoint_clean scope r (noted r s) t (ok-injective (rw (a, b) at h)) clean in
          as_checkpoint b run result
      | inr b ↦
          let no_more =
            operation_clean r (add (operation_violations scope r) (noted r s)) t (rw (a, b) at h)
              clean in
          operation_step r s t (operation-InScope r no_more) known a b
            (unscoped no_more (rw (a, b) at h)) clean
    ]
  ]
    where
      unscoped :
          operation_violations scope r ≡ []
          → handle_operation sha256 scope r (add (operation_violations scope r) (noted r s)) ≡ ok t
          → handle_operation sha256 scope r (noted r s) ≡ ok t
      unscoped none_found e = rw none_found at e
