-- ===== src/TraceIntegrity/Handlers.antt =====
-- The records of each kind in the loop of `validate_trace`
-- (src/agent_reliability_lab/trace_integrity.py).
use coding_agent_reliability.Base.{
  ◌+◌, Bool, true, false, not, ◌&&◌, ◌||◌, Option, none, some, List, [], ◌∷◌, ◌++◌, String,
  string_eq, text_pair_eq, nat_eq, int_eq, ◌==◌, ℤ, pos, ltb_ℤ, leb_ℤ, ltb, if◌then◌else◌, Result,
  ok, is_some, contains, lookup, insert,
}
use coding_agent_reliability.Base.Document.{Json, int, text, Fields, get, as_int, json_eq, member}
use coding_agent_reliability.Base.Errors.{◌>>=◌ as bind}
use coding_agent_reliability.TraceIntegrity.Progress.{
  when, is_sha256, event_kinds, readback_states, decisions, TraceScope, TraceProgress, add,
  valid_id,
}

-- The tests of an event_id.
abbrev pub event_id_violations : Json → List String → List String
event_id_violations (text s) seen =
    if s == "" then "event_id_invalid" ∷ [] else when (contains s seen) "event_id_duplicate"
event_id_violations _ seen = "event_id_invalid" ∷ []

abbrev pub event_violations : TraceScope → Fields → List String → Bool → List String
event_violations scope r seen known =
    when (not (json_eq (get "run_id" r) scope.run_id)) "event_run_scope_mismatch"
    ++ (when (not (json_eq (get "turn_id" r) scope.turn_id)) "event_turn_scope_mismatch"
        ++ (event_id_violations (get "event_id" r) seen
            ++ (when (not known) "event_kind_invalid"
                ++ when (not (is_sha256 (get "payload_sha256" r))) "event_payload_sha256_invalid")))

unfoldable pub handle_event : TraceScope → Fields → TraceProgress → Result TraceProgress
handle_event scope r s = bind (member event_kinds (get "event_kind" r)) λ known. ok (record s {
  violations = s.violations ++ event_violations scope r s.event_ids known;
  event_ids = s.event_ids ++ valid_id (get "event_id" r);
})

unfoldable pub handle_checkpoint : TraceScope → Fields → TraceProgress → TraceProgress
handle_checkpoint scope r s = record s {
  violations =
      s.violations
      ++ when (not (json_eq (get "run_id" r) scope.run_id)) "checkpoint_run_scope_mismatch";
  checkpoints = s.checkpoints ++ r ∷ [];
}

-- `expected_effect is not None and record.get("effect_sha256") != expected_effect`
abbrev pub is_other_effect : Option String → Json → Bool
is_other_effect none effect = false
is_other_effect (some expected) effect = not (json_eq effect (text expected))

-- `isinstance(tool, str) and _is_sha256(payload_sha256)`, with the two texts.
abbrev pub candidate_binding : Json → Json → Option (String × String)
candidate_binding (text tool) (text payload) =
    if is_sha256 (text payload) then some (tool, payload) else none
candidate_binding _ _ = none

abbrev pub note_decision : Bool → Option ℤ → TraceProgress → TraceProgress
note_decision approved none s = s
note_decision true (some sequence) s = record s { approved_sequence = some sequence }
note_decision false (some sequence) s = record s { denied_sequence = some sequence }

-- The `if` on the decision of an approval.
abbrev pub decide : Bool → Fields → TraceProgress → TraceProgress
decide known r s =
    if not known
    then add ("approval_decision_invalid" ∷ []) s
    else note_decision (json_eq (get "decision" r) (text "approved")) (as_int (get "sequence" r)) s

unfoldable pub handle_approval : Fields → TraceProgress → Result TraceProgress
handle_approval r s = bind (member decisions (get "decision" r)) λ known. ok (
    add
      (when (is_other_effect s.expected_effect (get "effect_sha256" r))
        "approval_effect_fingerprint_mismatch")
      (decide known r s))

-- `approved_sequence is None or approved_sequence >= sequence`
abbrev pub lacks_approval : Option ℤ → ℤ → Bool
lacks_approval none sequence = true
lacks_approval (some approved) sequence = leb_ℤ sequence approved

-- `denied_sequence is not None and denied_sequence < sequence`
abbrev pub is_denied : Option ℤ → ℤ → Bool
is_denied none sequence = false
is_denied (some denied) sequence = ltb_ℤ denied sequence

abbrev pub order_violations : Option ℤ → Option ℤ → Option ℤ → List String
order_violations approved denied none = []
order_violations approved denied (some sequence) =
    when (lacks_approval approved sequence) "effect_without_prior_approval"
    ++ when (is_denied denied sequence) "effect_after_denial"

abbrev pub effect_violations : Fields → TraceProgress → List String
effect_violations r s =
    when (is_other_effect s.expected_effect (get "effect_sha256" r)) "effect_fingerprint_mismatch"
    ++ order_violations s.approved_sequence s.denied_sequence (as_int (get "sequence" r))

unfoldable pub handle_effect : Fields → TraceProgress → TraceProgress
handle_effect r s = add (effect_violations r s) s

-- The tests of an evidence_id.
abbrev pub evidence_id_violations : Json → List (String × Fields) → List String
evidence_id_violations (text s) seen =
    if s == ""
    then "provider_evidence_id_invalid" ∷ []
    else when (is_some (lookup s seen)) "provider_evidence_id_duplicate"
evidence_id_violations _ seen = "provider_evidence_id_invalid" ∷ []

abbrev pub file_evidence : Json → Fields → List (String × Fields) → List (String × Fields)
file_evidence (text s) r seen = if s == "" || is_some (lookup s seen) then seen else insert s r seen
file_evidence _ r seen = seen

-- `isinstance(revision, int) and not isinstance(revision, bool) and revision >= 0`
abbrev pub is_revision : Json → Bool
is_revision (int n) = not (ltb_ℤ n (pos 0))
is_revision _ = false

abbrev pub last {ℓ} : {A : Type ℓ} → List A → Option A
last [] = none
last (x ∷ []) = some x
last (x ∷ y ∷ ys) = last (y ∷ ys)

-- The comparison with the evidence before, by both revisions.
abbrev pub compare_revisions : Fields → Fields → Option ℤ → Option ℤ → List String
compare_revisions previous r (some before) (some revision) =
    if ltb_ℤ revision before
    then "provider_revision_rollback" ∷ []
    else when
        (revision == before
          && (not (json_eq (get "readback" previous) (get "readback" r))
              || not (json_eq (get "effect_sha256" previous) (get "effect_sha256" r))))
        "provider_same_revision_conflict"
compare_revisions previous r _ _ = []

abbrev pub history_violations : Option Fields → Fields → List String
history_violations none r = []
history_violations (some previous) r =
    compare_revisions previous r (as_int (get "revision" previous)) (as_int (get "revision" r))

abbrev pub evidence_violations : Fields → TraceProgress → Bool → List String
evidence_violations r s known =
    evidence_id_violations (get "evidence_id" r) s.evidence_by_id
    ++ (when (not (is_revision (get "revision" r))) "provider_revision_invalid"
        ++ (when (not known) "provider_readback_invalid"
            ++ (when (is_other_effect s.expected_effect (get "effect_sha256" r))
                  "provider_effect_fingerprint_mismatch"
                ++ history_violations (last s.evidence_history) r)))

unfoldable pub handle_evidence : Fields → TraceProgress → Result TraceProgress
handle_evidence r s = bind (member readback_states (get "readback" r)) λ known. ok (record s {
  violations = s.violations ++ evidence_violations r s known;
  evidence_by_id = file_evidence (get "evidence_id" r) r s.evidence_by_id;
  evidence_history = s.evidence_history ++ r ∷ [];
})

-- `evidence_by_id.get(evidence_id) if isinstance(evidence_id, str) else None`
abbrev pub named_evidence : Json → List (String × Fields) → Option Fields
named_evidence (text s) seen = lookup s seen
named_evidence _ seen = none

abbrev pub completion_violations : Option Fields → Fields → List String
completion_violations none r = "completion_evidence_missing" ∷ []
completion_violations (some evidence) r =
    when (not (json_eq (get "readback" evidence) (text "present")))
      "completion_requires_present_evidence"
    ++ (when (not (json_eq (get "revision" evidence) (get "revision" r)))
          "completion_revision_mismatch"
        ++ when (not (json_eq (get "effect_sha256" evidence) (get "effect_sha256" r)))
            "completion_evidence_effect_mismatch")

abbrev pub larger : Option ℤ → Option ℤ → Option ℤ
larger none b = b
larger (some a) none = some a
larger (some a) (some b) = if ltb_ℤ a b then some b else some a

-- `max(revisions)`, with `none` where there are none.
unfoldable pub max_revision : List Fields → Option ℤ
max_revision [] = none
max_revision (r ∷ rs) = larger (as_int (get "revision" r)) (max_revision rs)

abbrev pub is_not_latest : Json → Option ℤ → Bool
is_not_latest revision none = false
is_not_latest revision (some latest) = not (json_eq revision (int latest))

abbrev pub all_completion_violations : Fields → TraceProgress → List String
all_completion_violations r s =
    when (ltb 1 (s.completion_count + 1)) "multiple_reconciliation_completions"
    ++ (when (is_other_effect s.expected_effect (get "effect_sha256" r))
          "completion_effect_fingerprint_mismatch"
        ++ (completion_violations (named_evidence (get "evidence_id" r) s.evidence_by_id) r
            ++ when (is_not_latest (get "revision" r) (max_revision s.evidence_history))
                "completion_not_latest_provider_revision"))

unfoldable pub handle_completion : Fields → TraceProgress → TraceProgress
unfolding max_revision
handle_completion r s = record s {
  violations = s.violations ++ all_completion_violations r s;
  completion_count = s.completion_count + 1;
}
