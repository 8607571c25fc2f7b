-- ===== src/TraceIntegrity/Approved.antt =====
-- No effect of an accepted trace without its approval, and none behind a denial.
use coding_agent_reliability.Base.{
  ℕ, ◌≡◌, contains, refl, sym, ◌∙◌, ap, true, false, Option, none, some, List, [], ◌∷◌, ◌++◌,
  append_assoc, subst, String, string_eq, text_pair_eq, nat_eq, int_eq, ◌==◌, arith, ℤ, ◌<ℤ◌, ◌≤ℤ◌,
  Increasing, map, is_some, inl, inr, ◌⊎◌, ok, String-discrete,
}
use coding_agent_reliability.Base.Document.{
  text, array, object, Items, items, Fields, get, as_int, json_eq, json_eq-text,
}
use coding_agent_reliability.TraceIntegrity.Progress.{TraceScope, TraceProgress, valid_sequence}
use coding_agent_reliability.TraceIntegrity.Handlers.{order_violations, is_other_effect}
use coding_agent_reliability.TraceIntegrity.Loop.{is_kind, binding_violations, new_binding}
use coding_agent_reliability.TraceIntegrity.Validator.{validate_trace, scope_of, initial_progress}
use coding_agent_reliability.TraceIntegrity.Steps.{
  bound, candidate_of, Outcome, as_event, as_checkpoint, as_approval, as_effect, as_evidence,
  as_completion,
}
use coding_agent_reliability.TraceIntegrity.Runs.{Step}
use coding_agent_reliability.TraceIntegrity.Authority.{
  Any, any_denial, other_kind, known_binding, sequence_of,
}
use coding_agent_reliability.TraceIntegrity.Effects.{
  fingerprint, IsApproval, Authority, bound_expected, own_fingerprint, Steps-Authority,
  initial-Authority,
}
use coding_agent_reliability.TraceIntegrity.Places.{
  Increasing-before, sequences_of, outcome_sequences, Steps-sequences, Step-at,
}
use coding_agent_reliability.TraceIntegrity.Accepted.{validate_trace-Accepted}

pub wrong :
    (r : Fields) (kind other : String)
    → is_kind kind r ≡ true
    → (kind == other) ≡ false
    → is_kind other r ≡ true
    → ⊥
wrong r kind other a b c = absurd (ground (arith, other_kind r kind other a b))

-- The facts of a step for an effect.
effect_outcome :
    (sha256 : List ℕ → String) (scope : TraceScope) (r : Fields) (s t : TraceProgress)
    → Outcome sha256 scope r s t
    → is_kind "effect" r ≡ true
    → (json_eq (get "provider" r) scope.provider ≡ true)
      × (json_eq (get "operation_id" r) scope.operation_id ≡ true)
      × (binding_violations r s.binding (candidate_of r) ≡ [])
      × (is_other_effect (bound sha256 scope r s).expected_effect (get "effect_sha256" r) ≡ false)
      × (order_violations s.approved_sequence s.denied_sequence (as_int (get "sequence" r)) ≡ [])
unfolding String-discrete
effect_outcome sha256 scope r s t (as_effect _ inside tests effect order _) h =
    (inside.provider, inside.operation, tests, effect, order)
effect_outcome sha256 scope r s t (as_event kind _ _ _) h =
    absurd (wrong r "runtime_event" "effect" kind refl h)
effect_outcome sha256 scope r s t (as_checkpoint kind _ _) h =
    absurd (wrong r "checkpoint" "effect" kind refl h)
effect_outcome sha256 scope r s t (as_approval kind _ _ _ _ _) h =
    absurd (wrong r "approval" "effect" kind refl h)
effect_outcome sha256 scope r s t (as_evidence kind _ _ _ _ _ _) h =
    absurd (wrong r "provider_evidence" "effect" kind refl h)
effect_outcome sha256 scope r s t (as_completion kind _ _ _ _ _ _) h =
    absurd (wrong r "reconciliation_completion" "effect" kind refl h)

-- The loop's tests of the order: there is an approval, and a denial is not older.
order_facts :
    (approved denied : Option ℤ) (n : ℤ)
    → order_violations approved denied (some n) ≡ []
    → ((q : ℤ) × (approved ≡ some q)) × ((denied ≡ none) ⊎ ((d : ℤ) × (denied ≡ some d) × (n ≤ℤ d)))
order_facts none denied n h = cc
order_facts (some q) none n h = ((q, refl), inl refl)
order_facts (some q) (some d) n h = ((q, refl), inr (d, refl, ground arith))

-- The effect record has a binding, the fingerprint of exactly this effect, an approval of it among the
-- records before, and no denial there.
pub record ApprovedEffect (sha256 : List ℕ → String) (provider operation : String)
    (before : List Fields) (r : Fields) : Type 0 where
  pub binding : String × String
  pub of_provider : get "provider" r ≡ text provider
  pub of_operation : get "operation_id" r ≡ text operation
  pub tool : get "tool" r ≡ text binding.0
  pub payload : get "payload_sha256" r ≡ text binding.1
  pub effect : get "effect_sha256" r ≡ text (fingerprint sha256 provider operation binding)
  pub approval : Any (IsApproval sha256 provider operation binding) before
  pub undenied : any_denial before ≡ false

above : (d n : ℤ) → n ≤ℤ d → d <ℤ n → ⊥
above d n le lt = omega arith

-- A denial that is not below the next number was never made.
no_denial :
    (s : TraceProgress) (n : ℤ) (more : List ℤ)
    → (s.denied_sequence ≡ none) ⊎ ((d : ℤ) × (s.denied_sequence ≡ some d) × (n ≤ℤ d))
    → ((d : ℤ) → s.denied_sequence ≡ some d → contains d s.sequences ≡ true)
    → Increasing (s.sequences ++ n ∷ more)
    → is_some s.denied_sequence ≡ false
no_denial s n more (inl none_yet) noted increasing = rw none_yet refl
no_denial s n more (inr (d, was, le)) noted increasing =
    absurd (above d n le (Increasing-before d n s.sequences more increasing (noted d was)))

module _ (sha256 : List ℕ → String) (scope : TraceScope) (provider operation : String)
    (is_provider : scope.provider ≡ text provider)
    (is_operation : scope.operation_id ≡ text operation) where
  approved-Step :
      (before : List Fields) (r : Fields) (s t : TraceProgress) (more : List ℤ)
      → Authority sha256 scope provider operation is_provider is_operation before s
      → Step sha256 scope r s t
      → is_kind "effect" r ≡ true
      → ((n : ℤ)
          → valid_sequence (get "sequence" r) ≡ n ∷ []
          → Increasing (s.sequences ++ n ∷ more))
      → ApprovedEffect sha256 provider operation before r
  approved-Step before r s t more a step kind increasing =
      let (of_provider, of_operation, tests, effect, order) =
        effect_outcome sha256 scope r s t step.outcome kind in
      let (b, candidate, tool, payload, binding) = known_binding r s.binding tests in
      let expected =
        bound_expected sha256 scope provider operation is_provider is_operation before r s b a
          candidate binding in
      let (n, sequence, valid) = sequence_of r step.identity in
      let ((q, approved), denied) =
        order_facts s.approved_sequence s.denied_sequence n (rw sequence at order) in
      let (c, was_bound, approval) = a.approved q approved in
      record {
        binding = b;
        of_provider = json_eq-text (get "provider" r) provider (rw is_provider at of_provider);
        of_operation =
            json_eq-text (get "operation_id" r) operation (rw is_operation at of_operation);
        tool = tool;
        payload = payload;
        effect =
            own_fingerprint sha256 scope provider operation is_provider is_operation r _ b expected
              effect;
        approval =
            subst (λ (x : String × String). Any (IsApproval sha256 provider operation x) before)
              (same c b was_bound binding) approval;
        undenied = sym a.denied ∙ no_denial s n more denied a.denied_before (increasing n valid);
      }
    where
      same :
          (c b : String × String)
          → s.binding ≡ some c
          → new_binding s.binding (candidate_of r) ≡ some b
          → c ≡ b
      same c b x y = ground (arith, x, y)

module _ (sha256 : List ℕ → String) where
  -- In a trace that the validator accepts, each effect record is for the provider and the operation of
  -- the scope, it has the fingerprint of exactly its tool and payload digest, a record before it
  -- approves exactly these, under the same fingerprint, and no record before it denies the operation.
  pub effects_are_approved :
      (trace scope : Fields) (elements : Items) (provider operation : String)
      (before after : List Fields) (r : Fields)
      → validate_trace sha256 trace ≡ ok []
      → get "scope" trace ≡ object scope
      → get "provider" scope ≡ text provider
      → get "operation_id" scope ≡ text operation
      → get "records" trace ≡ array elements
      → items elements ≡ map object (before ++ r ∷ after)
      → is_kind "effect" r ≡ true
      → ApprovedEffect sha256 provider operation before r
  effects_are_approved trace scope elements provider operation before after r accepted has_scope
        is_provider is_operation found objects kind =
      let a = validate_trace-Accepted sha256 trace accepted in
      let same = object_same a.scope scope (sym a.scope_found ∙ has_scope) in
      let (s, t, first, step, last) =
        Step-at sha256 trace a elements before after r found objects in
      approved-Step sha256 (scope_of a.scope) provider operation (rw same is_provider)
        (rw same is_operation) before r s t (sequences_of after)
        (Steps-Authority sha256 (scope_of a.scope) provider operation (rw same is_provider)
          (rw same is_operation) [] first
          (initial-Authority sha256 (scope_of a.scope) provider operation (rw same is_provider)
            (rw same is_operation) (initial_progress (scope_of a.scope)) refl refl refl))
        step kind
        (λ n valid.
          subst Increasing
            (Steps-sequences sha256 (scope_of a.scope) last
              ∙ ap (λ x. x ++ sequences_of after)
                  (outcome_sequences sha256 (scope_of a.scope) r s t step.outcome
                    ∙ ap (λ x. s.sequences ++ x) valid)
              ∙ append_assoc s.sequences (n ∷ []) (sequences_of after))
            a.increasing)
    where
      object_same : (x y : Fields) → object x ≡ object y → x ≡ y
      object_same x y h = cc
