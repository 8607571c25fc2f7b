-- ===== src/TraceIntegrity/Effects.antt =====
-- The invariant of the loop that ties an effect to its approval.
use coding_agent_reliability.Base.{
  ℕ, ◌≡◌, refl, sym, ◌∙◌, ap, Bool, true, false, not, Option, none, some, List, [], ◌∷◌, ◌++◌,
  append_assoc, append-nil, subst, String, string_eq, text_pair_eq, nat_eq, int_eq, arith, ℤ,
  is_some, contains, contains-append, Option-cases, inl, inr, ok, String-discrete,
}
use coding_agent_reliability.Base.Document.{int, text, Fields, get, json_eq, json_eq-text, member}
use coding_agent_reliability.TraceIntegrity.Progress.{
  TraceScope, TraceProgress, valid_sequence, identity_violations, decisions,
}
use coding_agent_reliability.TraceIntegrity.Handlers.{is_other_effect, decide}
use coding_agent_reliability.TraceIntegrity.Loop.{
  is_kind, binding_violations, new_binding, effect_fingerprint,
}
use coding_agent_reliability.TraceIntegrity.Steps.{
  bound, candidate_of, Outcome, as_event, as_checkpoint, as_approval, as_effect, as_evidence,
  as_completion,
}
use coding_agent_reliability.TraceIntegrity.Runs.{Steps, done, next}
use coding_agent_reliability.TraceIntegrity.Authority.{
  Any, Any-snoc_old, Any-snoc_new, is_denial, any_denial, any_denial-snoc, other_kind,
  known_binding, sequence_of, decision_of,
}

approved_is_other : json_eq (text "approved") (text "denied") ≡ false
unfolding json_eq String-discrete
approved_is_other = refl

denied_is_other : json_eq (text "denied") (text "approved") ≡ false
unfolding json_eq String-discrete
denied_is_other = refl

same_text : (t : String) → json_eq (text t) (text t) ≡ true
unfolding json_eq
same_text t = ground arith

module _ (sha256 : List ℕ → String) (provider operation : String) where
  abbrev pub fingerprint : String × String → String
  fingerprint b = effect_fingerprint sha256 provider operation b.0 b.1

  -- The record approves the tool and payload digest, under the fingerprint of exactly this effect.
  pub record IsApproval (b : String × String) (r : Fields) : Type 0 where
    pub kind : is_kind "approval" r ≡ true
    pub decision : get "decision" r ≡ text "approved"
    pub tool : get "tool" r ≡ text b.0
    pub payload : get "payload_sha256" r ≡ text b.1
    pub effect : get "effect_sha256" r ≡ text (fingerprint b)

module _ (sha256 : List ℕ → String) (scope : TraceScope) (provider operation : String)
    (is_provider : scope.provider ≡ text provider)
    (is_operation : scope.operation_id ≡ text operation) where
  abbrev digest_of : String × String → String
  digest_of b = fingerprint sha256 provider operation b

  abbrev Approves : String × String → Fields → Type 0
  Approves b r = IsApproval sha256 provider operation b r

  pub record Authority (seen : List Fields) (s : TraceProgress) : Type 0 where
    pub expected :
        (b : String × String) → s.binding ≡ some b → s.expected_effect ≡ some (digest_of b)
    pub approved :
        (q : ℤ)
        → s.approved_sequence ≡ some q
        → (b : String × String) × (s.binding ≡ some b) × Any (Approves b) seen
    pub denied : is_some s.denied_sequence ≡ any_denial seen
    pub denied_before : (q : ℤ) → s.denied_sequence ≡ some q → contains q s.sequences ≡ true

  -- A record that is no approval and keeps the binding keeps the invariant.
  keep :
      (seen : List Fields) (r : Fields) (s t : TraceProgress)
      → Authority seen s
      → is_kind "approval" r ≡ false
      → t.binding ≡ s.binding
      → t.expected_effect ≡ s.expected_effect
      → t.approved_sequence ≡ s.approved_sequence
      → t.denied_sequence ≡ s.denied_sequence
      → t.sequences ≡ s.sequences ++ valid_sequence (get "sequence" r)
      → Authority (seen ++ r ∷ []) t
  keep seen r s t a other binding expected approved denied sequences = record {
    expected = λ b h. expected ∙ a.expected b (sym binding ∙ h);
    approved = λ q h.
        let (b, bound_before, approval) = a.approved q (sym approved ∙ h) in
        (b, binding ∙ bound_before, Any-snoc_old (Approves b) seen r approval);
    denied = rw (denied, any_denial-snoc seen r, other) (ground (arith, a.denied));
    denied_before = λ q h.
        rw (sequences, contains-append q s.sequences (valid_sequence (get "sequence" r)))
          (ground (arith, a.denied_before q (sym denied ∙ h)));
  }

  -- The binding of a record that passes the shared tests, with the fingerprint that it is held to.
  pub bound_expected :
      (seen : List Fields) (r : Fields) (s : TraceProgress) (b : String × String)
      → Authority seen s
      → candidate_of r ≡ some b
      → new_binding s.binding (candidate_of r) ≡ some b
      → (bound sha256 scope r s).expected_effect ≡ some (digest_of b)
  bound_expected seen r s b a candidate binding = elim (Option-cases s.binding) [
    | inl fresh ↦ ground (arith, fresh)
    | inr (old, was) ↦ ground (arith, was, a.expected b)
  ]

  -- An effect keeps the invariant.
  keep_effect :
      (seen : List Fields) (r : Fields) (s : TraceProgress) (b : String × String)
      → Authority seen s
      → is_kind "approval" r ≡ false
      → candidate_of r ≡ some b
      → new_binding s.binding (candidate_of r) ≡ some b
      → Authority (seen ++ r ∷ []) (bound sha256 scope r s)
  keep_effect seen r s b a other candidate binding =
      let expected = bound_expected seen r s b a candidate binding in
      record {
        expected = λ c h. expected ∙ ap (λ x. some (digest_of x)) (same c h);
        approved = λ q h. later (a.approved q h);
        denied = rw (any_denial-snoc seen r, other) (ground (arith, a.denied));
        denied_before = λ q h.
            rw (contains-append q s.sequences (valid_sequence (get "sequence" r)))
              (ground (arith, a.denied_before q h));
      }
    where
      same : (c : String × String) → new_binding s.binding (candidate_of r) ≡ some c → b ≡ c
      same c h = ground (arith, binding)

      later :
          ((c : String × String) × (s.binding ≡ some c) × Any (Approves c) seen)
          → (c : String × String) × (new_binding s.binding (candidate_of r) ≡ some c)
            × Any (Approves c) (seen ++ r ∷ [])
      later (c, was, approval) = (c, ground (arith, was), Any-snoc_old (Approves c) seen r approval)

  -- The fingerprint that a record is held to is its own.
  pub own_fingerprint :
      (r : Fields) (expected : Option String) (b : String × String)
      → expected ≡ some (digest_of b)
      → is_other_effect expected (get "effect_sha256" r) ≡ false
      → get "effect_sha256" r ≡ text (digest_of b)
  own_fingerprint r expected b is_expected h =
      json_eq-text (get "effect_sha256" r) (digest_of b) (tested (rw is_expected at h))
    where
      tested : {x : Bool} → not x ≡ false → x ≡ true
      tested {x} e = ground arith

  -- An approval keeps the invariant.
  keep_approval :
      (seen : List Fields) (r : Fields) (s : TraceProgress) (b : String × String) (n : ℤ)
      → Authority seen s
      → Approves b r
      → get "sequence" r ≡ int n
      → new_binding s.binding (candidate_of r) ≡ some b
      → (bound sha256 scope r s).expected_effect ≡ some (digest_of b)
      → Authority (seen ++ r ∷ []) (record (bound sha256 scope r s) { approved_sequence = some n })
  keep_approval seen r s b n a approval sequence binding expected = record {
    expected = λ c h. expected ∙ ap (λ x. some (digest_of x)) (same c h);
    approved = λ q h. (b, binding, Any-snoc_new (Approves b) seen r approval);
    denied =
        rw (any_denial-snoc seen r, approval.decision)
          (ground (arith, a.denied, approved_is_other));
    denied_before = λ q h.
        rw (contains-append q s.sequences (valid_sequence (get "sequence" r)))
          (ground (arith, a.denied_before q h));
  }
    where
      same : (c : String × String) → new_binding s.binding (candidate_of r) ≡ some c → b ≡ c
      same c h = ground (arith, binding)

  -- A denial keeps the invariant.
  keep_denial :
      (seen : List Fields) (r : Fields) (s : TraceProgress) (b : String × String) (n : ℤ)
      → Authority seen s
      → is_denial r ≡ true
      → valid_sequence (get "sequence" r) ≡ n ∷ []
      → new_binding s.binding (candidate_of r) ≡ some b
      → (bound sha256 scope r s).expected_effect ≡ some (digest_of b)
      → Authority (seen ++ r ∷ []) (record (bound sha256 scope r s) { denied_sequence = some n })
  unfolding contains
  keep_denial seen r s b n a denial sequence binding expected = record {
    expected = λ c h. expected ∙ ap (λ x. some (digest_of x)) (same c h);
    approved = λ q h. later (a.approved q h);
    denied = rw (any_denial-snoc seen r, denial) (ground arith);
    denied_before =
        λ q h. rw (sequence, contains-append q s.sequences (n ∷ [])) (ground (arith, h));
  }
    where
      same : (c : String × String) → new_binding s.binding (candidate_of r) ≡ some c → b ≡ c
      same c h = ground (arith, binding)

      later :
          ((c : String × String) × (s.binding ≡ some c) × Any (Approves c) seen)
          → (c : String × String) × (new_binding s.binding (candidate_of r) ≡ some c)
            × Any (Approves c) (seen ++ r ∷ [])
      later (c, was, approval) = (c, ground (arith, was), Any-snoc_old (Approves c) seen r approval)

  approval_outcome :
      (seen : List Fields) (r : Fields) (s : TraceProgress)
      → Authority seen s
      → identity_violations r ≡ []
      → is_kind "approval" r ≡ true
      → binding_violations r s.binding (candidate_of r) ≡ []
      → member decisions (get "decision" r) ≡ ok true
      → is_other_effect (bound sha256 scope r s).expected_effect (get "effect_sha256" r) ≡ false
      → Authority
          (seen ++ r ∷ [])
          (record (decide true r (bound sha256 scope r s)) { violations = [] })
  approval_outcome seen r s a id kind tests decided effect =
      let (b, candidate, tool, payload, binding) = known_binding r s.binding tests in
      let expected = bound_expected seen r s b a candidate binding in
      let (n, sequence, valid) = sequence_of r id in
      elim (decision_of (get "decision" r) decided) [
        | inl approved ↦ rw (approves approved n sequence) (
            keep_approval seen r s b n a
              (record {
                kind = kind;
                decision = approved;
                tool = tool;
                payload = payload;
                effect = own_fingerprint r _ b expected effect;
              })
              sequence binding expected)
        | inr denied ↦ rw (denies denied n sequence) (
            keep_denial seen r s b n a (rw (kind, denied, same_text "denied") refl) valid binding
              expected)
      ]
    where
      approves :
          get "decision" r ≡ text "approved"
          → (n : ℤ) → get "sequence" r ≡ int n
          → record (decide true r (bound sha256 scope r s)) { violations = [] }
            ≡ record (bound sha256 scope r s) { approved_sequence = some n }
      approves d n q = rw (d, q, same_text "approved") refl

      denies :
          get "decision" r ≡ text "denied"
          → (n : ℤ) → get "sequence" r ≡ int n
          → record (decide true r (bound sha256 scope r s)) { violations = [] }
            ≡ record (bound sha256 scope r s) { denied_sequence = some n }
      denies d n q = rw (d, q, denied_is_other) refl

  -- Every outcome keeps the invariant.
  keep_outcome :
      (seen : List Fields) (r : Fields) (s t : TraceProgress)
      → identity_violations r ≡ []
      → Outcome sha256 scope r s t
      → Authority seen s
      → Authority (seen ++ r ∷ []) t
  unfolding String-discrete
  keep_outcome seen r s t id (as_event kind _ _ e) a = rw e (
      keep seen r s _ a (other_kind r "runtime_event" "approval" kind refl) refl refl refl refl
        refl)
  keep_outcome seen r s t id (as_checkpoint kind _ e) a =
      rw e (
        keep seen r s _ a (other_kind r "checkpoint" "approval" kind refl) refl refl refl refl refl)
  keep_outcome seen r s t id (as_approval kind _ tests decided effect e) a =
      rw e (approval_outcome seen r s a id kind tests decided effect)
  keep_outcome seen r s t id (as_effect kind _ tests effect order e) a =
      let (b, candidate, tool, payload, binding) = known_binding r s.binding tests in
      rw e (keep_effect seen r s b a (other_kind r "effect" "approval" kind refl) candidate binding)
  keep_outcome seen r s t id (as_evidence kind _ _ _ _ _ e) a = rw e (
      keep seen r s _ a (other_kind r "provider_evidence" "approval" kind refl) refl refl refl refl
        refl)
  keep_outcome seen r s t id (as_completion kind _ _ _ _ _ e) a = rw e (
      keep seen r s _ a (other_kind r "reconciliation_completion" "approval" kind refl) refl refl
        refl refl refl)

  -- So it holds behind every run.
  pub Steps-Authority :
      {rs : List Fields} {s u : TraceProgress} (seen : List Fields)
      → Steps sha256 scope rs s u
      → Authority seen s
      → Authority (seen ++ rs) u
  Steps-Authority {s} seen done a = subst (λ x. Authority x s) (sym (append-nil seen)) a
  Steps-Authority {u} seen (next {r} {rs} {s} {t} step steps) a =
      subst (λ x. Authority x u) (append_assoc seen (r ∷ []) rs)
        (Steps-Authority (seen ++ r ∷ []) steps
          (keep_outcome seen r s t step.identity step.outcome a))

  pub initial-Authority :
      (s : TraceProgress)
      → s.binding ≡ none
      → s.approved_sequence ≡ none
      → s.denied_sequence ≡ none
      → Authority [] s
  unfolding any_denial
  initial-Authority s binding approved denied = record {
    expected = λ b h. absurd (ground (arith, binding, h));
    approved = λ q h. absurd (ground (arith, approved, h));
    denied = ground (arith, denied);
    denied_before = λ q h. absurd (ground (arith, denied, h));
  }
