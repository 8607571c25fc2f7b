-- ===== src/TraceIntegrity/Evidence.antt =====
-- Provider evidence and completions in a run without violations: what the loop has filed of the
-- evidence before a completion.
use coding_agent_reliability.Base.{
  ℕ, ◌≡◌, refl, sym, ◌∙◌, ap, subst, Bool, true, false, ◌||◌, some, List, [], ◌∷◌, ◌++◌,
  append_assoc, append-nil, String, string_eq, ◌==◌, arith, String-discrete, if◌then◌else◌, is_some,
  lookup, lookup-insert, Bool-cases, inl, inr, ◌⊎◌,
}
use coding_agent_reliability.Base.Document.{Json, null, bool, int, text, array, object, Fields, get}
use coding_agent_reliability.TraceIntegrity.Progress.{TraceScope, TraceProgress}
use coding_agent_reliability.TraceIntegrity.Handlers.{file_evidence}
use coding_agent_reliability.TraceIntegrity.Loop.{is_kind}
use coding_agent_reliability.TraceIntegrity.Steps.{
  Outcome, as_event, as_checkpoint, as_approval, as_effect, as_evidence, as_completion,
}
use coding_agent_reliability.TraceIntegrity.Runs.{Steps, done, next}
use coding_agent_reliability.TraceIntegrity.Authority.{Any, Any-snoc_old, Any-snoc_new, other_kind}

abbrev pub is_evidence : Fields → Bool
is_evidence r = is_kind "provider_evidence" r

abbrev pub is_completion : Fields → Bool
is_completion r = is_kind "reconciliation_completion" r

-- The evidence among records.
unfoldable pub evidence_of : List Fields → List Fields
evidence_of [] = []
evidence_of (r ∷ rs) = if is_evidence r then r ∷ evidence_of rs else evidence_of rs

evidence_of-snoc :
    (rs : List Fields) (r : Fields)
    → evidence_of (rs ++ r ∷ []) ≡ evidence_of rs ++ (if is_evidence r then r ∷ [] else [])
unfolding evidence_of
evidence_of-snoc [] r = ground arith
evidence_of-snoc (x ∷ rs) r = ground (arith, evidence_of-snoc rs r)

unfoldable pub any_completion : List Fields → Bool
any_completion [] = false
any_completion (r ∷ rs) = is_completion r || any_completion rs

pub any_completion-append :
    (xs ys : List Fields) → any_completion (xs ++ ys) ≡ (any_completion xs || any_completion ys)
unfolding any_completion
any_completion-append [] ys = refl
any_completion-append (x ∷ xs) ys = ground (arith, any_completion-append xs ys)

-- The record is evidence under an evidence_id.
pub record IsEvidence (id : String) (e : Fields) (r : Fields) : Type 0 where
  pub kind : is_evidence r ≡ true
  pub named : get "evidence_id" r ≡ text id
  pub same : r ≡ e

pub record Filed (seen : List Fields) (s : TraceProgress) : Type 0 where
  pub by_id :
      (id : String) (e : Fields) → lookup id s.evidence_by_id ≡ some e → Any (IsEvidence id e) seen
  pub history : s.evidence_history ≡ evidence_of seen

-- What is filed with a record was filed before, or is that record.
file_evidence_lem :
    (v : Json) (r : Fields) (filed : List (String × Fields)) (id : String) (e : Fields)
    → lookup id (file_evidence v r filed) ≡ some e
    → (lookup id filed ≡ some e) ⊎ ((v ≡ text id) × (r ≡ e))
unfolding String-discrete
file_evidence_lem (text t) r filed id e h =
    elim (Bool-cases (t == "" || is_some (lookup t filed))) [
      | inl old ↦ inl (rw old at h)
      | inr new ↦ added (Bool-cases (t == id)) (sym (lookup-insert t id r filed) ∙ (rw new at h))
    ]
  where
    added :
        ((t == id) ≡ true) ⊎ ((t == id) ≡ false)
        → (if t == id then some r else lookup id filed) ≡ some e
        → (lookup id filed ≡ some e) ⊎ ((text t ≡ text id) × (r ≡ e))
    added (inl same) k = inr (ground arith)
    added (inr other) k = inl (rw other at k)
file_evidence_lem null r filed id e h = inl h
file_evidence_lem (bool b) r filed id e h = inl h
file_evidence_lem (int n) r filed id e h = inl h
file_evidence_lem (array vs) r filed id e h = inl h
file_evidence_lem (object fs) r filed id e h = inl h

-- What a record changes of the evidence.
data View (r : Fields) (s t : TraceProgress) : Type 0 where
  no_evidence :
      is_evidence r ≡ false
      → t.evidence_by_id ≡ s.evidence_by_id
      → t.evidence_history ≡ s.evidence_history
      → View r s t
  new_evidence :
      is_evidence r ≡ true
      → t.evidence_by_id ≡ file_evidence (get "evidence_id" r) r s.evidence_by_id
      → t.evidence_history ≡ s.evidence_history ++ r ∷ []
      → View r s t

view-Filed :
    (seen : List Fields) (r : Fields) (s t : TraceProgress)
    → View r s t
    → Filed seen s
    → Filed (seen ++ r ∷ []) t
view-Filed seen r s t (no_evidence kind by_id history) a = record {
  by_id = λ id e h. Any-snoc_old (IsEvidence id e) seen r (a.by_id id e (rw by_id at h));
  history =
      rw (history, evidence_of-snoc seen r, kind) (a.history ∙ sym (append-nil (evidence_of seen)));
}
view-Filed seen r s t (new_evidence kind by_id history) a = record {
  by_id = λ id e h.
      elim (file_evidence_lem (get "evidence_id" r) r s.evidence_by_id id e (rw by_id at h)) [
        | inl old ↦ Any-snoc_old (IsEvidence id e) seen r (a.by_id id e old)
        | inr (named, same) ↦
            Any-snoc_new (IsEvidence id e) seen r
              (record { kind = kind; named = named; same = same })
      ];
  history = rw (history, evidence_of-snoc seen r, kind) (ap (λ x. x ++ r ∷ []) a.history);
}

module _ (sha256 : List ℕ → String) (scope : TraceScope) where
  view : (r : Fields) (s t : TraceProgress) → Outcome sha256 scope r s t → View r s t
  unfolding String-discrete
  view r s t (as_event kind _ _ e) =
      rw e (no_evidence (other_kind r "runtime_event" "provider_evidence" kind refl) refl refl)
  view r s t (as_checkpoint kind _ e) =
      rw e (no_evidence (other_kind r "checkpoint" "provider_evidence" kind refl) refl refl)
  view r s t (as_approval kind _ _ _ _ e) = rw e (
      no_evidence (other_kind r "approval" "provider_evidence" kind refl) (ground arith)
        (ground arith))
  view r s t (as_effect kind _ _ _ _ e) =
      rw e (no_evidence (other_kind r "effect" "provider_evidence" kind refl) refl refl)
  view r s t (as_evidence kind _ _ _ _ _ e) = rw e (new_evidence kind refl refl)
  view r s t (as_completion kind _ _ _ _ _ e) = rw e (
      no_evidence (other_kind r "reconciliation_completion" "provider_evidence" kind refl) refl
        refl)

  pub Steps-Filed :
      {rs : List Fields} {s u : TraceProgress} (seen : List Fields)
      → Steps sha256 scope rs s u
      → Filed seen s
      → Filed (seen ++ rs) u
  Steps-Filed {s} seen done a = subst (λ x. Filed x s) (sym (append-nil seen)) a
  Steps-Filed {u} seen (next {r} {rs} {s} {t} step steps) a =
      subst (λ x. Filed x u) (append_assoc seen (r ∷ []) rs)
        (Steps-Filed (seen ++ r ∷ []) steps (view-Filed seen r s t (view r s t step.outcome) a))

  -- A completion is counted, and comes when none is; nothing else is counted.
  outcome_count :
      (r : Fields) (s t : TraceProgress)
      → Outcome sha256 scope r s t
      → ((is_completion r ≡ true) × (s.completion_count ≡ 0) × (t.completion_count ≡ 1))
        ⊎ ((is_completion r ≡ false) × (t.completion_count ≡ s.completion_count))
  unfolding String-discrete
  outcome_count r s t (as_event kind _ _ e) = inr (
    other_kind r "runtime_event" "reconciliation_completion" kind refl,
    ap (λ (x : TraceProgress). x.completion_count) e,
  )
  outcome_count r s t (as_checkpoint kind _ e) = inr (
    other_kind r "checkpoint" "reconciliation_completion" kind refl,
    ap (λ (x : TraceProgress). x.completion_count) e,
  )
  outcome_count r s t (as_approval kind _ _ _ _ e) = inr (
    other_kind r "approval" "reconciliation_completion" kind refl,
    ap (λ (x : TraceProgress). x.completion_count) e ∙ ground arith,
  )
  outcome_count r s t (as_effect kind _ _ _ _ e) = inr (
    other_kind r "effect" "reconciliation_completion" kind refl,
    ap (λ (x : TraceProgress). x.completion_count) e,
  )
  outcome_count r s t (as_evidence kind _ _ _ _ _ e) = inr (
    other_kind r "provider_evidence" "reconciliation_completion" kind refl,
    ap (λ (x : TraceProgress). x.completion_count) e,
  )
  outcome_count r s t (as_completion kind _ none_yet _ _ _ e) =
      inl (kind, none_yet, ap (λ (x : TraceProgress). x.completion_count) e)

  -- Behind a completion there is no other.
  pub Steps-counted :
      {rs : List Fields} {s u : TraceProgress}
      → Steps sha256 scope rs s u
      → s.completion_count ≡ 1
      → any_completion rs ≡ false
  unfolding any_completion
  Steps-counted done h = refl
  Steps-counted (next {r} {rs} {s} {t} step steps) h = elim (outcome_count r s t step.outcome) [
    | inl (kind, zero_, one) ↦ absurd (ground (arith, zero_, h))
    | inr (kind, same) ↦ rw (kind, Steps-counted steps (same ∙ h)) refl
  ]

  -- A run that ends with no completion counted had none.
  pub Steps-uncounted :
      {rs : List Fields} {s u : TraceProgress}
      → Steps sha256 scope rs s u
      → u.completion_count ≡ 0
      → (s.completion_count ≡ 0) × (any_completion rs ≡ false)
  unfolding any_completion
  Steps-uncounted done h = (h, refl)
  Steps-uncounted (next {r} {rs} {s} {t} step steps) h =
      let (start, rest) = Steps-uncounted steps h in
      elim (outcome_count r s t step.outcome) [
        | inl (kind, zero_, one) ↦ absurd (ground (arith, one, start))
        | inr (kind, same) ↦ (sym same ∙ start, rw (kind, rest) refl)
      ]
