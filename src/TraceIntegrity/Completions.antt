-- ===== src/TraceIntegrity/Completions.antt =====
-- No completion of an accepted trace without the evidence that it names.
use coding_agent_reliability.Base.{
  ℕ, ◌≡◌, refl, ap, Bool, true, false, not, ◌&&◌, ◌||◌, Option, none, some, List, [], ◌∷◌, ◌++◌,
  String, arith, String-discrete, ℤ, ltb_ℤ, map, string_eq, ◌==◌, Option-cases, Bool-cases, inl,
  inr, lookup, ok,
}
use coding_agent_reliability.Base.Document.{
  Json, null, bool, int, text, array, object, Items, items, Fields, get, as_int, json_eq,
  json_eq-text, json_eq-int,
}
use coding_agent_reliability.TraceIntegrity.Progress.{TraceScope, TraceProgress}
use coding_agent_reliability.TraceIntegrity.Handlers.{
  named_evidence, completion_violations, larger, max_revision, is_not_latest,
}
use coding_agent_reliability.TraceIntegrity.Loop.{is_kind}
use coding_agent_reliability.TraceIntegrity.Validator.{validate_trace, scope_of}
use coding_agent_reliability.TraceIntegrity.Steps.{
  Outcome, as_event, as_checkpoint, as_approval, as_effect, as_evidence, as_completion,
}
use coding_agent_reliability.TraceIntegrity.Runs.{Step, Steps}
use coding_agent_reliability.TraceIntegrity.Accepted.{validate_trace-Accepted}
use coding_agent_reliability.TraceIntegrity.Authority.{Any, other_kind}
use coding_agent_reliability.TraceIntegrity.Places.{Step-at}
use coding_agent_reliability.TraceIntegrity.Evidence.{
  is_evidence, is_completion, evidence_of, any_completion, any_completion-append, IsEvidence, Filed,
  Steps-Filed, Steps-counted, Steps-uncounted,
}

-- A revision above a limit, where there is no limit each one.
abbrev pub exceeds : Option ℤ → Option ℤ → Bool
exceeds none limit = false
exceeds (some m) none = true
exceeds (some m) (some n) = ltb_ℤ n m

-- Evidence has a revision above the limit.
unfoldable pub any_newer : Option ℤ → List Fields → Bool
any_newer limit [] = false
any_newer limit (r ∷ rs) =
    (is_evidence r && exceeds (as_int (get "revision" r)) limit) || any_newer limit rs

-- A record that the completion can name: present evidence for the same revision and effect.
pub record Proves (completion : Fields) (id : String) (r : Fields) : Type 0 where
  pub kind : is_evidence r ≡ true
  pub named : get "evidence_id" r ≡ text id
  pub present : get "readback" r ≡ text "present"
  pub revision : json_eq (get "revision" r) (get "revision" completion) ≡ true
  pub effect : json_eq (get "effect_sha256" r) (get "effect_sha256" completion) ≡ true

-- A completion names evidence before it, there is no newer evidence before it, and no other completion.
pub record ProvedCompletion (before after : List Fields) (r : Fields) : Type 0 where
  pub id : String
  pub named : get "evidence_id" r ≡ text id
  pub evidence : Any (Proves r id) before
  pub latest : any_newer (as_int (get "revision" r)) before ≡ false
  pub alone : any_completion (before ++ after) ≡ false

exceeds-larger :
    (a b limit : Option ℤ)
    → exceeds (larger a b) limit ≡ false
    → (exceeds a limit ≡ false) × (exceeds b limit ≡ false)
exceeds-larger none b limit h = (refl, h)
exceeds-larger (some m) none limit h = (h, refl)
exceeds-larger (some m) (some n) none h = ground arith
exceeds-larger (some m) (some n) (some l) h = ground arith

any_newer-max :
    (limit : Option ℤ) (rs : List Fields)
    → exceeds (max_revision (evidence_of rs)) limit ≡ false
    → any_newer limit rs ≡ false
unfolding any_newer evidence_of max_revision
any_newer-max limit [] h = refl
any_newer-max limit (r ∷ rs) h = elim (Bool-cases (is_evidence r)) [
  | inl evidence ↦
      let (own, others) =
        exceeds-larger (as_int (get "revision" r)) (max_revision (evidence_of rs)) limit
          (rw evidence at h) in
      rw (evidence, own, any_newer-max limit rs others) refl
  | inr other ↦ rw (other, any_newer-max limit rs (rw other at h)) refl
]

not_exceeded :
    (v : Json) (latest : Option ℤ)
    → is_not_latest v latest ≡ false
    → exceeds latest (as_int v) ≡ false
not_exceeded v none h = refl
not_exceeded v (some n) h = rw (json_eq-int v n (tested h)) (ground arith)
  where
    tested : not (json_eq v (int n)) ≡ false → json_eq v (int n) ≡ true
    tested e = ground arith

-- What the loop tests of the evidence that a completion names.
found_evidence :
    (v : Json) (filed : List (String × Fields)) (r : Fields)
    → completion_violations (named_evidence v filed) r ≡ []
    → (id : String) × (e : Fields) × (v ≡ text id)
      × (lookup id filed ≡ some e)
      × (json_eq (get "readback" e) (text "present") ≡ true)
      × (json_eq (get "revision" e) (get "revision" r) ≡ true)
      × (json_eq (get "effect_sha256" e) (get "effect_sha256" r) ≡ true)
found_evidence (text id) filed r h = elim (Option-cases (lookup id filed)) [
  | inl missing ↦ absurd (ground (arith, missing))
  | inr (e, found) ↦
      let (readback, revision, effect) = tests e (rw found at h) in
      (id, e, refl, found, readback, revision, effect)
]
  where
    tests :
        (e : Fields)
        → completion_violations (some e) r ≡ []
        → (json_eq (get "readback" e) (text "present") ≡ true)
          × (json_eq (get "revision" e) (get "revision" r) ≡ true)
          × (json_eq (get "effect_sha256" e) (get "effect_sha256" r) ≡ true)
    tests e k = ground arith
found_evidence null filed r h = cc
found_evidence (bool b) filed r h = cc
found_evidence (int n) filed r h = cc
found_evidence (array vs) filed r h = cc
found_evidence (object fs) filed r h = cc

proves :
    (before : List Fields) (r e : Fields) (id : String)
    → Any (IsEvidence id e) before
    → json_eq (get "readback" e) (text "present") ≡ true
    → json_eq (get "revision" e) (get "revision" r) ≡ true
    → json_eq (get "effect_sha256" e) (get "effect_sha256" r) ≡ true
    → Any (Proves r id) before
proves [] r e id found readback revision effect = elim found [ ]
proves (x ∷ before) r e id (inl first) readback revision effect = inl record {
  kind = first.kind;
  named = first.named;
  present = rw first.same (json_eq-text (get "readback" e) "present" readback);
  revision = rw first.same revision;
  effect = rw first.same effect;
}
proves (x ∷ before) r e id (inr found) readback revision effect =
    inr (proves before r e id found readback revision effect)

wrong_kind :
    (r : Fields) (kind : String)
    → is_kind kind r ≡ true
    → (kind == "reconciliation_completion") ≡ false
    → is_completion r ≡ true
    → ⊥
wrong_kind r kind a b c = absurd (ground (arith, other_kind r kind "reconciliation_completion" a b))

module _ (sha256 : List ℕ → String) (scope : TraceScope) where
  completion_outcome :
      (r : Fields) (s t : TraceProgress)
      → Outcome sha256 scope r s t
      → is_completion r ≡ true
      → (s.completion_count ≡ 0)
        × (completion_violations (named_evidence (get "evidence_id" r) s.evidence_by_id) r ≡ [])
        × (is_not_latest (get "revision" r) (max_revision s.evidence_history) ≡ false)
        × (t.completion_count ≡ 1)
  unfolding String-discrete
  completion_outcome r s t (as_completion _ _ none_yet _ tests latest e) h =
      (none_yet, tests, latest, ap (λ (x : TraceProgress). x.completion_count) e)
  completion_outcome r s t (as_event kind _ _ _) h =
      absurd (wrong_kind r "runtime_event" kind refl h)
  completion_outcome r s t (as_checkpoint kind _ _) h =
      absurd (wrong_kind r "checkpoint" kind refl h)
  completion_outcome r s t (as_approval kind _ _ _ _ _) h =
      absurd (wrong_kind r "approval" kind refl h)
  completion_outcome r s t (as_effect kind _ _ _ _ _) h = absurd (wrong_kind r "effect" kind refl h)
  completion_outcome r s t (as_evidence kind _ _ _ _ _ _) h =
      absurd (wrong_kind r "provider_evidence" kind refl h)

  completion-Step :
      (before after : List Fields) (r : Fields) (s t u : TraceProgress)
      → Filed before s
      → (s.completion_count ≡ 0 → any_completion before ≡ false)
      → Steps sha256 scope after t u
      → Step sha256 scope r s t
      → is_completion r ≡ true
      → ProvedCompletion before after r
  completion-Step before after r s t u filed uncounted last step kind =
      let (none_yet, tests, latest, counted) = completion_outcome r s t step.outcome kind in
      let (id, e, named, found, readback, revision, effect) =
        found_evidence (get "evidence_id" r) s.evidence_by_id r tests in
      record {
        id = id;
        named = named;
        evidence = proves before r e id (filed.by_id id e found) readback revision effect;
        latest = any_newer-max (as_int (get "revision" r)) before (
            not_exceeded (get "revision" r) (max_revision (evidence_of before))
              (rw filed.history at latest));
        alone =
            rw
              (
                any_completion-append before after,
                uncounted none_yet,
                Steps-counted sha256 scope last counted,
              )
              refl;
      }

nothing_filed : (id : String) (e : Fields) → lookup id [] ≡ some e → ⊥
unfolding lookup
nothing_filed id e h = cc

module _ (sha256 : List ℕ → String) where
  -- In a trace that the validator accepts, each completion names a provider evidence record before it:
  -- with its evidence_id, the readback present, and the revision and the effect of the completion; no
  -- evidence before it has a higher revision, and no other record of the trace is a completion.
  pub completions_are_proved :
      (trace : Fields) (elements : Items) (before after : List Fields) (r : Fields)
      → validate_trace sha256 trace ≡ ok []
      → get "records" trace ≡ array elements
      → items elements ≡ map object (before ++ r ∷ after)
      → is_completion r ≡ true
      → ProvedCompletion before after r
  unfolding evidence_of
  completions_are_proved trace elements before after r accepted found objects kind =
      let a = validate_trace-Accepted sha256 trace accepted in
      let (s, t, first, step, last) =
        Step-at sha256 trace a elements before after r found objects in
      completion-Step sha256 (scope_of a.scope) before after r s t a.final
        (Steps-Filed sha256 (scope_of a.scope) [] first
          (record { by_id = λ id e h. absurd (nothing_filed id e h); history = refl }))
        (λ none_yet. (Steps-uncounted sha256 (scope_of a.scope) first none_yet).1) last step kind
