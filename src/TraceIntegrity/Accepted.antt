-- ===== src/TraceIntegrity/Accepted.antt =====
-- What it means that the validator accepts a trace.
use coding_agent_reliability.Base.{
  ℕ, ◌≡◌, refl, string_eq, ==-eq, Bool-cases, Bool, true, false, not, List, [], ◌∷◌, map, String,
  arith, nat_eq, ok, none, inl, inr, length, contains, dedup, Increasing, Bool-cases, ==-eq,
}
use coding_agent_reliability.Base.Messages.{++-nothing}
use coding_agent_reliability.Base.Document.{
  Json, null, bool, int, text, array, object, Items, Fields, items, get,
}
use coding_agent_reliability.Base.Errors.{>>=-eq-ok, ok-injective}
use coding_agent_reliability.Base.Order.{is_unique_increasing_iff}
use coding_agent_reliability.Base.Sorting.{insert_text, sorted_texts}
use coding_agent_reliability.TraceIntegrity.Progress.{TraceProgress}
use coding_agent_reliability.TraceIntegrity.Loop.{handle_records}
use coding_agent_reliability.TraceIntegrity.Validator.{
  scope_of, scope_violations, initial_progress, final_violations, checkpoint_violations,
  validate_records, validate_trace,
}
use coding_agent_reliability.TraceIntegrity.Clean.{when_nil}
use coding_agent_reliability.TraceIntegrity.Runs.{Steps, handle_records_steps}

insert_text-nonempty : (v : String) (ws : List String) → insert_text v ws ≡ [] → ⊥
unfolding insert_text
insert_text-nonempty v [] h = cc
insert_text-nonempty v (w ∷ ws) h = ground arith

sorted_texts-nil : (vs : List String) → sorted_texts vs ≡ [] → vs ≡ []
unfolding sorted_texts
sorted_texts-nil [] h = refl
sorted_texts-nil (v ∷ vs) h = absurd (insert_text-nonempty v (sorted_texts vs) h)

dedup-nil : (vs : List String) → dedup vs ≡ [] → vs ≡ []
unfolding dedup contains
dedup-nil [] h = refl
dedup-nil (v ∷ vs) h = elim (Bool-cases (contains v vs)) [
  | inl old ↦ absurd (held vs old (dedup-nil vs (rw old at h)))
  | inr new ↦ absurd (more (rw new at h))
]
  where
    held : (vs : List String) → contains v vs ≡ true → vs ≡ [] → ⊥
    held [] old e = cc
    held (w ∷ ws) old e = cc

    more : v ∷ dedup vs ≡ [] → ⊥
    more e = cc

module _ (sha256 : List ℕ → String) where
  pub record Accepted (trace : Fields) : Type 0 where
    pub scope : Fields
    pub records : List Fields
    pub elements : Items
    pub final : TraceProgress
    pub scope_found : get "scope" trace ≡ object scope
    pub records_found : get "records" trace ≡ array elements
    pub objects : items elements ≡ map object records
    pub scope_valid : scope_violations (scope_of scope) ≡ []
    pub steps : Steps sha256 (scope_of scope) records (initial_progress (scope_of scope)) final
    pub increasing : Increasing final.sequences
    pub distinct : length final.record_ids ≡ length (dedup final.record_ids)
    pub lineage : checkpoint_violations none final.checkpoints ≡ []

  validate_accepts :
      (trace scope : Fields) (elements : Items) (s : TraceProgress)
      → get "scope" trace ≡ object scope
      → get "records" trace ≡ array elements
      → handle_records sha256
          (scope_of scope)
          0
          (items elements)
          (initial_progress (scope_of scope))
        ≡ ok s
      → sorted_texts (dedup (final_violations s)) ≡ []
      → Accepted trace
  unfolding final_violations
  validate_accepts trace scope elements s found listed ran none_left =
      let nothing =
        dedup-nil (final_violations s) (sorted_texts-nil (dedup (final_violations s)) none_left) in
      let (loop, rest) = ++-nothing s.violations _ nothing in
      let (increasing, rest) = ++-nothing _ _ rest in
      let (distinct, lineage) = ++-nothing _ _ rest in
      let (records, objects, steps, scoped) =
        handle_records_steps sha256 (scope_of scope) 0 (items elements)
          (initial_progress (scope_of scope)) s ran loop in
      record {
        scope = scope;
        records = records;
        elements = elements;
        final = s;
        scope_found = found;
        records_found = listed;
        objects = objects;
        scope_valid = scoped;
        steps = steps;
        increasing = (is_unique_increasing_iff s.sequences).0 (passed (when_nil _ _ increasing));
        distinct = ==-eq _ _ (passed (when_nil _ _ distinct));
        lineage = lineage;
      }
    where
      passed : {b : Bool} → not b ≡ false → b ≡ true
      passed {b} e = ground arith

  by_parts :
      (trace : Fields) (sc rs : Json)
      → get "scope" trace ≡ sc
      → get "records" trace ≡ rs
      → validate_records sha256 sc rs ≡ ok []
      → Accepted trace
  unfolding validate_records
  by_parts trace (object scope) (array elements) found listed h =
      let (s, ran, sorted_) =
        >>=-eq-ok
          (handle_records sha256 (scope_of scope) 0 (items elements)
            (initial_progress (scope_of scope)))
          _ h in
      validate_accepts trace scope elements s found listed ran (ok-injective sorted_)
  by_parts trace (object scope) null found listed h = cc
  by_parts trace (object scope) (bool b) found listed h = cc
  by_parts trace (object scope) (int n) found listed h = cc
  by_parts trace (object scope) (text t) found listed h = cc
  by_parts trace (object scope) (object fs) found listed h = cc
  by_parts trace _ rs found listed h = cc

  pub validate_trace-Accepted :
      (trace : Fields) → validate_trace sha256 trace ≡ ok [] → Accepted trace
  unfolding validate_trace
  validate_trace-Accepted trace h =
      by_parts trace (get "scope" trace) (get "records" trace) refl refl h
