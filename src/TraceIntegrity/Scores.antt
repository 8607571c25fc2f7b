-- ===== src/TraceIntegrity/Scores.antt =====
-- What the scores of a corpus say of its traces and mutations.
use coding_agent_reliability.Base.{
  ℕ, ◌≡◌, ◌≢◌, ◌↔◌, refl, sym, ◌∙◌, ap, Bool, true, not, List, [], ◌∷◌, String, arith, Result, ok,
  All, traverse, traverse-cons, Bool-cases, inl, inr,
}
use coding_agent_reliability.Base.Document.{Json, array, object, Items, items, Fields, get, find}
use coding_agent_reliability.Base.Errors.{>>=-eq-ok, ok-injective}
use coding_agent_reliability.TraceIntegrity.Progress.{is_nothing}
use coding_agent_reliability.TraceIntegrity.Mutation.{apply_mutation}
use coding_agent_reliability.TraceIntegrity.Validator.{validate_trace}
use coding_agent_reliability.TraceIntegrity.Corpus.{
  found, hashed, trace_entry, clean_result, base_trace, mutation_result, CleanResult,
  MutationResult, CorpusReport, count_failures, accepts, detects, corpus_report, evaluate_lists,
  evaluate_trace_corpus,
}

count_failures_iff {ℓ} :
    {A : Type ℓ} (test : A → Bool) (xs : List A)
    → (count_failures test xs ≡ 0) ↔ All (λ x. test x ≡ true) xs
unfolding count_failures
count_failures_iff test [] = (λ h. tt, λ h. refl)
count_failures_iff test (x ∷ xs) =
    let both = count_failures_iff test xs in
    elim (Bool-cases (test x)) [
      | inl passed ↦ rw passed (λ h. (refl, both.0 h), λ h. both.1 h.1)
      | inr failed ↦ rw failed (λ h. absurd (omega arith), λ h. absurd (ground arith))
    ]

-- What holds of the results exactly if something holds of the inputs.
All-traverse {ℓ κ ι} :
    {A : Type ℓ} {B : Type κ} (f : A → Result B) (P : A → Type ι) (Q : B → Type ι)
    → ((x : A) (y : B) → f x ≡ ok y → P x ↔ Q y)
    → (xs : List A) (ys : List B) → traverse f xs ≡ ok ys
    → All P xs ↔ All Q ys
unfolding traverse
All-traverse f P Q same [] ys h = let e : [] ≡ ys = cc in rw (← e) (λ h. tt, λ h. tt)
All-traverse f P Q same (x ∷ xs) ys h =
    let (z, zs, first, rest, e) = traverse-cons f x xs h in
    let both = All-traverse f P Q same xs zs rest in
    let here = same x z first in rw e (λ h. (here.0 h.0, both.0 h.1), λ h. (here.1 h.0, both.1 h.1))

trans_iff {ℓ κ ι} : {A : Type ℓ} {B : Type κ} {C : Type ι} → A ↔ B → B ↔ C → A ↔ C
trans_iff f g = (λ a. g.0 (f.0 a), λ c. f.1 (g.1 c))

swap_iff {ℓ κ} : {A : Type ℓ} {B : Type κ} → A ↔ B → B ↔ A
swap_iff f = (f.1, f.0)

nothing_iff : (vs : List String) → (is_nothing vs ≡ true) ↔ (vs ≡ [])
nothing_iff [] = (λ h. refl, λ h. refl)
nothing_iff (v ∷ vs) = (λ h. cc, λ h. cc)

something_iff : (vs : List String) → (vs ≢ []) ↔ (not (is_nothing vs) ≡ true)
something_iff [] = (λ h. absurd (h refl), λ h. cc)
something_iff (v ∷ vs) = (λ h. refl, λ h e. cc)

object-injective : {x y : Fields} → object x ≡ object y → x ≡ y
object-injective same = cc

module _ (sha256 : List ℕ → String) where
  -- The value is a trace that the validator accepts.
  abbrev pub IsAcceptedTrace : Json → Type 0
  IsAcceptedTrace v = (trace : Fields) × (v ≡ object trace) × (validate_trace sha256 trace ≡ ok [])

  -- The value is a mutation that makes the validator reject the trace that it starts from.
  pub record IsDetected (entries : List (Json × Fields)) (v : Json) : Type 0 where
    pub mutation : Fields
    pub base : Fields
    pub mutated : Fields
    pub violations : List String
    pub is_mutation : v ≡ object mutation
    pub has_base : base_trace entries mutation ≡ ok base
    pub applied : apply_mutation base mutation ≡ ok mutated
    pub validated : validate_trace sha256 mutated ≡ ok violations
    pub rejected : violations ≢ []

  clean_result_iff :
      (e : Json × Fields) (r : CleanResult)
      → clean_result sha256 e ≡ ok r
      → (validate_trace sha256 e.1 ≡ ok []) ↔ (accepts r ≡ true)
  unfolding clean_result
  clean_result_iff (id, trace) r h =
      let (violations, valid, same) = >>=-eq-ok (validate_trace sha256 trace) _ h in
      rw (← ok-injective same, valid)
        (
          λ none_found. (nothing_iff violations).1 (ok-injective none_found),
          λ accepted. ap ok ((nothing_iff violations).0 accepted),
        )

  trace_entry_iff :
      (v : Json) (e : Json × Fields)
      → trace_entry v ≡ ok e
      → IsAcceptedTrace v ↔ (validate_trace sha256 e.1 ≡ ok [])
  unfolding trace_entry
  trace_entry_iff (object trace) e h =
      let (id, has_id, rest) = >>=-eq-ok (found (find "trace_id" trace)) _ h in
      let (key, is_key, same) = >>=-eq-ok (hashed id) _ rest in
      let is_e : (key, trace) ≡ e = ok-injective same in
      rw (← is_e) (
        λ accepted. rw (object-injective accepted.1) accepted.2,
        λ accepted. (trace, refl, accepted),
      )
  trace_entry_iff _ e h = cc

  -- What a detected mutation raises is what the validator raises for it.
  same_violations :
      (entries : List (Json × Fields)) (m base mutated : Fields) (violations : List String)
      → base_trace entries m ≡ ok base
      → apply_mutation base m ≡ ok mutated
      → validate_trace sha256 mutated ≡ ok violations
      → (d : IsDetected entries (object m)) → d.violations ≡ violations
  same_violations entries m base mutated violations based applied valid d =
      let same_mutation = object-injective d.is_mutation in
      let same_base = ok-injective (sym (rw (← same_mutation) at d.has_base) ∙ based) in
      let same_mutated =
        ok-injective (sym (rw (← same_mutation, same_base) at d.applied) ∙ applied) in
      ok-injective (sym (rw same_mutated at d.validated) ∙ valid)

  mutation_result_iff :
      (entries : List (Json × Fields)) (v : Json) (r : MutationResult)
      → mutation_result sha256 entries v ≡ ok r
      → IsDetected entries v ↔ (detects r ≡ true)
  unfolding mutation_result
  mutation_result_iff entries (object m) r h =
      let (base, based, rest) = >>=-eq-ok (base_trace entries m) _ h in
      let (mutated, applied, rest) = >>=-eq-ok (apply_mutation base m) _ rest in
      let (violations, valid, rest) = >>=-eq-ok (validate_trace sha256 mutated) _ rest in
      let (id, has_id, same) = >>=-eq-ok (found (find "id" m)) _ rest in
      let is_r : record {
        mutation_id = id;
        detected = not (is_nothing violations);
        violations = violations;
      }
          ≡ r =
        ok-injective same in
      rw (← is_r) (
        λ detected. (something_iff violations).0 (
            rw (same_violations entries m base mutated violations based applied valid detected) at
              detected.rejected),
        λ counted. record {
          mutation = m;
          base = base;
          mutated = mutated;
          violations = violations;
          is_mutation = refl;
          has_base = based;
          applied = applied;
          validated = valid;
          rejected = (something_iff violations).1 counted;
        },
      )
  mutation_result_iff entries _ r h = cc

  corpus_report_counts :
      (clean : List CleanResult) (mutated : List MutationResult) (r : CorpusReport)
      → corpus_report clean mutated ≡ ok r
      → (r.metrics.false_positive_count ≡ count_failures accepts clean)
        × (r.metrics.false_negative_count ≡ count_failures detects mutated)
  unfolding corpus_report
  corpus_report_counts [] mutated r h = cc
  corpus_report_counts (c ∷ clean) [] r h = cc
  corpus_report_counts (c ∷ clean) (m ∷ mutated) r h = (
    ap (λ x. x.metrics.false_positive_count) (sym (ok-injective h)),
    ap (λ x. x.metrics.false_negative_count) (sym (ok-injective h)),
  )

  -- When the evaluation of a corpus returns, it reports no false positive exactly if the validator
  -- accepts every baseline trace, and no false negative exactly if every mutation makes the validator
  -- reject the trace that it starts from.
  pub scores_are_exact :
      (baseline mutation_document : Fields) (traces mutations : Items) (r : CorpusReport)
      → get "traces" baseline ≡ array traces
      → get "mutations" mutation_document ≡ array mutations
      → evaluate_trace_corpus sha256 baseline mutation_document ≡ ok r
      → (entries : List (Json × Fields)) × (traverse trace_entry (items traces) ≡ ok entries)
        × ((r.metrics.false_positive_count ≡ 0) ↔ All IsAcceptedTrace (items traces))
        × ((r.metrics.false_negative_count ≡ 0) ↔ All (IsDetected entries) (items mutations))
  unfolding evaluate_trace_corpus evaluate_lists
  scores_are_exact baseline mutation_document traces mutations r has_traces has_mutations h =
      let (entries, read, rest) =
        >>=-eq-ok (traverse trace_entry (items traces)) _ (rw (has_traces, has_mutations) at h) in
      let (clean, checked, rest) = >>=-eq-ok (traverse (clean_result sha256) entries) _ rest in
      let (mutated, tried, reported) =
        >>=-eq-ok (traverse (mutation_result sha256 entries) (items mutations)) _ rest in
      let (positives, negatives) = corpus_report_counts clean mutated r reported in
      (
        entries,
        read,
        rw positives (
            trans_iff (count_failures_iff accepts clean) (
              swap_iff (
                trans_iff (All-traverse trace_entry _ _ trace_entry_iff (items traces) entries read)
                  (All-traverse (clean_result sha256) _ _ clean_result_iff entries clean
                    checked)))),
        rw negatives (
            trans_iff (count_failures_iff detects mutated) (
              swap_iff (
                All-traverse (mutation_result sha256 entries) _ _ (mutation_result_iff entries)
                  (items mutations) mutated tried))),
      )
