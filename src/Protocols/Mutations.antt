-- ===== src/Protocols/Mutations.antt =====
-- What the verifier of the trace protocol establishes of the mutations.
use coding_agent_reliability.Base.{
  ◌≡◌, refl, sym, ◌∙◌, ap, Bool, true, false, not, Option, none, some, List, [], ◌∷◌, String,
  texts_eq, ==-eq, subst, Result, ok, err, if◌then◌else◌,
}
use coding_agent_reliability.Base.Errors.{some-injective, >>=-eq-ok, ok-injective}
use coding_agent_reliability.Base.Messages.{gather-nothing, ++-nothing, unless-nothing}
use coding_agent_reliability.Base.Document.{
  Json, array, object, Items, Fields, get, items, json_eq, member,
}
use coding_agent_reliability.TraceIntegrity.Mutation.{apply_mutation}
use coding_agent_reliability.TraceIntegrity.Corpus.{hashed, index_traces, find_trace}
use coding_agent_reliability.Protocols.{texts_under}
use coding_agent_reliability.Protocols.Traces.{
  expected_mutation_ids, expected_baseline_ids, listed, is_array, baseline_entries, found_or_none,
  is_caught, item_message, applied_errors, base_errors, item_errors, mutation_errors,
  document_errors, validate,
}

-- A mutation that applies to a baseline trace and changes it.
pub record IsEffective (entries : List (Json × Fields)) (v : Json) : Type 0 where
  pub item : Fields
  pub base : Fields
  pub mutated : Fields
  pub is_item : v ≡ object item
  pub based : find_trace (get "base_trace_id" item) (index_traces entries) ≡ ok base
  pub applied : apply_mutation base item ≡ ok mutated
  pub changed : json_eq (object mutated) (object base) ≡ false

pub AllEffective : List (Json × Fields) → List Json → Type 0
AllEffective entries [] = Unit
AllEffective entries (v ∷ vs) = IsEffective entries v × AllEffective entries vs

found_or_none-some : (r : Result Fields) (base : Fields) → found_or_none r ≡ some base → r ≡ ok base
found_or_none-some (ok b) base h = ap ok (some-injective h)
found_or_none-some (err e) base h = cc

hashed_same : (v key : Json) → hashed v ≡ ok key → key ≡ v
unfolding hashed
hashed_same (array vs) key h = cc
hashed_same (object fs) key h = cc
hashed_same _ key h = sym (ok-injective h)

module _ (repr : Json → String) where
  applied_errors-nothing :
      (item base : Fields) (r : Result Fields)
      → applied_errors repr item base r ≡ ok []
      → (mutated : Fields) × (r ≡ ok mutated) × (json_eq (object mutated) (object base) ≡ false)
  applied_errors-nothing item base (ok mutated) h =
      (mutated, refl, unchanged (json_eq (object mutated) (object base)) (ok-injective h))
    where
      unchanged :
          (b : Bool)
          → (if b then item_message repr "mutation produced no structural change" item else []) ≡ []
          → b ≡ false
      unchanged true h = cc
      unchanged false h = refl
  applied_errors-nothing item base (err error) h = caught (is_caught error) h
    where
      caught :
          {P : Type 0} (b : Bool)
          → (if b
              then ok (item_message repr "mutation cannot be applied deterministically" item)
              else err error)
            ≡ ok []
          → P
      caught true h = let e = ok-injective h in cc
      caught false h = cc

  item_errors-nothing :
      (entries : List (Json × Fields)) (item : Fields)
      → item_errors repr entries item ≡ ok []
      → IsEffective entries (object item)
  unfolding item_errors
  item_errors-nothing entries item h =
      let (supported, has_operator, rest) =
        >>=-eq-ok (member ("replace" ∷ "remove" ∷ []) (get "operator" item)) _ h in
      let rest = on_supported supported rest in
      let (key, is_key, rest) = >>=-eq-ok (hashed (get "base_trace_id" item)) _ rest in
      let (base, found, rest) =
        on_base (found_or_none (find_trace key (index_traces entries))) rest in
      let (mutated, applied, changed) =
        applied_errors-nothing item base (apply_mutation base item) rest in
      record {
        item = item;
        base = base;
        mutated = mutated;
        is_item = refl;
        based =
            ap (λ k. find_trace k (index_traces entries)) (sym (hashed_same _ key is_key))
            ∙ found_or_none-some _ base found;
        applied = applied;
        changed = changed;
      }
    where
      on_supported :
          {r : Result (List String)} (b : Bool)
          → (if not b then ok (item_message repr "unsupported mutation operator" item) else r)
            ≡ ok []
          → r ≡ ok []
      on_supported true h = h
      on_supported false h = let e = ok-injective h in cc

      on_base :
          (o : Option Fields)
          → base_errors repr item o ≡ ok []
          → (base : Fields) × (o ≡ some base)
            × (applied_errors repr item base (apply_mutation base item) ≡ ok [])
      on_base none h = let e = ok-injective h in cc
      on_base (some base) h = (base, refl, h)

  mutation_errors-nothing :
      (entries : List (Json × Fields)) (vs : List Json)
      → mutation_errors repr entries vs ≡ ok []
      → AllEffective entries vs
  unfolding mutation_errors AllEffective
  mutation_errors-nothing entries [] h = tt
  mutation_errors-nothing entries (object item ∷ vs) h =
      let (errors, own, rest) = >>=-eq-ok (item_errors repr entries item) _ h in
      let (others, all, same) = >>=-eq-ok (mutation_errors repr entries vs) _ rest in
      let (none_own, none_other) = ++-nothing errors others (ok-injective same) in
      (
        item_errors-nothing entries item (own ∙ ap ok none_own),
        mutation_errors-nothing entries vs (all ∙ ap ok none_other),
      )
  mutation_errors-nothing entries (_ ∷ vs) h =
      let (others, all, same) = >>=-eq-ok (mutation_errors repr entries vs) _ h in
      let e = ok-injective same in cc

  -- What a protocol without errors says of its corpus.
  pub record IsFrozenCorpus (baselines mutations : Fields) : Type 0 where
    pub traces : Items
    pub corpus : Items
    pub entries : List (Json × Fields)
    pub has_traces : get "traces" baselines ≡ array traces
    pub has_corpus : get "mutations" mutations ≡ array corpus
    pub trace_ids : texts_under repr "trace_id" (items traces) ≡ expected_baseline_ids
    pub mutation_ids : texts_under repr "id" (items corpus) ≡ expected_mutation_ids
    pub indexed : baseline_entries (items traces) ≡ ok entries
    pub each : AllEffective entries (items corpus)

  document_errors-nothing :
      (protocol schema baselines mutations : Fields) (results_exist : Bool)
      → document_errors repr protocol schema baselines mutations results_exist ≡ []
      → (is_array (get "traces" baselines) ≡ true)
        × (is_array (get "mutations" mutations) ≡ true)
        × (texts_under repr "trace_id" (listed (get "traces" baselines)) ≡ expected_baseline_ids)
        × (texts_under repr "id" (listed (get "mutations" mutations)) ≡ expected_mutation_ids)
  unfolding document_errors
  document_errors-nothing protocol schema baselines mutations results_exist h =
      let (values, rest) = gather-nothing _ _ h in
      let (absent, rest) = gather-nothing _ _ rest in
      let (identities, rest) = gather-nothing _ _ rest in
      let (schema_version, rest) = gather-nothing _ _ rest in
      let (kinds, rest) = gather-nothing _ _ rest in
      let (version, rest) = gather-nothing _ _ rest in
      let (of_traces, rest) = gather-nothing _ _ rest in
      let (of_ids, rest) = gather-nothing _ _ rest in
      let (other_version, rest) = gather-nothing _ _ rest in
      let (of_corpus, rest) = gather-nothing _ _ rest in
      let (of_names, rest) = gather-nothing _ _ rest in
      (
        unless-nothing _ _ of_traces,
        unless-nothing _ _ of_corpus,
        ==-eq _ _ (unless-nothing _ _ of_ids),
        ==-eq _ _ (unless-nothing _ _ of_names),
      )

  is_array-array :
      (v : Json) → is_array v ≡ true → (vs : Items) × (v ≡ array vs) × (listed v ≡ items vs)
  is_array-array (array vs) h = (vs, refl, refl)
  is_array-array _ h = cc

  -- When `validate` of the trace protocol finds no error, the traces and the mutations are lists with
  -- the frozen ids in the frozen order, and each mutation applies to the trace that it names and
  -- changes it.
  pub validate-IsFrozenCorpus :
      (protocol schema baselines mutations : Fields) (results_exist : Bool)
      → validate repr protocol schema baselines mutations results_exist ≡ ok []
      → IsFrozenCorpus baselines mutations
  unfolding validate
  validate-IsFrozenCorpus protocol schema baselines mutations results_exist h =
      let (entries, indexed, rest) =
        >>=-eq-ok (baseline_entries (listed (get "traces" baselines))) _ h in
      let (others, checked, same) =
        >>=-eq-ok (mutation_errors repr entries (listed (get "mutations" mutations))) _ rest in
      let (no_errors, no_others) =
        ++-nothing (document_errors repr protocol schema baselines mutations results_exist) others
          (ok-injective same) in
      let (of_traces, of_corpus, trace_ids, mutation_ids) =
        document_errors-nothing protocol schema baselines mutations results_exist no_errors in
      let (traces, has_traces, are_traces) = is_array-array _ of_traces in
      let (corpus, has_corpus, are_corpus) = is_array-array _ of_corpus in
      record {
        traces = traces;
        corpus = corpus;
        entries = entries;
        has_traces = has_traces;
        has_corpus = has_corpus;
        trace_ids = ap (texts_under repr "trace_id") (sym are_traces) ∙ trace_ids;
        mutation_ids = ap (texts_under repr "id") (sym are_corpus) ∙ mutation_ids;
        indexed = ap baseline_entries (sym are_traces) ∙ indexed;
        each =
            subst (AllEffective entries) are_corpus
              (mutation_errors-nothing entries _ (checked ∙ ap ok no_others));
      }
