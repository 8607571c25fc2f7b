-- ===== src/TraceIntegrity/Places.antt =====
-- A record of an accepted trace: the run of the loop up to it, its step, and the run behind it.
use coding_agent_reliability.Base.{
  ℕ, ◌≡◌, refl, sym, ◌∙◌, ap, true, List, [], ◌∷◌, ◌++◌, append_assoc, append-nil, subst, String,
  string_eq, text_pair_eq, nat_eq, int_eq, arith, ℤ, ◌<ℤ◌, Increasing, map, contains,
}
use coding_agent_reliability.Base.Document.{array, object, Items, items, Fields, get}
use coding_agent_reliability.TraceIntegrity.Progress.{TraceScope, TraceProgress, valid_sequence}
use coding_agent_reliability.TraceIntegrity.Validator.{scope_of, initial_progress}
use coding_agent_reliability.TraceIntegrity.Steps.{
  Outcome, as_event, as_checkpoint, as_approval, as_effect, as_evidence, as_completion,
}
use coding_agent_reliability.TraceIntegrity.Runs.{Step, Steps, done, next}
use coding_agent_reliability.TraceIntegrity.Accepted.{Accepted}

-- The sequence numbers of records.
unfoldable pub sequences_of : List Fields → List ℤ
sequences_of [] = []
sequences_of (r ∷ rs) = valid_sequence (get "sequence" r) ++ sequences_of rs

-- An increasing list: what stands before a number is below it.
pub Increasing-before :
    (d n : ℤ) (xs ys : List ℤ) → Increasing (xs ++ n ∷ ys) → contains d xs ≡ true → d <ℤ n
unfolding contains
Increasing-before d n [] ys i h = cc
Increasing-before d n (x ∷ []) ys i h = ground arith
Increasing-before d n (x ∷ y ∷ xs) ys i h =
    ground (arith, Increasing-before d n (y ∷ xs) ys i.1, Increasing-before y n (y ∷ xs) ys i.1)

object-injective : (xs ys : List Fields) → map object xs ≡ map object ys → xs ≡ ys
object-injective [] [] h = refl
object-injective [] (y ∷ ys) h = cc
object-injective (x ∷ xs) [] h = cc
object-injective (x ∷ xs) (y ∷ ys) h = ground (arith, object-injective xs ys)

module _ (sha256 : List ℕ → String) (scope : TraceScope) where
  pub outcome_sequences :
      (r : Fields) (s t : TraceProgress)
      → Outcome sha256 scope r s t
      → t.sequences ≡ s.sequences ++ valid_sequence (get "sequence" r)
  outcome_sequences r s t (as_event _ _ _ e) = ap (λ (x : TraceProgress). x.sequences) e
  outcome_sequences r s t (as_checkpoint _ _ e) = ap (λ (x : TraceProgress). x.sequences) e
  outcome_sequences r s t (as_approval _ _ _ _ _ e) =
      ap (λ (x : TraceProgress). x.sequences) e ∙ ground arith
  outcome_sequences r s t (as_effect _ _ _ _ _ e) = ap (λ (x : TraceProgress). x.sequences) e
  outcome_sequences r s t (as_evidence _ _ _ _ _ _ e) = ap (λ (x : TraceProgress). x.sequences) e
  outcome_sequences r s t (as_completion _ _ _ _ _ _ e) = ap (λ (x : TraceProgress). x.sequences) e

  pub Steps-sequences :
      {rs : List Fields} {s u : TraceProgress}
      → Steps sha256 scope rs s u
      → u.sequences ≡ s.sequences ++ sequences_of rs
  unfolding sequences_of
  Steps-sequences {s} done = sym (append-nil s.sequences)
  Steps-sequences {u} (next {r} {rs} {s} {t} step steps) =
      Steps-sequences steps
      ∙ ap (λ x. x ++ sequences_of rs) (outcome_sequences r s t step.outcome)
      ∙ append_assoc s.sequences (valid_sequence (get "sequence" r)) (sequences_of rs)

  pub Steps-split :
      {s u : TraceProgress} (xs ys : List Fields)
      → Steps sha256 scope (xs ++ ys) s u
      → (t : TraceProgress) × Steps sha256 scope xs s t × Steps sha256 scope ys t u
  Steps-split {s} [] ys h = (s, done, h)
  Steps-split (x ∷ xs) ys (next step steps) =
      let (t, first, rest) = Steps-split xs ys steps in (t, next step first, rest)

  pub Steps-first :
      {r : Fields} {rs : List Fields} {s u : TraceProgress}
      → Steps sha256 scope (r ∷ rs) s u
      → (t : TraceProgress) × Step sha256 scope r s t × Steps sha256 scope rs t u
  Steps-first (next {t} step steps) = (t, step, steps)

array-injective : (xs ys : Items) → array xs ≡ array ys → xs ≡ ys
array-injective xs ys h = cc

module _ (sha256 : List ℕ → String) (trace : Fields) (a : Accepted sha256 trace) where
  -- The records of an accepted trace are those that it lists.
  pub listed_records :
      (elements : Items) (records : List Fields)
      → get "records" trace ≡ array elements
      → items elements ≡ map object records
      → a.records ≡ records
  listed_records elements records found objects = object-injective a.records records (
      sym a.objects
      ∙ ap items (array-injective a.elements elements (sym a.records_found ∙ found))
      ∙ objects)

  -- The run up to one of the records, its step, and the run behind it.
  pub Step-at :
      (elements : Items) (before after : List Fields) (r : Fields)
      → get "records" trace ≡ array elements
      → items elements ≡ map object (before ++ r ∷ after)
      → (s t : TraceProgress) × Steps sha256
          (scope_of a.scope)
          before
          (initial_progress (scope_of a.scope))
          s
        × Step sha256 (scope_of a.scope) r s t
        × Steps sha256 (scope_of a.scope) after t a.final
  Step-at elements before after r found objects =
      let all =
        subst
          (λ (x : List Fields).
            Steps sha256 (scope_of a.scope) x (initial_progress (scope_of a.scope)) a.final)
          (listed_records elements (before ++ r ∷ after) found objects) a.steps in
      let (s, first, rest) = Steps-split sha256 (scope_of a.scope) before (r ∷ after) all in
      let (t, step, last) = Steps-first sha256 (scope_of a.scope) rest in (s, t, first, step, last)
