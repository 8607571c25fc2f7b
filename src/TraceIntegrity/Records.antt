-- ===== src/TraceIntegrity/Records.antt =====
-- Two records of an accepted trace: their sequence numbers and their ids.
use coding_agent_reliability.Base.{
  ℕ, ◌≡◌, ◌≢◌, refl, sym, ◌∙◌, ap, subst, false, List, [], ◌∷◌, ◌++◌, append_assoc, append-nil,
  String, string_eq, ◌==◌, ==_refl, arith, int_eq, ℤ, ◌<ℤ◌, Increasing, map, contains,
  contains-append, dedup, dedup_apart, length, ok,
}
use coding_agent_reliability.Base.Document.{
  Json, int, text, array, object, Items, items, Fields, get,
}
use coding_agent_reliability.TraceIntegrity.Progress.{
  when, is_nothing, TraceScope, TraceProgress, valid_id, valid_sequence, identity_violations,
}
use coding_agent_reliability.TraceIntegrity.Validator.{validate_trace, scope_of}
use coding_agent_reliability.TraceIntegrity.Steps.{
  Outcome, as_event, as_checkpoint, as_approval, as_effect, as_evidence, as_completion,
}
use coding_agent_reliability.TraceIntegrity.Runs.{Step, Steps, done, next}
use coding_agent_reliability.TraceIntegrity.Accepted.{validate_trace-Accepted}
use coding_agent_reliability.TraceIntegrity.Authority.{sequence_of}
use coding_agent_reliability.TraceIntegrity.Places.{
  Increasing-before, sequences_of, outcome_sequences, Steps-sequences, Steps-split, Steps-first,
  Step-at,
}

-- The ids of records.
unfoldable ids_of : List Fields → List String
ids_of [] = []
ids_of (r ∷ rs) = valid_id (get "record_id" r) ++ ids_of rs

-- A record that passes the first tests has an id.
id_of :
    (r : Fields)
    → identity_violations r ≡ []
    → (t : String) × (get "record_id" r ≡ text t) × (valid_id (get "record_id" r) ≡ t ∷ [])
id_of r h = by_value (get "record_id" r) (tested h)
  where
    tested : identity_violations r ≡ [] → when (is_nothing (valid_id (get "record_id" r))) "x" ≡ []
    tested e = ground arith

    by_value :
        (v : Json)
        → when (is_nothing (valid_id v)) "x" ≡ []
        → (t : String) × (v ≡ text t) × (valid_id v ≡ t ∷ [])
    by_value (text t) e = (t, refl, ground arith)
    by_value _ e = cc

module _ (sha256 : List ℕ → String) (scope : TraceScope) where
  outcome_ids :
      (r : Fields) (s t : TraceProgress)
      → Outcome sha256 scope r s t
      → t.record_ids ≡ s.record_ids ++ valid_id (get "record_id" r)
  outcome_ids r s t (as_event _ _ _ e) = ap (λ (x : TraceProgress). x.record_ids) e
  outcome_ids r s t (as_checkpoint _ _ e) = ap (λ (x : TraceProgress). x.record_ids) e
  outcome_ids r s t (as_approval _ _ _ _ _ e) =
      ap (λ (x : TraceProgress). x.record_ids) e ∙ ground arith
  outcome_ids r s t (as_effect _ _ _ _ _ e) = ap (λ (x : TraceProgress). x.record_ids) e
  outcome_ids r s t (as_evidence _ _ _ _ _ _ e) = ap (λ (x : TraceProgress). x.record_ids) e
  outcome_ids r s t (as_completion _ _ _ _ _ _ e) = ap (λ (x : TraceProgress). x.record_ids) e

  Steps-ids :
      {rs : List Fields} {s u : TraceProgress}
      → Steps sha256 scope rs s u
      → u.record_ids ≡ s.record_ids ++ ids_of rs
  unfolding ids_of
  Steps-ids {s} done = sym (append-nil s.record_ids)
  Steps-ids {u} (next {r} {rs} {s} {t} step steps) =
      Steps-ids steps
      ∙ ap (λ x. x ++ ids_of rs) (outcome_ids r s t step.outcome)
      ∙ append_assoc s.record_ids (valid_id (get "record_id" r)) (ids_of rs)

-- The first record has the lower sequence number, and another id.
pub record IsEarlier (r q : Fields) : Type 0 where
  pub first_sequence : ℤ
  pub second_sequence : ℤ
  pub first_is : get "sequence" r ≡ int first_sequence
  pub second_is : get "sequence" q ≡ int second_sequence
  pub lower : first_sequence <ℤ second_sequence
  pub first_id : String
  pub second_id : String
  pub first_named : get "record_id" r ≡ text first_id
  pub second_named : get "record_id" q ≡ text second_id
  pub apart : first_id ≢ second_id

-- Four extensions of a list, of which the first and the third add one element.
chained {ℓ} :
    {A : Type ℓ} {x y t v w u : List A} (s b z : List A) (m n : A)
    → x ≡ m ∷ []
    → y ≡ n ∷ []
    → t ≡ s ++ x
    → v ≡ t ++ b
    → w ≡ v ++ y
    → u ≡ w ++ z
    → u ≡ s ++ m ∷ (b ++ n ∷ z)
chained s b z m n one other first second third fourth =
    rw (fourth, third, second, first, one, other)
      (append_assoc ((s ++ m ∷ []) ++ b) (n ∷ []) z
        ∙ append_assoc (s ++ m ∷ []) b (n ∷ z)
        ∙ append_assoc s (m ∷ []) (b ++ n ∷ z))

split_increasing : (xs ys zs : List ℤ) (m n : ℤ) → Increasing (xs ++ m ∷ (ys ++ n ∷ zs)) → m <ℤ n
unfolding contains
split_increasing xs ys zs m n h =
    Increasing-before m n (xs ++ m ∷ ys) zs
      (subst Increasing (sym (append_assoc xs (m ∷ ys) (n ∷ zs))) h)
      (contains-append m xs (m ∷ ys) ∙ ground (arith, ==_refl m))

other_id : (i j : String) → (j == i) ≡ false → i ≢ j
other_id i j h e = ground (arith, h, e)

module _ (sha256 : List ℕ → String) (scope : TraceScope) where
  -- The numbers and the ids that two records and those between and after them add to a state.
  all_sequences :
      (between after : List Fields) (r q : Fields) (s t v w u : TraceProgress) (m n : ℤ)
      → Step sha256 scope r s t
      → Steps sha256 scope between t v
      → Step sha256 scope q v w
      → Steps sha256 scope after w u
      → valid_sequence (get "sequence" r) ≡ m ∷ []
      → valid_sequence (get "sequence" q) ≡ n ∷ []
      → u.sequences ≡ s.sequences ++ m ∷ (sequences_of between ++ n ∷ sequences_of after)
  all_sequences between after r q s t v w u m n first middle second last a b =
      chained s.sequences (sequences_of between) (sequences_of after) m n a b
        (outcome_sequences sha256 scope r s t first.outcome) (Steps-sequences sha256 scope middle)
        (outcome_sequences sha256 scope q v w second.outcome) (Steps-sequences sha256 scope last)

  all_ids :
      (between after : List Fields) (r q : Fields) (s t v w u : TraceProgress) (i j : String)
      → Step sha256 scope r s t
      → Steps sha256 scope between t v
      → Step sha256 scope q v w
      → Steps sha256 scope after w u
      → valid_id (get "record_id" r) ≡ i ∷ []
      → valid_id (get "record_id" q) ≡ j ∷ []
      → u.record_ids ≡ s.record_ids ++ i ∷ (ids_of between ++ j ∷ ids_of after)
  all_ids between after r q s t v w u i j first middle second last a b =
      chained s.record_ids (ids_of between) (ids_of after) i j a b
        (outcome_ids sha256 scope r s t first.outcome) (Steps-ids sha256 scope middle)
        (outcome_ids sha256 scope q v w second.outcome) (Steps-ids sha256 scope last)

  earlier :
      (between after : List Fields) (r q : Fields) (s t v w u : TraceProgress)
      → Step sha256 scope r s t
      → Steps sha256 scope between t v
      → Step sha256 scope q v w
      → Steps sha256 scope after w u
      → Increasing u.sequences
      → length u.record_ids ≡ length (dedup u.record_ids)
      → IsEarlier r q
  earlier between after r q s t v w u first middle second last increasing distinct =
      let (m, first_is, first_valid) = sequence_of r first.identity in
      let (n, second_is, second_valid) = sequence_of q second.identity in
      let (i, first_named, first_full) = id_of r first.identity in
      let (j, second_named, second_full) = id_of q second.identity in
      record {
        first_sequence = m;
        second_sequence = n;
        first_is = first_is;
        second_is = second_is;
        lower = split_increasing s.sequences (sequences_of between) (sequences_of after) m n (
            subst Increasing
              (all_sequences between after r q s t v w u m n first middle second last first_valid
                second_valid)
              increasing);
        first_id = i;
        second_id = j;
        first_named = first_named;
        second_named = second_named;
        apart = other_id i j (
            dedup_apart s.record_ids i (ids_of between) j (ids_of after) (
              subst (λ (x : List String). length x ≡ length (dedup x))
                (all_ids between after r q s t v w u i j first middle second last first_full
                  second_full)
                distinct));
      }

module _ (sha256 : List ℕ → String) where
  -- In a trace that the validator accepts, of any two records the first has the lower sequence number,
  -- and they have different record ids.
  pub records_are_ordered :
      (trace : Fields) (elements : Items) (before between after : List Fields) (r q : Fields)
      → validate_trace sha256 trace ≡ ok []
      → get "records" trace ≡ array elements
      → items elements ≡ map object (before ++ r ∷ (between ++ q ∷ after))
      → IsEarlier r q
  records_are_ordered trace elements before between after r q accepted found objects =
      let a = validate_trace-Accepted sha256 trace accepted in
      let (s, t, start, first, rest) =
        Step-at sha256 trace a elements before (between ++ q ∷ after) r found objects in
      let (v, middle, rest) = Steps-split sha256 (scope_of a.scope) between (q ∷ after) rest in
      let (w, second, last) = Steps-first sha256 (scope_of a.scope) rest in
      earlier sha256 (scope_of a.scope) between after r q s t v w a.final first middle second last
        a.increasing a.distinct
