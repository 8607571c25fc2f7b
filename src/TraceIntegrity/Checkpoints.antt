-- ===== src/TraceIntegrity/Checkpoints.antt =====
-- The checkpoints of an accepted trace.
use coding_agent_reliability.Base.{
  ℕ, suc, ◌≡◌, refl, sym, ◌∙◌, ap, subst, Bool, true, false, Option, none, some, List, [], ◌∷◌,
  ◌++◌, append_assoc, append-nil, String, arith, String-discrete, ℤ, pos, ◌+ℤ◌, +ℤ_parts,
  eq_of_parts, ltb_ℤ, ◌≤ℤ◌, map, if◌then◌else◌, ok, int_eq,
}
use coding_agent_reliability.Base.Messages.{++-nothing}
use coding_agent_reliability.Base.Document.{
  Json, null, bool, int, text, array, object, Items, items, Fields, get, as_int, json_eq,
  json_eq-text, json_eq-int, is_null, is_full_text,
}
use coding_agent_reliability.TraceIntegrity.Progress.{is_sha256, TraceScope, TraceProgress}
use coding_agent_reliability.TraceIntegrity.Loop.{is_kind}
use coding_agent_reliability.TraceIntegrity.Validator.{
  validate_trace, scope_of, checkpoint_violations, field_violations, parent_violations, is_no_count,
  is_gap, is_rollback,
}
use coding_agent_reliability.TraceIntegrity.Steps.{
  Outcome, as_event, as_checkpoint, as_approval, as_effect, as_evidence, as_completion,
}
use coding_agent_reliability.TraceIntegrity.Runs.{Steps, done, next}
use coding_agent_reliability.TraceIntegrity.Accepted.{validate_trace-Accepted}
use coding_agent_reliability.TraceIntegrity.Authority.{other_kind, full_text, sha256_text}
use coding_agent_reliability.TraceIntegrity.Places.{listed_records}

abbrev is_checkpoint : Fields → Bool
is_checkpoint r = is_kind "checkpoint" r

-- The checkpoints among records.
unfoldable pub checkpoints_of : List Fields → List Fields
checkpoints_of [] = []
checkpoints_of (r ∷ rs) = if is_checkpoint r then r ∷ checkpoints_of rs else checkpoints_of rs

-- A checkpoint with its number, the plan, the id that it names as its parent's, and what is completed.
pub record IsNumbered (n : ℕ) (plan : String) (parent : Json) (least : ℤ) (c : Fields)
    : Type 0 where
  pub id : String
  pub completed : ℤ
  pub named : get "checkpoint_id" c ≡ text id
  pub number : as_int (get "checkpoint_sequence" c) ≡ some (pos n)
  pub same_plan : get "plan_sha256" c ≡ text plan
  pub of_parent : json_eq (get "parent_checkpoint_id" c) parent ≡ true
  pub completed_is : as_int (get "completed_count" c) ≡ some completed
  pub more : least ≤ℤ completed

-- Checkpoints numbered from n on, each the child of the one before, with one plan and without
-- progress lost.
abbrev pub Linear : ℕ → String → Json → ℤ → List Fields → Type 0
Linear n plan parent least [] = Unit
Linear n plan parent least (c ∷ cs) =
    (i : IsNumbered n plan parent least c) × Linear (suc n) plan (text i.id) i.completed cs

count_of : (v : Json) → is_no_count (as_int v) ≡ false → (n : ℤ) × (as_int v ≡ some n)
count_of v h = by_value (as_int v) h
  where
    by_value : (o : Option ℤ) → is_no_count o ≡ false → (n : ℤ) × (o ≡ some n)
    by_value none e = cc
    by_value (some n) e = (n, refl)

-- What the loop tests of each checkpoint.
tested_fields :
    (c : Fields)
    → field_violations c ≡ []
    → (is_full_text (get "checkpoint_id" c) ≡ true)
      × (is_no_count (as_int (get "checkpoint_sequence" c)) ≡ false)
      × (is_no_count (as_int (get "completed_count" c)) ≡ false)
      × (is_sha256 (get "plan_sha256" c) ≡ true)
tested_fields c h = ground arith

tested_root :
    (c : Fields)
    → parent_violations none c ≡ []
    → (is_null (get "parent_checkpoint_id" c) ≡ true)
      × (json_eq (get "checkpoint_sequence" c) (int (pos 0)) ≡ true)
tested_root c h = ground arith

tested_parent :
    (p c : Fields)
    → parent_violations (some p) c ≡ []
    → (json_eq (get "parent_checkpoint_id" c) (get "checkpoint_id" p) ≡ true)
      × (is_gap (get "checkpoint_sequence" c) (as_int (get "checkpoint_sequence" p)) ≡ false)
      × (json_eq (get "plan_sha256" c) (get "plan_sha256" p) ≡ true)
      × (is_rollback (as_int (get "completed_count" p)) (as_int (get "completed_count" c)) ≡ false)
tested_parent p c h = ground arith

following : (n : ℕ) → pos n +ℤ pos 1 ≡ pos (suc n)
following n = grind (arith, +ℤ_parts (pos n) (pos 1), eq_of_parts (pos n +ℤ pos 1) (pos (suc n)))

-- The number behind another one.
next_number : (v : Json) (n : ℕ) → is_gap v (some (pos n)) ≡ false → as_int v ≡ some (pos (suc n))
next_number v n h = json_eq-int v (pos n +ℤ pos 1) (tested h) ∙ ap some (following n)
  where
    tested : is_gap v (some (pos n)) ≡ false → json_eq v (int (pos n +ℤ pos 1)) ≡ true
    tested e = ground arith

not_less : (a b : Option ℤ) (m n : ℤ) → is_rollback a b ≡ false → a ≡ some m → b ≡ some n → m ≤ℤ n
not_less a b m n h e f = below (rw (e, f) at h)
  where
    below : ltb_ℤ n m ≡ false → m ≤ℤ n
    below k = ground arith

child_IsNumbered :
    (n : ℕ) (plan : String) (parent : Json) (least : ℤ) (p c : Fields)
    (i : IsNumbered n plan parent least p)
    → field_violations c ≡ []
    → parent_violations (some p) c ≡ []
    → IsNumbered (suc n) plan (text i.id) i.completed c
child_IsNumbered n plan parent least p c i fields parents =
    let (full_id, counted, completed_counted, digest) = tested_fields c fields in
    let (of_parent, no_gap, plan_same, no_rollback) = tested_parent p c parents in
    let (id, named) = full_text (get "checkpoint_id" c) full_id in
    let (completed, completed_is) = count_of (get "completed_count" c) completed_counted in
    record {
      id = id;
      completed = completed;
      named = named;
      number = next_number (get "checkpoint_sequence" c) n (rw i.number at no_gap);
      same_plan = json_eq-text (get "plan_sha256" c) plan (rw i.same_plan at plan_same);
      of_parent = rw i.named at of_parent;
      completed_is = completed_is;
      more =
          not_less (as_int (get "completed_count" p)) (as_int (get "completed_count" c)) i.completed
            completed no_rollback i.completed_is completed_is;
    }

children_Linear :
    (n : ℕ) (plan : String) (parent : Json) (least : ℤ) (p : Fields) (cs : List Fields)
    (i : IsNumbered n plan parent least p)
    → checkpoint_violations (some p) cs ≡ []
    → Linear (suc n) plan (text i.id) i.completed cs
unfolding checkpoint_violations
children_Linear n plan parent least p [] i h = tt
children_Linear n plan parent least p (c ∷ cs) i h =
    let (fields, rest) = ++-nothing (field_violations c) _ h in
    let (parents, others) = ++-nothing (parent_violations (some p) c) _ rest in
    let j = child_IsNumbered n plan parent least p c i fields parents in
    (j, children_Linear (suc n) plan (text i.id) i.completed c cs j others)

root_IsNumbered :
    (c : Fields)
    → field_violations c ≡ []
    → parent_violations none c ≡ []
    → (plan : String) × IsNumbered 0 plan null (pos 0) c
unfolding json_eq
root_IsNumbered c fields parents =
    let (full_id, counted, completed_counted, digest) = tested_fields c fields in
    let (no_parent, first) = tested_root c parents in
    let (id, named) = full_text (get "checkpoint_id" c) full_id in
    let (plan, plan_is) = sha256_text (get "plan_sha256" c) digest in
    let (completed, completed_is) = count_of (get "completed_count" c) completed_counted in
    (
      plan,
      record {
        id = id;
        completed = completed;
        named = named;
        number = json_eq-int (get "checkpoint_sequence" c) (pos 0) first;
        same_plan = plan_is;
        of_parent = nothing (get "parent_checkpoint_id" c) no_parent;
        completed_is = completed_is;
        more = at_least (as_int (get "completed_count" c)) completed completed_counted completed_is;
      },
    )
  where
    nothing : (v : Json) → is_null v ≡ true → json_eq v null ≡ true
    nothing null h = refl
    nothing (bool b) h = cc
    nothing (int n) h = cc
    nothing (text t) h = cc
    nothing (array vs) h = cc
    nothing (object fs) h = cc

    at_least : (o : Option ℤ) (n : ℤ) → is_no_count o ≡ false → o ≡ some n → pos 0 ≤ℤ n
    at_least none n h e = cc
    at_least (some m) n h e = ground arith

-- Checkpoints without violations are linear.
pub checkpoint_violations-Linear :
    (cs : List Fields)
    → checkpoint_violations none cs ≡ []
    → (plan : String) × Linear 0 plan null (pos 0) cs
unfolding checkpoint_violations
checkpoint_violations-Linear [] h = ("", tt)
checkpoint_violations-Linear (c ∷ cs) h =
    let (fields, rest) = ++-nothing (field_violations c) _ h in
    let (parents, others) = ++-nothing (parent_violations none c) _ rest in
    let (plan, i) = root_IsNumbered c fields parents in
    (plan, (i, children_Linear 0 plan null (pos 0) c cs i others))

checkpoints_of-append :
    (xs ys : List Fields) → checkpoints_of (xs ++ ys) ≡ checkpoints_of xs ++ checkpoints_of ys
unfolding checkpoints_of
checkpoints_of-append [] ys = refl
checkpoints_of-append (x ∷ xs) ys = ground (arith, checkpoints_of-append xs ys)

module _ (sha256 : List ℕ → String) (scope : TraceScope) where
  outcome_checkpoints :
      (r : Fields) (s t : TraceProgress)
      → Outcome sha256 scope r s t
      → t.checkpoints ≡ s.checkpoints ++ checkpoints_of (r ∷ [])
  unfolding checkpoints_of String-discrete
  outcome_checkpoints r s t (as_checkpoint kind _ e) = rw (e, kind) refl
  outcome_checkpoints r s t (as_event kind _ _ e) =
      rw (e, other_kind r "runtime_event" "checkpoint" kind refl) (sym (append-nil s.checkpoints))
  outcome_checkpoints r s t (as_approval kind _ _ _ _ e) =
      rw (e, other_kind r "approval" "checkpoint" kind refl)
        (ground (arith, append-nil s.checkpoints))
  outcome_checkpoints r s t (as_effect kind _ _ _ _ e) =
      rw (e, other_kind r "effect" "checkpoint" kind refl) (sym (append-nil s.checkpoints))
  outcome_checkpoints r s t (as_evidence kind _ _ _ _ _ e) =
      rw (e, other_kind r "provider_evidence" "checkpoint" kind refl)
        (sym (append-nil s.checkpoints))
  outcome_checkpoints r s t (as_completion kind _ _ _ _ _ e) =
      rw (e, other_kind r "reconciliation_completion" "checkpoint" kind refl)
        (sym (append-nil s.checkpoints))

  Steps-checkpoints :
      {rs : List Fields} {s u : TraceProgress}
      → Steps sha256 scope rs s u
      → u.checkpoints ≡ s.checkpoints ++ checkpoints_of rs
  unfolding checkpoints_of
  Steps-checkpoints {s} done = sym (append-nil s.checkpoints)
  Steps-checkpoints {u} (next {r} {rs} {s} {t} step steps) =
      Steps-checkpoints steps
      ∙ ap (λ x. x ++ checkpoints_of rs) (outcome_checkpoints r s t step.outcome)
      ∙ append_assoc s.checkpoints (checkpoints_of (r ∷ [])) (checkpoints_of rs)
      ∙ ap (λ x. s.checkpoints ++ x) (sym (checkpoints_of-append (r ∷ []) rs))

module _ (sha256 : List ℕ → String) where
  -- In a trace that the validator accepts, the checkpoints in the order of the records have the numbers
  -- 0, 1, 2 and so on and the plan of the first one; the first one has no parent, each other one names
  -- the one before as its parent, and the completed count is never negative and never falls.
  pub checkpoints_are-Linear :
      (trace : Fields) (elements : Items) (records : List Fields)
      → validate_trace sha256 trace ≡ ok []
      → get "records" trace ≡ array elements
      → items elements ≡ map object records
      → (plan : String) × Linear 0 plan null (pos 0) (checkpoints_of records)
  checkpoints_are-Linear trace elements records accepted found objects =
      let a = validate_trace-Accepted sha256 trace accepted in
      checkpoint_violations-Linear (checkpoints_of records) (
        subst (λ (cs : List Fields). checkpoint_violations none cs ≡ [])
          (Steps-checkpoints sha256 (scope_of a.scope) a.steps
            ∙ ap checkpoints_of (listed_records sha256 trace a elements records found objects))
          a.lineage)
