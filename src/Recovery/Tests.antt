-- ===== src/Recovery/Tests.antt =====
-- A run of three operations, as in tests/test_checkpoint_recovery.py, and the theorems there.
use coding_agent_reliability.Base.{
  ℕ, ap, true, Bool-cases, inl, inr, ◌==◌, text_pair_eq, ◌≡◌, ◌≢◌, refl, contains, ==_refl, ==-eq,
  none, some, List, [], ◌∷◌, String, string_eq, ==-ne, pos, arith, ok, err, Error, is_blank, lookup,
  insert, String-discrete, text_pair_discrete, ℕ_discrete,
}
use coding_agent_reliability.Base.Errors.{some-injective}
use coding_agent_reliability.Recovery.{
  RecoveryOperation, RecoveryCheckpoint, checkpoint_eq, RunRow, CheckpointDatabase, check_plan,
  load_checkpoint, is_taken, initial_checkpoint, new_run, candidate_of, slice_from, resume, advance,
}
use coding_agent_reliability.Recovery.Plan.{plan_json-injective}
use coding_agent_reliability.Recovery.Lineage.{
  IsAtHead, with_head, advance_fresh, advance_again, advance_stale,
}
use coding_agent_reliability.Recovery.Chain.{IsLinear, IsLineage}
use coding_agent_reliability.Recovery.Linear.{Advanced, advance-IsLinear}
use coding_agent_reliability.Recovery.Resume.{resume_exact, resume_stale, resume_head}

abbrev operation : String → String → RecoveryOperation
operation id payload = record { operation_id = id; tool = "edit"; payload = payload }

abbrev plan : List RecoveryOperation
plan = operation "op-1" "one" ∷ operation "op-2" "two\n" ∷ operation "op-3" "three" ∷ []

-- A digest of the tests' own.
abbrev digest : List ℕ → String
digest text = "d"

abbrev empty : CheckpointDatabase
empty = record { runs = []; checkpoints = [] }

abbrev first : RecoveryCheckpoint
first = initial_checkpoint digest "run-1" "start" plan

abbrev run : RunRow
run = new_run digest "start" plan

abbrev started : CheckpointDatabase
started = record { runs = ("run-1", run) ∷ []; checkpoints = (("run-1", "start"), first) ∷ [] }

plan-valid : check_plan plan ≡ ok tt
unfolding check_plan String-discrete ℕ_discrete
plan-valid = refl

started-IsAtHead : IsAtHead "run-1" run first started
unfolding lookup is_taken String-discrete text_pair_discrete
started-IsAtHead = record {
  found = refl;
  stored = refl;
  identity = refl;
  same_run = refl;
  plan = refl;
  started = omega arith;
  bounded = omega arith;
  newest = λ q h. ground arith;
}

unknown : (id : String) → (id ≢ "start") → load_checkpoint "run-1" id started ≡ none
unfolding lookup
unknown id h = ground arith

not_start : ◌≢◌ {A = String} "after-one" "start"
unfolding String-discrete
not_start = ==-ne "after-one" "start" refl

abbrev second : RecoveryCheckpoint
second = candidate_of first "after-one" (pos 1) run

abbrev advanced : CheckpointDatabase
advanced = with_head run second started

commits_second : advance first "after-one" (pos 1) started ≡ (ok second, advanced)
unfolding is_blank
commits_second =
    advance_fresh "after-one" (pos 1) run first started started-IsAtHead refl
      (unknown "after-one" not_start)

started_only :
    (id : String) (c : RecoveryCheckpoint)
    → load_checkpoint "run-1" id started ≡ some c
    → (c.checkpoint_id ≡ id) × (contains c (first ∷ []) ≡ true)
unfolding lookup contains
started_only id c h =
    elim (Bool-cases (◌==◌ {A = String × String} ("run-1", "start") ("run-1", id))) [
      | inl same ↦
          let is_first : first ≡ c = some-injective (rw same at h) in
          rw (← is_first) (
            ap (λ (k : String × String). k.1) (==-eq ("run-1", "start") ("run-1", id) same),
            rw (==_refl first) refl,
          )
      | inr other ↦ absurd (let e = rw other at h in cc e)
    ]

started_kept :
    (c : RecoveryCheckpoint)
    → contains c (first ∷ []) ≡ true
    → load_checkpoint "run-1" c.checkpoint_id started ≡ some c
unfolding lookup contains String-discrete text_pair_discrete
started_kept c h = elim (Bool-cases (first == c)) [
  | inl same ↦ rw (← ==-eq first c same) refl
  | inr other ↦ absurd (let e = rw other at h in cc e)
]

started-IsLinear : IsLinear "run-1" run first [] started
unfolding IsLineage contains lookup String-discrete text_pair_discrete
started-IsLinear = record {
  at_head = started-IsAtHead;
  lineage = (refl, refl, refl);
  exhaustive = λ id c h. started_only id c h;
  kept = λ c h. started_kept c h;
}

advance-IsLinear_example :
    Advanced first "after-one"
      (pos 1)
      run
      first
      []
      started
      (advance first "after-one" (pos 1) started)
advance-IsLinear_example =
    advance-IsLinear first "after-one" (pos 1) run first [] started started-IsLinear

repeats_second : advance first "after-one" (pos 1) advanced ≡ (ok second, advanced)
unfolding is_blank lookup insert String-discrete text_pair_discrete
repeats_second =
    advance_again "after-one" (pos 1) (record run { head_checkpoint_id = "after-one" }) first second
      advanced refl refl refl refl refl refl

moved : ◌≢◌ {A = String} "after-one" "start"
moved = not_start

refuses_fork : advance first "fork" (pos 2) advanced ≡ (err Error.stale_checkpoint, advanced)
unfolding is_blank lookup insert String-discrete text_pair_discrete
refuses_fork =
    advance_stale "fork" (pos 2) (record run { head_checkpoint_id = "after-one" }) first advanced
      refl refl refl refl moved

refuses_first : resume digest first plan advanced ≡ (err Error.stale_checkpoint, advanced)
unfolding lookup insert String-discrete text_pair_discrete
refuses_first =
    resume_stale digest first plan (record run { head_checkpoint_id = "after-one" }) advanced
      plan-valid refl refl refl refl refl moved

resumes_at_head : resume digest first plan started ≡ (ok plan, started)
unfolding slice_from
resumes_at_head =
    resume_head digest plan run first started started-IsAtHead plan-valid refl refl refl

resume_exact_example :
    (plan ≡ plan)
    × (◌≡◌ {A = String} "start" "start")
    × (load_checkpoint "run-1" "start" started ≡ some first)
    × (plan ≡ slice_from (pos 0) plan)
    × (started ≡ started)
unfolding lookup String-discrete
resume_exact_example =
    resume_exact digest first plan plan plan run started started refl refl resumes_at_head

plan_json-injective_example : plan ≡ plan
plan_json-injective_example = plan_json-injective plan plan refl
