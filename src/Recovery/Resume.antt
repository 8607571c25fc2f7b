-- ===== src/Recovery/Resume.antt =====
-- Who may resume: only the holder of the current checkpoint, and only with the exact plan.
use coding_agent_reliability.Base.{
  ℕ, ◌≡◌, ◌≢◌, refl, some, List, [], ◌∷◌, arith, String, string_eq, text_pair_eq, number_list_eq,
  int_eq, pos, length, take, ◌++◌, zero, suc, ap, ok, err, Error, lookup,
}
use coding_agent_reliability.Recovery.{
  RecoveryOperation, RecoveryCheckpoint, checkpoint_eq, RunRow, CheckpointDatabase, plan_json,
  check_plan, load_checkpoint, slice_from, resume,
}
use coding_agent_reliability.Recovery.Lineage.{IsAtHead}
use coding_agent_reliability.Recovery.Plan.{plan_json-injective}

module _ (sha256 : List ℕ → String) where
  resume_facts :
      (c : RecoveryCheckpoint) (plan rest : List RecoveryOperation) (run : RunRow)
      (db db' : CheckpointDatabase)
      → lookup c.run_id db.runs ≡ some run
      → resume sha256 c plan db ≡ (ok rest, db')
      → (run.plan_json ≡ plan_json plan)
        × (run.head_checkpoint_id ≡ c.checkpoint_id)
        × (load_checkpoint c.run_id c.checkpoint_id db ≡ some c)
        × (rest ≡ slice_from c.completed_count plan)
        × (db' ≡ db)
  unfolding resume
  resume_facts c plan rest run db db' found h = ground arith

  -- If a run is bound to the JSON text of a plan and `resume` returns operations, then the caller's
  -- plan is that very plan, the checkpoint is stored as given and is the head of its run, the result
  -- is what the plan holds behind the checkpoint's completed count, and nothing was written.
  pub resume_exact :
      (c : RecoveryCheckpoint) (plan bound rest : List RecoveryOperation) (run : RunRow)
      (db db' : CheckpointDatabase)
      → lookup c.run_id db.runs ≡ some run
      → run.plan_json ≡ plan_json bound
      → resume sha256 c plan db ≡ (ok rest, db')
      → (plan ≡ bound)
        × (run.head_checkpoint_id ≡ c.checkpoint_id)
        × (load_checkpoint c.run_id c.checkpoint_id db ≡ some c)
        × (rest ≡ slice_from c.completed_count bound)
        × (db' ≡ db)
  resume_exact c plan bound rest run db db' found json h =
      let (text, head, stored, result, same) = resume_facts c plan rest run db db' found h in
      let exact : plan ≡ bound = plan_json-injective plan bound (cc) in
      (exact, head, stored, cc, same)

  -- A stored checkpoint that is not the head of its run cannot be resumed: with the exact plan the
  -- call raises StaleCheckpoint, and nothing is written.
  pub resume_stale :
      (c : RecoveryCheckpoint) (plan : List RecoveryOperation) (run : RunRow)
      (db : CheckpointDatabase)
      → check_plan plan ≡ ok tt
      → lookup c.run_id db.runs ≡ some run
      → run.plan_json ≡ plan_json plan
      → run.plan_sha256 ≡ sha256 (plan_json plan)
      → run.operation_count ≡ pos (length plan)
      → load_checkpoint c.run_id c.checkpoint_id db ≡ some c
      → run.head_checkpoint_id ≢ c.checkpoint_id
      → resume sha256 c plan db ≡ (err Error.stale_checkpoint, db)
  unfolding resume
  resume_stale c plan run db valid found json sha count stored moved = ground arith

  -- The head of a linear run can be resumed with the plan that the run is bound to: the call returns
  -- what the plan holds behind its completed count, and nothing is written.
  pub resume_head :
      (plan : List RecoveryOperation) (run : RunRow) (head : RecoveryCheckpoint)
      (db : CheckpointDatabase)
      → IsAtHead head.run_id run head db
      → check_plan plan ≡ ok tt
      → run.plan_json ≡ plan_json plan
      → run.plan_sha256 ≡ sha256 (plan_json plan)
      → run.operation_count ≡ pos (length plan)
      → resume sha256 head plan db ≡ (ok (slice_from head.completed_count plan), db)
  unfolding resume
  resume_head plan run head db l valid json sha count =
      ground (arith, l.found, l.stored, l.identity)

-- What is done and what a nonnegative checkpoint leaves to do make up the plan.
pub take-slice_from :
    (n : ℕ) (plan : List RecoveryOperation) → take n plan ++ slice_from (pos n) plan ≡ plan
unfolding slice_from
take-slice_from zero plan = refl
take-slice_from (suc n) [] = refl
take-slice_from (suc n) (x ∷ xs) = ap (λ (l : List RecoveryOperation). x ∷ l) (take-slice_from n xs)
