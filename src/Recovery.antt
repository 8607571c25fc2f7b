-- ===== src/Recovery.antt =====
-- The checkpoint store (src/agent_reliability_lab/recovery.py): plans, the linear lineage of
-- checkpoints of a run, and the four methods of the store.
mod Plan
mod Lineage
mod Chain
mod Linear
mod Resume
mod Tests
use coding_agent_reliability.Base.{
  ℕ, ◌+◌, ◌-◌, ◌≡◌, Bool, true, false, not, ◌&&◌, ◌||◌, Option, none, some, List, [], ◌∷◌, map,
  String, ◌==◌, string_eq, DecEq, String-discrete, nat_eq, number_list_eq, text_pair_eq, int_eq, ℤ,
  pos, negsuc, ◌+ℤ◌, leb_ℤ, ltb_ℤ, ℤ-discrete, length, dedup, drop, optional_text_discrete,
  if◌then◌else◌, Result, ok, err, Error, is_blank, lookup, insert, is_some, leb, suc,
}
use coding_agent_reliability.Base.Json.{encode_string, encode_array}
use coding_agent_reliability.Base.Transaction.{
  Tx, pure, lift, gets, modify, refuse_if, raise, transaction, ◌>>=◌, ◌>>◌,
}

pub record RecoveryOperation : Type 0 where
  pub operation_id : String
  pub tool : String
  pub payload : String

-- `RecoveryOperation(...)` with the tests of `__post_init__`.
unfoldable pub new_operation : String → String → String → Result RecoveryOperation
new_operation operation_id tool payload =
    if is_blank operation_id
    then err Error.value_error
    else if is_blank tool
    then err Error.value_error
    else ok (record { operation_id = operation_id; tool = tool; payload = payload })

pub record RecoveryCheckpoint : Type 0 where
  pub run_id : String
  pub checkpoint_id : String
  pub sequence : ℤ
  pub parent_checkpoint_id : Option String
  pub plan_sha256 : String
  pub completed_count : ℤ

unfoldable pub RecoveryCheckpoint-discrete : Discrete RecoveryCheckpoint
unfolding ℤ-discrete String-discrete
RecoveryCheckpoint-discrete = hlevel (ℤ-discrete, String-discrete)

instance abbrev pub checkpoint_eq : DecEq RecoveryCheckpoint
checkpoint_eq = record { dec = RecoveryCheckpoint-discrete }

-- A row of recovery_runs, keyed by its run_id; plan_json as code points.
pub record RunRow : Type 0 where
  pub plan_json : List ℕ
  pub plan_sha256 : String
  pub operation_count : ℤ
  pub head_checkpoint_id : String

-- The table recovery_checkpoints is keyed by run_id and checkpoint_id.
pub record CheckpointDatabase : Type 0 where
  pub runs : List (String × RunRow)
  pub checkpoints : List ((String × String) × RecoveryCheckpoint)

unfoldable pub plan_json : List RecoveryOperation → List ℕ
unfolding encode_array encode_string
plan_json plan =
    encode_array (encode_array encode_string)
      (map (λ (o : RecoveryOperation). o.operation_id ∷ o.tool ∷ o.payload ∷ []) plan)

abbrev is_empty {ℓ} : {A : Type ℓ} → List A → Bool
is_empty [] = true
is_empty (x ∷ xs) = false

-- The tests of `_materialize_plan`.
unfoldable pub check_plan : List RecoveryOperation → Result (Unit {0})
unfolding dedup
check_plan plan =
    if is_empty plan
    then err Error.value_error
    else if not (
        length (map (λ (o : RecoveryOperation). o.operation_id) plan)
        == length (dedup (map (λ (o : RecoveryOperation). o.operation_id) plan)))
    then err Error.value_error
    else ok tt

-- `_load_checkpoint`
abbrev pub load_checkpoint : String → String → CheckpointDatabase → Option RecoveryCheckpoint
load_checkpoint run_id checkpoint_id db = lookup (run_id, checkpoint_id) db.checkpoints

-- A stored checkpoint of the run has this sequence number.
unfoldable pub is_taken : String → ℤ → List ((String × String) × RecoveryCheckpoint) → Bool
is_taken run_id sequence [] = false
is_taken run_id sequence ((key, c) ∷ rest) =
    (c.run_id == run_id && c.sequence == sequence) || is_taken run_id sequence rest

-- `INSERT INTO recovery_checkpoints`, under its primary key and UNIQUE (run_id, sequence).
unfoldable pub insert_checkpoint : RecoveryCheckpoint → Tx CheckpointDatabase Unit
insert_checkpoint c = do
  old ← gets (load_checkpoint c.run_id c.checkpoint_id)
  refuse_if (is_some old) Error.integrity_error
  taken ← gets (λ db. is_taken c.run_id c.sequence db.checkpoints)
  refuse_if taken Error.integrity_error
  modify (λ db. record db { checkpoints = insert (c.run_id, c.checkpoint_id) c db.checkpoints })

abbrev pub is_same : Option RecoveryCheckpoint → RecoveryCheckpoint → Bool
is_same none c = false
is_same (some stored) c = stored == c

-- `plan[count:]`, where a negative count stands for a position from the end.
unfoldable pub slice_from {ℓ} : {A : Type ℓ} → ℤ → List A → List A
slice_from (pos n) xs = drop n xs
slice_from (negsuc n) xs = drop (length xs - suc n) xs

-- `hashlib.sha256(text.encode()).hexdigest()` is the parameter `sha256`.
module _ (sha256 : List ℕ → String) where
  -- `run[:3] == (plan_json, plan_sha256, len(plan))`
  abbrev pub is_bound_to : RunRow → List RecoveryOperation → Bool
  is_bound_to run plan =
      run.plan_json == plan_json plan
      && run.plan_sha256 == sha256 (plan_json plan)
      && run.operation_count == pos (length plan)

  abbrev pub initial_checkpoint : String → String → List RecoveryOperation → RecoveryCheckpoint
  initial_checkpoint run_id checkpoint_id plan = record {
    run_id = run_id;
    checkpoint_id = checkpoint_id;
    sequence = pos 0;
    parent_checkpoint_id = none;
    plan_sha256 = sha256 (plan_json plan);
    completed_count = pos 0;
  }

  abbrev pub new_run : String → List RecoveryOperation → RunRow
  new_run checkpoint_id plan = record {
    plan_json = plan_json plan;
    plan_sha256 = sha256 (plan_json plan);
    operation_count = pos (length plan);
    head_checkpoint_id = checkpoint_id;
  }

  -- The transaction of `start`, by the row of the run.
  unfoldable pub start_run :
      RecoveryCheckpoint
      → List RecoveryOperation
      → Option RunRow
      → Tx CheckpointDatabase RecoveryCheckpoint
  unfolding insert_checkpoint
  start_run initial plan none = do
    modify (λ db. record db {
      runs = insert initial.run_id (new_run initial.checkpoint_id plan) db.runs;
    })
    insert_checkpoint initial
    pure initial
  start_run initial plan (some run) = do
    refuse_if (not (is_bound_to run plan)) Error.checkpoint_conflict
    existing ← gets (load_checkpoint initial.run_id initial.checkpoint_id)
    refuse_if (not (is_same existing initial)) Error.checkpoint_conflict
    pure initial

  unfoldable pub start :
      String → List RecoveryOperation → String → Tx CheckpointDatabase RecoveryCheckpoint
  unfolding start_run check_plan transaction
  start run_id plan checkpoint_id = do
    refuse_if (is_blank run_id) Error.value_error
    refuse_if (is_blank checkpoint_id) Error.value_error
    lift (check_plan plan)
    transaction do
      run ← gets (λ db. lookup run_id db.runs)
      start_run (initial_checkpoint run_id checkpoint_id plan) plan run

  -- The transaction of `resume`, by the row of the run.
  unfoldable pub resume_run :
      RecoveryCheckpoint
      → List RecoveryOperation
      → Option RunRow
      → Tx CheckpointDatabase (List RecoveryOperation)
  resume_run c plan none = raise Error.checkpoint_conflict
  resume_run c plan (some run) = do
    refuse_if (not (is_bound_to run plan)) Error.checkpoint_conflict
    persisted ← gets (load_checkpoint c.run_id c.checkpoint_id)
    refuse_if (not (is_same persisted c)) Error.checkpoint_conflict
    refuse_if (not (run.head_checkpoint_id == c.checkpoint_id)) Error.stale_checkpoint
    pure (slice_from c.completed_count plan)

  unfoldable pub resume :
      RecoveryCheckpoint → List RecoveryOperation → Tx CheckpointDatabase (List RecoveryOperation)
  unfolding resume_run check_plan transaction
  resume c plan = do
    lift (check_plan plan)
    transaction do run ← gets (λ db. lookup c.run_id db.runs); resume_run c plan run

abbrev pub or_conflict : Option RecoveryCheckpoint → Result RecoveryCheckpoint
or_conflict none = err Error.checkpoint_conflict
or_conflict (some c) = ok c

current_of : String → Option RunRow → Tx CheckpointDatabase RecoveryCheckpoint
current_of run_id none = raise Error.checkpoint_conflict
current_of run_id (some run) = do
  found ← gets (load_checkpoint run_id run.head_checkpoint_id)
  lift (or_conflict found)

unfoldable pub current : String → Tx CheckpointDatabase RecoveryCheckpoint
unfolding current_of transaction
current run_id = transaction do run ← gets (λ db. lookup run_id db.runs); current_of run_id run

abbrev pub candidate_of : RecoveryCheckpoint → String → ℤ → RunRow → RecoveryCheckpoint
candidate_of parent checkpoint_id completed_count run = record {
  run_id = parent.run_id;
  checkpoint_id = checkpoint_id;
  sequence = parent.sequence +ℤ pos 1;
  parent_checkpoint_id = some parent.checkpoint_id;
  plan_sha256 = run.plan_sha256;
  completed_count = completed_count;
}

-- `advance` from the point where the row of the candidate's identity was read.
unfoldable pub commit_advance :
    RecoveryCheckpoint
    → RunRow
    → RecoveryCheckpoint
    → Option RecoveryCheckpoint
    → Tx CheckpointDatabase RecoveryCheckpoint
unfolding insert_checkpoint
commit_advance parent run candidate (some existing) = do
  refuse_if (not (existing == candidate && run.head_checkpoint_id == candidate.checkpoint_id))
      Error.checkpoint_conflict
  pure existing
commit_advance parent run candidate none = do
  refuse_if (not (run.head_checkpoint_id == parent.checkpoint_id)) Error.stale_checkpoint
  refuse_if (not (parent.plan_sha256 == run.plan_sha256)) Error.checkpoint_conflict
  refuse_if (leb_ℤ candidate.completed_count parent.completed_count) Error.checkpoint_conflict
  refuse_if (ltb_ℤ run.operation_count candidate.completed_count) Error.checkpoint_conflict
  insert_checkpoint candidate
  modify (λ db. record db {
    runs =
        insert parent.run_id (record run { head_checkpoint_id = candidate.checkpoint_id }) db.runs;
  })
  pure candidate

-- The transaction of `advance`, by the row of the run.
unfoldable pub advance_run :
    RecoveryCheckpoint → String → ℤ → Option RunRow → Tx CheckpointDatabase RecoveryCheckpoint
unfolding commit_advance
advance_run parent checkpoint_id completed_count none = raise Error.checkpoint_conflict
advance_run parent checkpoint_id completed_count (some run) = do
  persisted ← gets (load_checkpoint parent.run_id parent.checkpoint_id)
  refuse_if (not (is_same persisted parent)) Error.checkpoint_conflict
  existing ← gets (load_checkpoint parent.run_id checkpoint_id)
  commit_advance parent run (candidate_of parent checkpoint_id completed_count run) existing

unfoldable pub advance : RecoveryCheckpoint → String → ℤ → Tx CheckpointDatabase RecoveryCheckpoint
unfolding advance_run transaction
advance parent checkpoint_id completed_count = do
  refuse_if (is_blank checkpoint_id) Error.value_error
  transaction do
    run ← gets (λ db. lookup parent.run_id db.runs)
    advance_run parent checkpoint_id completed_count run
