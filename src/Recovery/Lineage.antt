-- ===== src/Recovery/Lineage.antt =====
-- The head of a run in the tables, and the branches of `start` and `advance`.
use coding_agent_reliability.Base.{
  ℕ, ◌≡◌, ◌≢◌, refl, true, false, ◌&&◌, ◌||◌, none, some, List, [], ◌∷◌, arith, String, string_eq,
  ◌==◌, text_pair_eq, int_eq, ℤ, pos, ◌+ℤ◌, ◌≤ℤ◌, ◌<ℤ◌, +ℤ_parts, leb_ℤ, ltb_ℤ, ok, err, Error,
  is_blank, lookup, insert, lookup-insert, inl, inr, if◌then◌else◌, Bool-cases,
}
use coding_agent_reliability.Recovery.{
  RecoveryCheckpoint, checkpoint_eq, RunRow, CheckpointDatabase, load_checkpoint, is_taken,
  candidate_of, advance, RecoveryOperation, check_plan, start, initial_checkpoint, new_run,
}

-- What the tables say of the head of a run.
pub record IsAtHead (r : String) (run : RunRow) (head : RecoveryCheckpoint)
    (db : CheckpointDatabase) : Type 0 where
  pub found : lookup r db.runs ≡ some run
  pub stored : load_checkpoint r run.head_checkpoint_id db ≡ some head
  pub identity : head.checkpoint_id ≡ run.head_checkpoint_id
  pub same_run : head.run_id ≡ r
  pub plan : head.plan_sha256 ≡ run.plan_sha256
  pub started : pos 0 ≤ℤ head.completed_count
  pub bounded : head.completed_count ≤ℤ run.operation_count
  -- no checkpoint of the run has a later number
  pub newest : (q : ℤ) → is_taken r q db.checkpoints ≡ true → q ≤ℤ head.sequence

is_taken-insert :
    (r : String) (q : ℤ) (k : String × String) (c : RecoveryCheckpoint)
    → (rows : List ((String × String) × RecoveryCheckpoint)) → lookup k rows ≡ none
    → is_taken r q (insert k c rows) ≡ (is_taken r q rows || (c.run_id == r && c.sequence == q))
unfolding is_taken insert lookup
is_taken-insert r q k c [] h = ground arith
is_taken-insert r q k c ((j, d) ∷ rows) h = ground (arith, is_taken-insert r q k c rows)

-- The tables after a new checkpoint of the run became its head.
abbrev pub with_head : RunRow → RecoveryCheckpoint → CheckpointDatabase → CheckpointDatabase
with_head run c db = record {
  runs = insert c.run_id (record run { head_checkpoint_id = c.checkpoint_id }) db.runs;
  checkpoints = insert (c.run_id, c.checkpoint_id) c db.checkpoints;
}

module _ (id : String) (n : ℤ) (run : RunRow) (head : RecoveryCheckpoint) (db : CheckpointDatabase)
    (l : IsAtHead head.run_id run head db) where
  abbrev next : RecoveryCheckpoint
  next = candidate_of head id n run

  not_taken : is_taken head.run_id (head.sequence +ℤ pos 1) db.checkpoints ≡ false
  not_taken = elim (Bool-cases (is_taken head.run_id (head.sequence +ℤ pos 1) db.checkpoints)) [
    | inl taken ↦
        absurd
          (ground (arith, l.newest (head.sequence +ℤ pos 1) taken, +ℤ_parts head.sequence (pos 1)))
    | inr free ↦ free
  ]

  -- From the head of a run, `advance` to a new, nonblank checkpoint_id commits exactly if the progress
  -- grows and stays within the plan, and then the new checkpoint is the head; no constraint of the
  -- tables is violated.
  pub advance_fresh :
      is_blank id ≡ false
      → load_checkpoint head.run_id id db ≡ none
      → advance head id n db ≡ (
          if leb_ℤ n head.completed_count || ltb_ℤ run.operation_count n
          then (err Error.checkpoint_conflict, db)
          else (ok next, with_head run next db))
  unfolding advance
  advance_fresh named fresh = ground (arith, l.found, l.stored, l.identity, l.plan, not_taken)

  pub with_head-IsAtHead :
      load_checkpoint head.run_id id db ≡ none
      → head.completed_count <ℤ n
      → n ≤ℤ run.operation_count
      → IsAtHead head.run_id (record run { head_checkpoint_id = id }) next (with_head run next db)
  with_head-IsAtHead fresh grows fits = record {
    found = ground (
      arith,
      lookup-insert head.run_id head.run_id (record run { head_checkpoint_id = id }) db.runs,
    );
    stored = ground (arith, lookup-insert (head.run_id, id) (head.run_id, id) next db.checkpoints);
    identity = refl;
    same_run = refl;
    plan = refl;
    started = ground (arith, l.started);
    bounded = fits;
    newest = λ q h.
        newest_next q
          (rw (is_taken-insert head.run_id q (head.run_id, id) next db.checkpoints fresh) at h);
  }
    where
      newest_next :
          (q : ℤ)
          → (is_taken head.run_id q db.checkpoints
              || (head.run_id == head.run_id && next.sequence == q))
            ≡ true
          → q ≤ℤ next.sequence
      newest_next q h = elim (Bool-cases (is_taken head.run_id q db.checkpoints)) [
        | inl old ↦ ground (arith, l.newest q old, +ℤ_parts head.sequence (pos 1))
        | inr new ↦ ground (arith, new)
      ]

-- The same call again, after a restart and before any other progress, returns the same checkpoint and
-- changes nothing.
pub advance_again :
    (id : String) (n : ℤ) (run : RunRow) (head c : RecoveryCheckpoint) (db : CheckpointDatabase)
    → is_blank id ≡ false
    → lookup head.run_id db.runs ≡ some run
    → run.head_checkpoint_id ≡ id
    → load_checkpoint head.run_id head.checkpoint_id db ≡ some head
    → load_checkpoint head.run_id id db ≡ some c
    → c ≡ candidate_of head id n run
    → advance head id n db ≡ (ok c, db)
unfolding advance
advance_again id n run head c db named found current parent stored same = ground arith

-- From a stored checkpoint that is no longer the head, a new checkpoint is refused with
-- StaleCheckpoint.
pub advance_stale :
    (id : String) (n : ℤ) (run : RunRow) (parent : RecoveryCheckpoint) (db : CheckpointDatabase)
    → is_blank id ≡ false
    → lookup parent.run_id db.runs ≡ some run
    → load_checkpoint parent.run_id parent.checkpoint_id db ≡ some parent
    → load_checkpoint parent.run_id id db ≡ none
    → run.head_checkpoint_id ≢ parent.checkpoint_id
    → advance parent id n db ≡ (err Error.stale_checkpoint, db)
unfolding advance
advance_stale id n run parent db named found stored fresh moved = ground arith

-- A method that raises has changed nothing: `advance` on every input.
pub advance_atomic :
    (parent : RecoveryCheckpoint) (id : String) (n : ℤ) (db : CheckpointDatabase) (e : Error)
    → (advance parent id n db).0 ≡ err e
    → (advance parent id n db).1 ≡ db
unfolding advance
advance_atomic parent id n db e h = ground arith

module _ (sha256 : List ℕ → String) (r id : String) (plan : List RecoveryOperation)
    (db : CheckpointDatabase) (br : is_blank r ≡ false) (bi : is_blank id ≡ false)
    (valid : check_plan plan ≡ ok tt) where
  abbrev first : RecoveryCheckpoint
  first = initial_checkpoint sha256 r id plan

  abbrev started : CheckpointDatabase
  started = record {
    runs = insert r (new_run sha256 id plan) db.runs;
    checkpoints = insert (r, id) first db.checkpoints;
  }

  started-found : lookup r started.runs ≡ some (new_run sha256 id plan)
  started-found = rw lookup-insert (ground arith)

  started-stored : lookup (r, id) started.checkpoints ≡ some first
  started-stored = rw lookup-insert (ground arith)

  -- `start` of a new run commits its row and its initial checkpoint.
  pub start_new :
      lookup r db.runs ≡ none
      → load_checkpoint r id db ≡ none
      → is_taken r (pos 0) db.checkpoints ≡ false
      → start sha256 r plan id db ≡ (ok first, started)
  unfolding start
  start_new fresh none_stored none_taken =
      rw (br, bi, valid, fresh) (ground (arith, none_stored, none_taken))

  start_old : start sha256 r plan id started ≡ (ok first, started)
  unfolding start
  start_old = rw (br, bi, valid, started-found) (ground (arith, started-stored))

  started-IsAtHead :
      load_checkpoint r id db ≡ none
      → ((q : ℤ) → is_taken r q db.checkpoints ≡ false)
      → IsAtHead r (new_run sha256 id plan) first started
  started-IsAtHead none_stored none_taken = record {
    found = started-found;
    stored = started-stored;
    identity = refl;
    same_run = refl;
    plan = refl;
    started = omega arith;
    bounded = omega arith;
    newest = λ q h.
        newest_first q (none_taken q)
          (rw (is_taken-insert r q (r, id) first db.checkpoints none_stored) at h);
  }
    where
      newest_first :
          (q : ℤ)
          → is_taken r q db.checkpoints ≡ false
          → (is_taken r q db.checkpoints || (r == r && pos 0 == q)) ≡ true
          → q ≤ℤ pos 0
      newest_first q free h = ground arith

-- For a run that the store does not know, with a valid plan and nonblank names, `start` returns the
-- initial checkpoint and leaves the run at it; the same call again, after a restart, returns the
-- same checkpoint and changes nothing.
pub start_twice :
    (sha256 : List ℕ → String) (r id : String) (plan : List RecoveryOperation)
    (db : CheckpointDatabase)
    → is_blank r ≡ false
    → is_blank id ≡ false
    → check_plan plan ≡ ok tt
    → lookup r db.runs ≡ none
    → load_checkpoint r id db ≡ none
    → ((q : ℤ) → is_taken r q db.checkpoints ≡ false)
    → let (result, db') = start sha256 r plan id db in
      (result ≡ ok (initial_checkpoint sha256 r id plan))
      × IsAtHead r (new_run sha256 id plan) (initial_checkpoint sha256 r id plan) db'
      × (start sha256 r plan id db' ≡ (ok (initial_checkpoint sha256 r id plan), db'))
start_twice sha256 r id plan db br bi valid fresh none_stored none_taken =
    rw (start_new sha256 r id plan db br bi valid fresh none_stored (none_taken (pos 0))) (
      refl,
      started-IsAtHead sha256 r id plan db br bi valid none_stored none_taken,
      start_old sha256 r id plan db br bi valid,
    )
