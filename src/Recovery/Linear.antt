-- ===== src/Recovery/Linear.antt =====
-- Calls of `advance` on a run whose stored checkpoints are one lineage.
use coding_agent_reliability.Base.{
  sym, ◌∙◌, ap, ◌≡◌, ◌≢◌, refl, ==-eq, ==-ne, ==_refl, subst, ◌↔◌, true, false, ◌&&◌, ◌||◌, none,
  some, List, ◌∷◌, arith, String, string_eq, ◌==◌, text_pair_eq, int_eq, ℤ, leb_ℤ, ltb_ℤ, Result,
  ok, err, Error, is_blank, lookup, inl, inr, if◌then◌else◌, Bool-cases, Option-cases,
}
use coding_agent_reliability.Base.Errors.{some-injective}
use coding_agent_reliability.Recovery.{
  RecoveryCheckpoint, checkpoint_eq, RunRow, CheckpointDatabase, load_checkpoint, candidate_of,
  advance,
}
use coding_agent_reliability.Recovery.Lineage.{with_head, advance_fresh, advance_stale}
use coding_agent_reliability.Recovery.Chain.{IsLinear, with_head-IsLinear}

-- `advance` is called on a stored checkpoint that is not the head, with a new name.
pub record IsStale (parent : RecoveryCheckpoint) (id : String) (head : RecoveryCheckpoint)
    (db : CheckpointDatabase) : Type 0 where
  pub named : is_blank id ≡ false
  pub stored : load_checkpoint parent.run_id parent.checkpoint_id db ≡ some parent
  pub moved : parent ≢ head
  pub fresh : load_checkpoint parent.run_id id db ≡ none

-- What a call of `advance` on a linear run gives.
pub data Advanced (parent : RecoveryCheckpoint) (id : String) (n : ℤ) (run : RunRow)
    (head : RecoveryCheckpoint) (older : List RecoveryCheckpoint) (db : CheckpointDatabase)
    (outcome : Result RecoveryCheckpoint × CheckpointDatabase) : Type 0 where
  -- from the head, a new checkpoint became the head of the longer lineage
  committed :
      (db' : CheckpointDatabase)
      → outcome ≡ (ok (candidate_of head id n run), db')
      → parent ≡ head
      → IsLinear parent.run_id
          (record run { head_checkpoint_id = id })
          (candidate_of head id n run)
          (head ∷ older)
          db'
      → Advanced parent id n run head older db outcome
  -- the head itself, which the same call made before
  repeated :
      outcome ≡ (ok head, db)
      → candidate_of parent id n run ≡ head
      → Advanced parent id n run head older db outcome
  refused :
      (error : Error)
      → outcome ≡ (err error, db)
      → (error ≡ Error.stale_checkpoint) ↔ IsStale parent id head db
      → Advanced parent id n run head older db outcome

module _ (id : String) (n : ℤ) (run : RunRow) (head : RecoveryCheckpoint)
    (older : List RecoveryCheckpoint) (db : CheckpointDatabase)
    (l : IsLinear head.run_id run head older db) (named : is_blank id ≡ false)
    (fresh : load_checkpoint head.run_id id db ≡ none) where
  advance_head : Advanced head id n run head older db (advance head id n db)
  advance_head = elim (Bool-cases (leb_ℤ n head.completed_count || ltb_ℤ run.operation_count n)) [
    | inl refuses ↦
        refused Error.checkpoint_conflict
          (advance_fresh id n run head db l.at_head named fresh ∙ rw refuses refl)
          (λ h. cc, λ s. absurd (s.moved refl))
    | inr passes ↦
        committed (with_head run (candidate_of head id n run) db)
          (advance_fresh id n run head db l.at_head named fresh ∙ rw passes refl) refl
          (with_head-IsLinear id n run head older db l named fresh (ground arith) (ground arith))
  ]

module _ (parent : RecoveryCheckpoint) (id : String) (n : ℤ) (run : RunRow)
    (head : RecoveryCheckpoint) (db : CheckpointDatabase) where
  advance_unnamed : is_blank id ≡ true → advance parent id n db ≡ (err Error.value_error, db)
  unfolding advance
  advance_unnamed blank = ground arith

  advance_missing :
      is_blank id ≡ false
      → lookup parent.run_id db.runs ≡ some run
      → load_checkpoint parent.run_id parent.checkpoint_id db ≡ none
      → advance parent id n db ≡ (err Error.checkpoint_conflict, db)
  unfolding advance
  advance_missing named found missing = ground arith

  advance_altered :
      (p : RecoveryCheckpoint)
      → is_blank id ≡ false
      → lookup parent.run_id db.runs ≡ some run
      → load_checkpoint parent.run_id parent.checkpoint_id db ≡ some p
      → (p == parent) ≡ false
      → advance parent id n db ≡ (err Error.checkpoint_conflict, db)
  unfolding advance
  advance_altered p named found stored other = ground arith

  advance_known :
      (c : RecoveryCheckpoint)
      → is_blank id ≡ false
      → lookup parent.run_id db.runs ≡ some run
      → load_checkpoint parent.run_id parent.checkpoint_id db ≡ some parent
      → load_checkpoint parent.run_id id db ≡ some c
      → advance parent id n db ≡ (
          if c == candidate_of parent id n run && run.head_checkpoint_id == id
          then (ok c, db)
          else (err Error.checkpoint_conflict, db))
  unfolding advance
  advance_known c named found stored known = ground arith

module _ (parent : RecoveryCheckpoint) (id : String) (n : ℤ) (run : RunRow)
    (head : RecoveryCheckpoint) (older : List RecoveryCheckpoint) (db : CheckpointDatabase)
    (l : IsLinear parent.run_id run head older db) (named : is_blank id ≡ false) where
  -- With a name that the run has already.
  advance_to_known :
      (c : RecoveryCheckpoint)
      → load_checkpoint parent.run_id parent.checkpoint_id db ≡ some parent
      → load_checkpoint parent.run_id id db ≡ some c
      → Advanced parent id n run head older db (advance parent id n db)
  advance_to_known c stored known =
      let given = advance_known parent id n run head db c named l.at_head.found stored known in
      elim (Bool-cases (c == candidate_of parent id n run && run.head_checkpoint_id == id)) [
        | inl same ↦
            let is_candidate = ==-eq c (candidate_of parent id n run) (ground arith) in
            let is_head = ==-eq run.head_checkpoint_id id (ground arith) in
            let c_head = some-injective (sym known ∙ (rw is_head at l.at_head.stored)) in
            repeated (given ∙ rw same (ap (λ x. (ok x, db)) c_head)) (sym is_candidate ∙ c_head)
        | inr other ↦
            refused Error.checkpoint_conflict (given ∙ rw other refl)
              (λ h. cc, λ s. absurd (let e = s.fresh in cc (e, known)))
      ]

  -- With a new name.
  advance_to_new :
      load_checkpoint parent.run_id parent.checkpoint_id db ≡ some parent
      → load_checkpoint parent.run_id id db ≡ none
      → Advanced parent id n run head older db (advance parent id n db)
  advance_to_new stored fresh = elim (Bool-cases (run.head_checkpoint_id == parent.checkpoint_id)) [
    | inl current ↦
        let e = ==-eq run.head_checkpoint_id parent.checkpoint_id current in
        let is_head : head ≡ parent = some-injective (sym (rw e at l.at_head.stored) ∙ stored) in
        from_head is_head l fresh
    | inr apart ↦
        let moved = ==-ne run.head_checkpoint_id parent.checkpoint_id apart in
        refused Error.stale_checkpoint
          (advance_stale id n run parent db named l.at_head.found stored fresh moved)
          (
            λ _. record {
              named = named;
              stored = stored;
              moved = λ e. moved (sym l.at_head.identity ∙ ap (λ x. x.checkpoint_id) (sym e));
              fresh = fresh;
            },
            λ _. refl,
          )
  ]
    where
      from_head :
          head ≡ parent
          → IsLinear parent.run_id run head older db
          → load_checkpoint parent.run_id id db ≡ none
          → Advanced parent id n run head older db (advance parent id n db)
      from_head e linear free =
          subst
            (λ p.
              IsLinear p.run_id run head older db
              → load_checkpoint p.run_id id db ≡ none
              → Advanced p id n run head older db (advance p id n db))
            e (λ own none_yet. advance_head id n run head older db own named none_yet) linear free

-- Every call of `advance` on a run whose stored checkpoints are one lineage, from whatever checkpoint,
-- has one of three ends. It commits from the head a child of the head, with which the run is one longer
-- lineage; it returns the head again, which the same call made before; or it raises and changes
-- nothing, and it raises StaleCheckpoint exactly if it was called under a new nonblank name on a
-- stored checkpoint that is not the head.
pub advance-IsLinear :
    (parent : RecoveryCheckpoint) (id : String) (n : ℤ) (run : RunRow) (head : RecoveryCheckpoint)
    (older : List RecoveryCheckpoint) (db : CheckpointDatabase)
    → IsLinear parent.run_id run head older db
    → Advanced parent id n run head older db (advance parent id n db)
advance-IsLinear parent id n run head older db l = elim (Bool-cases (is_blank id)) [
  | inl blank ↦
      refused Error.value_error (advance_unnamed parent id n run head db blank)
        (λ h. cc, λ s. absurd (let e = s.named in cc (e, blank)))
  | inr named ↦ elim (Option-cases (load_checkpoint parent.run_id parent.checkpoint_id db)) [
    | inl missing ↦
        refused Error.checkpoint_conflict
          (advance_missing parent id n run head db named l.at_head.found missing)
          (λ h. cc, λ s. absurd (let e = s.stored in cc (e, missing)))
    | inr (p, found) ↦ from_stored named p found
  ]
]
  where
    from_known :
        is_blank id ≡ false
        → load_checkpoint parent.run_id parent.checkpoint_id db ≡ some parent
        → Advanced parent id n run head older db (advance parent id n db)
    from_known named stored = elim (Option-cases (load_checkpoint parent.run_id id db)) [
      | inl fresh ↦ advance_to_new parent id n run head older db l named stored fresh
      | inr (c, known) ↦ advance_to_known parent id n run head older db l named c stored known
    ]

    from_stored :
        is_blank id ≡ false
        → (p : RecoveryCheckpoint) → load_checkpoint parent.run_id parent.checkpoint_id db ≡ some p
        → Advanced parent id n run head older db (advance parent id n db)
    from_stored named p found = elim (Bool-cases (p == parent)) [
      | inl same ↦ from_known named (found ∙ ap some (==-eq p parent same))
      | inr other ↦
          refused Error.checkpoint_conflict
            (advance_altered parent id n run head db p named l.at_head.found found other)
            (
              λ h. cc,
              λ s. absurd (
                  let e = some-injective (sym found ∙ s.stored) in
                  let same : (p == parent) ≡ true = rw e (==_refl parent) in cc (other, same)),
            )
    ]
