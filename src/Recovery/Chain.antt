-- ===== src/Recovery/Chain.antt =====
-- A run whose stored checkpoints are one lineage, and the lineage after a new checkpoint.
use coding_agent_reliability.Base.{
  sym, ◌∙◌, ◌≡◌, refl, ==-eq, ==_refl, Bool, true, false, ◌||◌, none, some, List, [], ◌∷◌, arith,
  String, string_eq, ◌==◌, text_pair_eq, int_eq, ℤ, pos, ◌+ℤ◌, ◌<ℤ◌, ◌≤ℤ◌, is_blank, lookup-insert,
  contains, inl, inr, if◌then◌else◌, Bool-cases,
}
use coding_agent_reliability.Base.Errors.{some-injective}
use coding_agent_reliability.Recovery.{
  RecoveryCheckpoint, checkpoint_eq, RunRow, CheckpointDatabase, load_checkpoint, candidate_of,
}
use coding_agent_reliability.Recovery.Lineage.{IsAtHead, with_head, with_head-IsAtHead}

-- A checkpoint of a run, and the one that it was advanced from.
pub record IsChild (c p : RecoveryCheckpoint) : Type 0 where
  pub parent : c.parent_checkpoint_id ≡ some p.checkpoint_id
  pub sequence : c.sequence ≡ p.sequence +ℤ pos 1
  pub progress : p.completed_count <ℤ c.completed_count
  pub same_run : c.run_id ≡ p.run_id
  pub same_plan : c.plan_sha256 ≡ p.plan_sha256

-- The checkpoints before a checkpoint, newest first: each is the parent of the one after it, and the
-- oldest is an initial one.
unfoldable pub IsLineage : RecoveryCheckpoint → List RecoveryCheckpoint → Type 0
IsLineage c [] =
    (c.parent_checkpoint_id ≡ none) × (c.sequence ≡ pos 0) × (c.completed_count ≡ pos 0)
IsLineage c (p ∷ older) = IsChild c p × IsLineage p older

-- The stored checkpoints of the run are exactly those of one lineage, which ends in its head.
pub record IsLinear (r : String) (run : RunRow) (head : RecoveryCheckpoint)
    (older : List RecoveryCheckpoint) (db : CheckpointDatabase) : Type 0 where
  pub at_head : IsAtHead r run head db
  pub lineage : IsLineage head older
  pub exhaustive :
      (id : String) (c : RecoveryCheckpoint)
      → load_checkpoint r id db ≡ some c
      → (c.checkpoint_id ≡ id) × (contains c (head ∷ older) ≡ true)
  pub kept :
      (c : RecoveryCheckpoint)
      → contains c (head ∷ older) ≡ true
      → load_checkpoint r c.checkpoint_id db ≡ some c

module _ (id : String) (n : ℤ) (run : RunRow) (head : RecoveryCheckpoint)
    (older : List RecoveryCheckpoint) (db : CheckpointDatabase)
    (l : IsLinear head.run_id run head older db) (named : is_blank id ≡ false)
    (fresh : load_checkpoint head.run_id id db ≡ none) where
  load_next :
      (j : String)
      → load_checkpoint head.run_id j (with_head run (candidate_of head id n run) db)
        ≡ (if id == j then some (candidate_of head id n run) else load_checkpoint head.run_id j db)
  load_next j = ground (
    arith,
    lookup-insert (head.run_id, id) (head.run_id, j) (candidate_of head id n run) db.checkpoints,
  )

  next_exhaustive :
      (j : String) (c : RecoveryCheckpoint)
      → load_checkpoint head.run_id j (with_head run (candidate_of head id n run) db) ≡ some c
      → (c.checkpoint_id ≡ j) × (contains c (candidate_of head id n run ∷ head ∷ older) ≡ true)
  unfolding contains
  next_exhaustive j c h = elim (Bool-cases (id == j)) [
    | inl same ↦
        let is_next = some-injective (rw same at (sym (load_next j) ∙ h)) in
        rw (← is_next) (==-eq id j same, rw (==_refl (candidate_of head id n run)) refl)
    | inr other ↦
        let (own, old) = l.exhaustive j c (rw other at (sym (load_next j) ∙ h)) in
        (own, later (candidate_of head id n run == c) (contains c (head ∷ older)) old)
  ]
    where
      later : (b d : Bool) → d ≡ true → (b || d) ≡ true
      later true d h = refl
      later false d h = h

  next_kept :
      (c : RecoveryCheckpoint)
      → contains c (candidate_of head id n run ∷ head ∷ older) ≡ true
      → load_checkpoint head.run_id c.checkpoint_id (with_head run (candidate_of head id n run) db)
        ≡ some c
  unfolding contains
  next_kept c h = elim (Bool-cases (candidate_of head id n run == c)) [
    | inl same ↦
        rw (← ==-eq (candidate_of head id n run) c same) (load_next id ∙ rw (==_refl id) refl)
    | inr other ↦ old (l.kept c (rw other at h))
  ]
    where
      old :
          load_checkpoint head.run_id c.checkpoint_id db ≡ some c
          → load_checkpoint head.run_id c.checkpoint_id
              (with_head run (candidate_of head id n run) db)
            ≡ some c
      old stored = elim (Bool-cases (id == c.checkpoint_id)) [
        | inl same ↦ absurd (let e = ==-eq id c.checkpoint_id same in cc (e, fresh, stored))
        | inr apart ↦ load_next c.checkpoint_id ∙ rw apart stored
      ]

  pub with_head-IsLinear :
      head.completed_count <ℤ n
      → n ≤ℤ run.operation_count
      → IsLinear head.run_id
          (record run { head_checkpoint_id = id })
          (candidate_of head id n run)
          (head ∷ older)
          (with_head run (candidate_of head id n run) db)
  unfolding IsLineage contains
  with_head-IsLinear grows fits = record {
    at_head = with_head-IsAtHead id n run head db l.at_head fresh grows fits;
    lineage = (
      record {
        parent = refl;
        sequence = refl;
        progress = grows;
        same_run = refl;
        same_plan = sym l.at_head.plan;
      },
      l.lineage,
    );
    exhaustive = next_exhaustive;
    kept = next_kept;
  }
