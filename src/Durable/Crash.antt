-- ===== src/Durable/Crash.antt =====
-- A process that ends in the middle of `execute`, and the calls after the restart.
use coding_agent_reliability.Base.{
  ◌≡◌, refl, true, false, List, [], ◌∷◌, arith, string_eq, text_pair_eq, Result, ok, lookup-insert,
  inl, inr, ◌⊎◌,
}
use coding_agent_reliability.Durable.{LocalOperation, OperationRow, Sandbox, Stage, execute}
use coding_agent_reliability.Durable.Consistent.{IsReady, with_effect, execute_outcome}

-- The default of `_checkpoint`.
abbrev pub calm : Stage → Result (Unit {0})
calm _ = ok tt

module _ (op : LocalOperation) (row : OperationRow) (db : Sandbox) (r : IsReady op row db) where
  execute_ready : execute calm op db ≡ (ok true, with_effect op row db)
  unfolding execute
  execute_ready = ground arith

  execute_again :
      (cp : Stage → Result (Unit {0}))
      → execute cp op (with_effect op row db) ≡ (ok false, with_effect op row db)
  unfolding execute
  execute_again cp = ground (
    arith,
    lookup-insert op.operation_id op.operation_id (record row { completed = true }) db.operations,
  )

-- A ready operation is executed: the call returns True and records the effect. The same call after
-- that returns False and changes nothing, whatever its checkpoints would do.
pub execute_twice :
    (op : LocalOperation) (row : OperationRow) (db : Sandbox) (cp : Stage → Result (Unit {0}))
    → IsReady op row db
    → (execute calm op db ≡ (ok true, with_effect op row db))
      × (execute cp op (execute calm op db).1 ≡ (ok false, (execute calm op db).1))
execute_twice op row db cp r =
    (execute_ready op row db r, rw (execute_ready op row db r) (execute_again op row db r cp))

-- Attempts that their checkpoints may end at any stage.
unfoldable pub attempts : List (Stage → Result (Unit {0})) → LocalOperation → Sandbox → Sandbox
attempts [] op db = db
attempts (cp ∷ cps) op db = attempts cps op (execute cp op db).1

attempts_done :
    (cps : List (Stage → Result (Unit {0}))) (op : LocalOperation) (row : OperationRow)
    (db : Sandbox)
    → IsReady op row db
    → attempts cps op (with_effect op row db) ≡ with_effect op row db
unfolding attempts
attempts_done [] op row db r = refl
attempts_done (cp ∷ cps) op row db r =
    rw (execute_again op row db r cp) (attempts_done cps op row db r)

same_row :
    (op : LocalOperation) (row other : OperationRow) (db : Sandbox)
    → IsReady op row db
    → IsReady op other db
    → other ≡ row
same_row op row other db r o = ground arith

attempts_outcome :
    (cps : List (Stage → Result (Unit {0}))) (op : LocalOperation) (row : OperationRow)
    (db : Sandbox)
    → IsReady op row db
    → (attempts cps op db ≡ db) ⊎ (attempts cps op db ≡ with_effect op row db)
unfolding attempts
attempts_outcome [] op row db r = inl refl
attempts_outcome (cp ∷ cps) op row db r = elim (execute_outcome cp op db) [
  | inl same ↦ rw same (attempts_outcome cps op row db r)
  | inr (other, o, changed) ↦
      inr (rw (changed, same_row op row other db r o) (attempts_done cps op row db r))
]

-- When any number of attempts to execute a ready operation were ended, before or after the effect,
-- the completion or the commit, the next attempt that is left alone ends in the database that one
-- undisturbed execution gives: the effect is recorded once.
pub attempts_converge :
    (cps : List (Stage → Result (Unit {0}))) (op : LocalOperation) (row : OperationRow)
    (db : Sandbox)
    → IsReady op row db
    → (execute calm op (attempts cps op db)).1 ≡ with_effect op row db
attempts_converge cps op row db r = elim (attempts_outcome cps op row db r) [
  | inl none_yet ↦ rw (none_yet, execute_ready op row db r)
  | inr done ↦ rw (done, execute_again op row db r calm)
]
