-- ===== src/Fencing/Commands.antt =====
-- What one call of the store does to the row of a resource.
use coding_agent_reliability.Base.{
  ◌≡◌, Bool, true, false, not, ◌&&◌, ◌||◌, Option, none, some, String, pos, ◌+ℤ◌, ◌<ℤ◌, ◌≤ℤ◌,
  +ℤ_parts, arith, ◌==◌, string_eq, int_eq, optional_text_eq, is_blank, is_some, lookup,
  lookup-insert, Option-cases, inl, inr, ◌⊎◌,
}
use coding_agent_reliability.Fencing.{
  FencingToken, FencingRow, FencingDatabase, FencingStore, row_epoch, with_authority, acquire,
  write,
}

-- A call by some worker, on a store object that it opened at some time.
pub data Command : Type 0 where
  acquire_for : FencingStore → String → String → Command
  write_with : FencingToken → String → Command

-- The database after a call, whether it returned or raised.
unfoldable pub perform : Command → FencingDatabase → FencingDatabase
perform (acquire_for store resource operation_id) db = (acquire store resource operation_id db).1
perform (write_with token value) db = (write token value db).1

-- The call takes authority over the resource.
unfoldable pub takes : String → Command → FencingDatabase → Bool
takes resource (acquire_for store r operation_id) db =
    r == resource
    && not (is_blank r || is_blank operation_id)
    && db.generation == some store.store_generation
takes resource (write_with token value) db = false

abbrev pub row_operation : Option FencingRow → Option String
row_operation none = none
row_operation (some row) = row.operation_id

-- The database still has the generation of the token.
pub record SameGeneration (token : FencingToken) (db : FencingDatabase) : Type 0 where
  pub generation : db.generation ≡ token.store_generation
  pub is_set : is_some db.generation ≡ true

-- The token holds authority over its resource.
pub record Current (token : FencingToken) (db : FencingDatabase) : Type 0 where
  pub same : SameGeneration token db
  pub known : is_some (lookup token.resource db.fencing_state) ≡ true
  pub epoch : row_epoch (lookup token.resource db.fencing_state) ≡ token.epoch
  pub operation : row_operation (lookup token.resource db.fencing_state) ≡ some token.operation_id

-- Authority over the resource of the token was taken again.
pub record Passed (token : FencingToken) (db : FencingDatabase) : Type 0 where
  pub same : SameGeneration token db
  pub known : is_some (lookup token.resource db.fencing_state) ≡ true
  pub epoch : token.epoch <ℤ row_epoch (lookup token.resource db.fencing_state)

-- A write changes neither the generation nor who holds authority over any resource.
pub write_keeps :
    (k : FencingToken) (v r : String) (db : FencingDatabase)
    → ((write k v db).1.generation ≡ db.generation)
      × (is_some (lookup r (write k v db).1.fencing_state) ≡ is_some (lookup r db.fencing_state))
      × (row_epoch (lookup r (write k v db).1.fencing_state)
          ≡ row_epoch (lookup r db.fencing_state))
      × (row_operation (lookup r (write k v db).1.fencing_state)
          ≡ row_operation (lookup r db.fencing_state))
unfolding write
write_keeps k v r db = elim (Option-cases (lookup k.resource db.fencing_state)) [
  | inl missing ↦ ground (arith, missing)
  | inr (row, found) ↦
      ground
        (arith, found, lookup-insert k.resource r (record row { value = some v }) db.fencing_state)
]

module _ (st : FencingStore) (r op j : String) (db : FencingDatabase) where
  abbrev taken : FencingRow
  taken =
      with_authority (row_epoch (lookup r db.fencing_state) +ℤ pos 1) op (lookup r db.fencing_state)

  -- An acquisition writes the row of its resource, or nothing at all.
  pub acquire_keeps :
      ((acquire st r op db).1.generation ≡ db.generation)
      × ((lookup j (acquire st r op db).1.fencing_state ≡ lookup j db.fencing_state)
          ⊎ ((takes j (acquire_for st r op) db ≡ true)
              × (lookup j (acquire st r op db).1.fencing_state ≡ some taken)))
  unfolding acquire takes
  acquire_keeps = ground (arith, lookup-insert r j taken db.fencing_state)

  pub takes-acquire :
      pos 0 ≤ℤ row_epoch (lookup r db.fencing_state)
      → takes j (acquire_for st r op) db ≡ true
      → lookup j (acquire st r op db).1.fencing_state ≡ some taken
  unfolding acquire takes
  takes-acquire h t = ground (
    arith,
    lookup-insert r j taken db.fencing_state,
    +ℤ_parts (row_epoch (lookup r db.fencing_state)) (pos 1),
  )

module _ (token : FencingToken) (db : FencingDatabase) (positive : pos 0 <ℤ token.epoch) where
  -- Until authority is taken again, the token stays current.
  pub Current-perform :
      (c : Command)
      → Current token db
      → takes token.resource c db ≡ false
      → Current token (perform c db)
  unfolding perform
  Current-perform (acquire_for st r op) h t =
      ground (arith, acquire_keeps st r op token.resource db)
  Current-perform (write_with k v) h t = ground (arith, write_keeps k v token.resource db)

  -- When authority is taken again, the token is passed.
  pub Current-takes :
      (c : Command)
      → Current token db
      → takes token.resource c db ≡ true
      → Passed token (perform c db)
  unfolding perform takes
  Current-takes (acquire_for st r op) h t = ground (
    arith,
    acquire_keeps st r op token.resource db,
    takes-acquire st r op token.resource db,
    +ℤ_parts (row_epoch (lookup r db.fencing_state)) (pos 1),
  )
  Current-takes (write_with k v) h t = cc

  -- A token that was passed stays passed.
  pub Passed-perform : (c : Command) → Passed token db → Passed token (perform c db)
  unfolding perform takes
  Passed-perform (acquire_for st r op) h = ground (
    arith,
    acquire_keeps st r op token.resource db,
    +ℤ_parts (row_epoch (lookup r db.fencing_state)) (pos 1),
  )
  Passed-perform (write_with k v) h = ground (arith, write_keeps k v token.resource db)
