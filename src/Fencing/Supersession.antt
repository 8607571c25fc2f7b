-- ===== src/Fencing/Supersession.antt =====
-- Any interleaving of workers on one store, and on a store that replaced another.
use coding_agent_reliability.Base.{
  ◌≡◌, refl, sym, ◌∙◌, ap, ==-ne, Bool, true, false, ◌||◌, some, List, [], ◌∷◌, String, pos, ◌+ℤ◌,
  ◌<ℤ◌, arith, ◌==◌, string_eq, int_eq, optional_text_eq, if◌then◌else◌, ok, err, Error, lookup,
  insert, lookup-insert, Bool-cases, Option-cases, inl, inr, ◌≢◌,
}
use coding_agent_reliability.Base.Errors.{some-injective}
use coding_agent_reliability.Fencing.{
  FencingToken, FencingDatabase, FencingStore, row_epoch, with_authority, acquire, write,
}
use coding_agent_reliability.Fencing.Commands.{
  Command, acquire_for, write_with, perform, takes, Current, Passed, Current-perform, Current-takes,
  Passed-perform,
}

-- Calls one after the other, in the order in which SQLite serialises them.
unfoldable pub run : List Command → FencingDatabase → FencingDatabase
run [] db = db
run (c ∷ cs) db = run cs (perform c db)

-- One of the calls takes authority over the resource.
unfoldable pub is_superseded : String → List Command → FencingDatabase → Bool
is_superseded r [] db = false
is_superseded r (c ∷ cs) db = takes r c db || is_superseded r cs (perform c db)

Passed-run :
    (token : FencingToken) (cs : List Command) (db : FencingDatabase)
    → pos 0 <ℤ token.epoch
    → Passed token db
    → Passed token (run cs db)
unfolding run
Passed-run token [] db p h = h
Passed-run token (c ∷ cs) db p h =
    Passed-run token cs (perform c db) p (Passed-perform token db p c h)

Current-run :
    (token : FencingToken) (cs : List Command) (db : FencingDatabase)
    → pos 0 <ℤ token.epoch
    → Current token db
    → is_superseded token.resource cs db ≡ false
    → Current token (run cs db)
unfolding run is_superseded
Current-run token [] db p h n = h
Current-run token (c ∷ cs) db p h n =
    Current-run token cs (perform c db) p (Current-perform token db p c h (ground arith))
      (ground arith)

superseded-Passed :
    (token : FencingToken) (cs : List Command) (db : FencingDatabase)
    → pos 0 <ℤ token.epoch
    → Current token db
    → is_superseded token.resource cs db ≡ true
    → Passed token (run cs db)
unfolding run is_superseded
superseded-Passed token [] db p h s = cc
superseded-Passed token (c ∷ cs) db p h s = elim (Bool-cases (takes token.resource c db)) [
  | inl now ↦ Passed-run token cs (perform c db) p (Current-takes token db p c h now)
  | inr later ↦
      superseded-Passed token cs (perform c db) p (Current-perform token db p c h later)
        (ground arith)
]

-- The database with a new value in the row of the token, which holds authority.
abbrev pub with_value : FencingToken → String → FencingDatabase → FencingDatabase
with_value token v db = record db {
  fencing_state =
      insert token.resource
        (record { epoch = token.epoch; operation_id = some token.operation_id; value = some v })
        db.fencing_state;
}

module _ (token : FencingToken) (v : String) (db : FencingDatabase) where
  write-Current : Current token db → write token v db ≡ (ok tt, with_value token v db)
  unfolding write
  write-Current h = ground arith

  write-Passed : Passed token db → write token v db ≡ (err Error.stale_fencing_token, db)
  unfolding write
  write-Passed h = ground arith

-- A token that `acquire` returns has a positive epoch, and holds authority at that moment.
acquire-Current :
    (st : FencingStore) (r op : String) (db db' : FencingDatabase) (token : FencingToken)
    → acquire st r op db ≡ (ok token, db')
    → (token.resource ≡ r) × (pos 0 <ℤ token.epoch) × Current token db'
unfolding acquire
acquire-Current st r op db db' token h = ground (
  arith,
  lookup-insert r token.resource
      (with_authority (row_epoch (lookup r db.fencing_state) +ℤ pos 1) op
        (lookup r db.fencing_state))
      db.fencing_state,
)

-- When a worker has acquired a token and any calls of any workers on any resources follow, a write
-- with that token stores its value if none of them took authority over its resource; otherwise it
-- raises StaleFencingToken and changes nothing.
pub write_after_acquire :
    (st : FencingStore) (r op v : String) (db db' : FencingDatabase) (token : FencingToken)
    → (cs : List Command) → acquire st r op db ≡ (ok token, db')
    → write token v (run cs db') ≡ (
        if is_superseded r cs db'
        then (err Error.stale_fencing_token, run cs db')
        else (ok tt, with_value token v (run cs db')))
write_after_acquire st r op v db db' token cs h =
    let (same, positive, current) = acquire-Current st r op db db' token h in
    elim (Bool-cases (is_superseded r cs db')) [
      | inr n ↦ rw n (
          write-Current token v (run cs db')
            (Current-run token cs db' positive current (rw same n)))
      | inl s ↦ rw s (
          write-Passed token v (run cs db')
            (superseded-Passed token cs db' positive current (rw same s)))
    ]

-- The call is made on a store object or with a token of the generation.
unfoldable pub is_of : String → Command → Bool
is_of generation (acquire_for store resource operation_id) = store.store_generation == generation
is_of generation (write_with token value) = token.store_generation == some generation

-- The calls of one generation, in their order.
unfoldable pub calls_of : String → List Command → List Command
calls_of generation [] = []
calls_of generation (c ∷ cs) =
    let rest = calls_of generation cs in if is_of generation c then c ∷ rest else rest

write_other :
    (generation v : String) (token : FencingToken) (db : FencingDatabase)
    → db.generation ≡ some generation
    → token.store_generation ≢ some generation
    → write token v db ≡ (err Error.fencing_conflict, db)
unfolding write
write_other generation v token db h other = ground arith

module _ (generation : String) where
  perform-generation :
      (c : Command) (db : FencingDatabase)
      → db.generation ≡ some generation
      → (perform c db).generation ≡ some generation
  unfolding perform acquire write
  perform-generation (acquire_for store resource operation_id) db h = ground arith
  perform-generation (write_with token value) db h = ground arith

  perform_other :
      (c : Command) (db : FencingDatabase)
      → db.generation ≡ some generation
      → is_of generation c ≡ false
      → perform c db ≡ db
  unfolding perform acquire write is_of
  perform_other (acquire_for store resource operation_id) db h other = ground arith
  perform_other (write_with token value) db h other =
      ap (λ x. x.1)
        (write_other generation value token db h
          (==-ne token.store_generation (some generation) other))

  run-generation :
      (cs : List Command) (db : FencingDatabase)
      → db.generation ≡ some generation
      → (run cs db).generation ≡ some generation
  unfolding run
  run-generation [] db h = h
  run-generation (c ∷ cs) db h = run-generation cs (perform c db) (perform-generation c db h)

  run-calls_of :
      (cs : List Command) (db : FencingDatabase)
      → db.generation ≡ some generation
      → run cs db ≡ run (calls_of generation cs) db
  unfolding run calls_of
  run-calls_of [] db h = refl
  run-calls_of (c ∷ cs) db h = elim (Bool-cases (is_of generation c)) [
    | inl own ↦ rw own (run-calls_of cs (perform c db) (perform-generation c db h))
    | inr other ↦ rw (other, perform_other c db h other) (run-calls_of cs db h)
  ]

acquire-token :
    (st : FencingStore) (r op : String) (db db' : FencingDatabase) (token : FencingToken)
    → acquire st r op db ≡ (ok token, db')
    → token.store_generation ≡ some st.store_generation
unfolding acquire
acquire-token st r op db db' token h = ground arith

-- Where a database has replaced the one that a token was acquired on, under another generation, any
-- calls of any workers follow on it, on store objects and with tokens of either: it is as if only the
-- calls of its own generation had been made, and a write with the old token raises FencingConflict and
-- changes nothing.
pub replaced_store :
    (st : FencingStore) (r op v generation : String) (old old' db : FencingDatabase)
    (token : FencingToken) (cs : List Command)
    → acquire st r op old ≡ (ok token, old')
    → db.generation ≡ some generation
    → st.store_generation ≢ generation
    → (run cs db ≡ run (calls_of generation cs) db)
      × (write token v (run cs db) ≡ (err Error.fencing_conflict, run cs db))
replaced_store st r op v generation old old' db token cs acquired has_generation replaced = (
  run-calls_of generation cs db has_generation,
  write_other generation v token (run cs db) (run-generation generation cs db has_generation)
      (λ e. replaced (some-injective (sym (acquire-token st r op old old' token acquired) ∙ e))),
)

-- A write that returns has changed the value of its own resource alone: the resource has the new
-- value, the epoch and the operation of the token, and every other row is what it was.
pub write_effect :
    (token : FencingToken) (v j : String) (db db' : FencingDatabase)
    → write token v db ≡ (ok tt, db')
    → lookup j db'.fencing_state ≡ (
        if token.resource == j
        then some
            (record { epoch = token.epoch; operation_id = some token.operation_id; value = some v })
        else lookup j db.fencing_state)
unfolding write
write_effect token v j db db' h = elim (Option-cases (lookup token.resource db.fencing_state)) [
  | inl missing ↦ ground (arith, missing)
  | inr (row, found) ↦ ground (
    arith,
    found,
    lookup-insert token.resource j (record row { value = some v }) db.fencing_state,
  )
]
