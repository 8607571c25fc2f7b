-- ===== src/Fencing.antt =====
-- Fencing tokens (src/agent_reliability_lab/fencing.py): the value types with their validation, the
-- pure acquire and write, and the SQLite store.
mod Memory
mod Commands
mod Supersession
mod Tests
use coding_agent_reliability.Base.{
  ◌≡◌, Bool, true, false, not, ◌&&◌, ◌||◌, Option, none, some, List, [], ◌∷◌, String, ℤ, pos, ◌+ℤ◌,
  leb_ℤ, ltb_ℤ, ◌==◌, string_eq, int_eq, optional_text_eq, if◌then◌else◌, Result, ok, err, Error,
  is_blank, lookup, insert, raise_if, is_some,
}
use coding_agent_reliability.Base.Errors.{◌>>=◌ as bind}
use coding_agent_reliability.Base.Transaction.{
  Tx, pure, lift, gets, modify, refuse_if, raise, transaction, ◌>>=◌, ◌>>◌,
}

pub record FencingToken : Type 0 where
  pub resource : String
  pub operation_id : String
  pub epoch : ℤ
  pub store_generation : Option String

abbrev is_blank_option : Option String → Bool
is_blank_option none = false
is_blank_option (some text) = is_blank text

-- `FencingToken(...)` with the tests of `__post_init__`.
unfoldable pub new_token : String → String → ℤ → Option String → Result FencingToken
new_token resource operation_id epoch store_generation =
    if is_blank resource || is_blank operation_id
    then err Error.value_error
    else if leb_ℤ epoch (pos 0)
    then err Error.value_error
    else if is_blank_option store_generation
    then err Error.value_error
    else ok (record {
      resource = resource;
      operation_id = operation_id;
      epoch = epoch;
      store_generation = store_generation;
    })

pub record FencedState : Type 0 where
  pub resource : String
  pub epoch : ℤ
  pub operation_id : Option String
  pub value : Option String

-- `FencedState(...)` with the tests of `__post_init__`.
unfoldable pub new_state : String → ℤ → Option String → Option String → Result FencedState
new_state resource epoch operation_id value =
    if is_blank resource
    then err Error.value_error
    else if ltb_ℤ epoch (pos 0)
    then err Error.value_error
    else ok
        (record { resource = resource; epoch = epoch; operation_id = operation_id; value = value })

unfoldable pub acquire_authority : FencedState → String → Result (FencedState × FencingToken)
unfolding new_token new_state
acquire_authority state operation_id =
    if is_blank operation_id
    then err Error.value_error
    else let epoch = state.epoch +ℤ pos 1 in
      bind (new_token state.resource operation_id epoch none) λ token.
        bind (new_state state.resource epoch (some operation_id) state.value)
          λ next. ok (next, token)

unfoldable pub fenced_write : FencedState → FencingToken → String → Result FencedState
unfolding new_state
fenced_write state token value =
    if not (token.resource == state.resource)
    then err Error.fencing_conflict
    else if not (token.epoch == state.epoch)
    then err Error.stale_fencing_token
    else if not (some token.operation_id == state.operation_id)
    then err Error.fencing_conflict
    else new_state state.resource state.epoch state.operation_id (some value)

-- A row of the table fencing_state, keyed by its resource.
pub record FencingRow : Type 0 where
  pub epoch : ℤ
  pub operation_id : Option String
  pub value : Option String

pub record FencingDatabase : Type 0 where
  pub generation : Option String
  pub fencing_state : List (String × FencingRow)

-- A `PersistentFencingStore` keeps the generation that it saw when it was opened.
pub record FencingStore : Type 0 where
  pub store_generation : String

-- `__init__` on a database: `fresh` is what `lower(hex(randomblob(16)))` gives, used if there is no
-- generation yet.
unfoldable pub open_store : String → Tx FencingDatabase FencingStore
open_store fresh db = elim db.generation [
  | none ↦ (ok (record { store_generation = fresh }), record db { generation = some fresh })
  | some old ↦ (ok (record { store_generation = old }), db)
]

abbrev pub row_epoch : Option FencingRow → ℤ
row_epoch none = pos 0
row_epoch (some row) = row.epoch

-- The upsert of `acquire`: a new row has no value, an old one keeps its value.
abbrev pub with_authority : ℤ → String → Option FencingRow → FencingRow
with_authority epoch operation_id none = record {
  epoch = epoch;
  operation_id = some operation_id;
  value = none;
}
with_authority epoch operation_id (some row) = record row {
  epoch = epoch;
  operation_id = some operation_id;
}

-- The transaction of `acquire`, which gives the new epoch.
unfoldable pub take_authority : FencingStore → String → String → Tx FencingDatabase ℤ
take_authority store resource operation_id = do
  generation ← gets (λ db. db.generation)
  refuse_if (not (generation == some store.store_generation)) Error.fencing_conflict
  row ← gets (λ db. lookup resource db.fencing_state)
  let epoch = row_epoch row +ℤ pos 1
  refuse_if (ltb_ℤ epoch (pos 0)) Error.integrity_error
  modify (λ db. record db {
    fencing_state = insert resource (with_authority epoch operation_id row) db.fencing_state;
  })
  pure epoch

-- `PersistentFencingStore.acquire`
unfoldable pub acquire : FencingStore → String → String → Tx FencingDatabase FencingToken
unfolding take_authority transaction new_token
acquire store resource operation_id = do
  refuse_if (is_blank resource || is_blank operation_id) Error.value_error
  epoch ← transaction (take_authority store resource operation_id)
  lift (new_token resource operation_id epoch (some store.store_generation))

-- The tests of `write` on the row that it reads, and the update.
unfoldable pub write_row : FencingToken → String → Option FencingRow → Tx FencingDatabase Unit
write_row token value none = raise Error.fencing_conflict
write_row token value (some row) = do
  refuse_if (not (token.epoch == row.epoch)) Error.stale_fencing_token
  refuse_if (not (some token.operation_id == row.operation_id)) Error.fencing_conflict
  modify (λ db. record db {
    fencing_state = insert token.resource (record row { value = some value }) db.fencing_state;
  })

-- `PersistentFencingStore.write`
unfoldable pub write : FencingToken → String → Tx FencingDatabase Unit
unfolding write_row transaction
write token value = transaction do
  generation ← gets (λ db. db.generation)
  refuse_if (not (is_some generation) || not (token.store_generation == generation))
      Error.fencing_conflict
  row ← gets (λ db. lookup token.resource db.fencing_state)
  write_row token value row

-- `PersistentFencingStore.state`
unfoldable pub read_state : String → FencingDatabase → Result FencedState
unfolding new_state
read_state resource db = elim (lookup resource db.fencing_state) [
  | none ↦ new_state resource (pos 0) none none
  | some row ↦ new_state resource row.epoch row.operation_id row.value
]
