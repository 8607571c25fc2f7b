-- ===== src/Durable.antt =====
-- The transactional sandbox (src/agent_reliability_lab/durable.py): approvals, the local effect and
-- its completion, in one SQLite database.
mod Consistent
mod Crash
mod Binding
mod Tests
use coding_agent_reliability.Base.{
  ◌≡◌, Bool, true, false, not, ◌&&◌, ◌||◌, Option, none, some, List, [], ◌∷◌, ◌++◌, String, ◌==◌,
  string_eq, DecEq, String-discrete, text_pair_eq, if◌then◌else◌, Result, ok, err, Error, map_ok,
  is_blank, lookup, insert, is_some,
}
use coding_agent_reliability.Base.Sorting.{sort_by_id}
use coding_agent_reliability.Base.Transaction.{
  Tx, pure, lift, gets, modify, refuse_if, raise, transaction, ◌>>=◌, ◌>>◌,
}

pub record LocalOperation : Type 0 where
  pub operation_id : String
  pub tool : String
  pub payload : String

-- `LocalOperation(...)` with the tests of `__post_init__`.
unfoldable pub new_operation : String → String → String → Result LocalOperation
unfolding is_blank String-discrete
new_operation operation_id tool payload =
    if is_blank operation_id
    then err Error.value_error
    else if not (tool == "record_note")
    then err Error.value_error
    else ok (record { operation_id = operation_id; tool = tool; payload = payload })

-- The decisions that the column's CHECK admits.
pub data Decision : Type 0 where
  approved denied : Decision

unfoldable pub Decision-discrete : Discrete Decision
Decision-discrete = hlevel

instance abbrev pub decision_eq : DecEq Decision
decision_eq = record { dec = Decision-discrete }

-- The text that a caller passes as the decision; `unsupported` is any other text.
pub data DecisionText : Type 0 where
  supported : Decision → DecisionText
  unsupported : String → DecisionText

-- A row of the table operations, keyed by its operation_id.
pub record OperationRow : Type 0 where
  pub tool : String
  pub payload : String
  pub decision : Option Decision
  pub completed : Bool

pub record Sandbox : Type 0 where
  pub operations : List (String × OperationRow)
  pub notes : List (String × String)

unfoldable pub check_existing : LocalOperation → Option OperationRow → Result OperationRow
check_existing operation none = err Error.approval_required
check_existing operation (some row) =
    if ◌==◌ {A = String × String} (row.tool, row.payload) (operation.tool, operation.payload)
    then ok row
    else err Error.idempotency_conflict

-- `_existing`
unfoldable pub existing : LocalOperation → Tx Sandbox OperationRow
unfolding check_existing
existing operation = do
  row ← gets (λ db. lookup operation.operation_id db.operations)
  lift (check_existing operation row)

abbrev pub requested_row : LocalOperation → OperationRow
requested_row operation = record {
  tool = operation.tool;
  payload = operation.payload;
  decision = none;
  completed = false;
}

-- `INSERT ... ON CONFLICT(operation_id) DO NOTHING`
abbrev pub insert_request : LocalOperation → Sandbox → Sandbox
insert_request operation db =
    if is_some (lookup operation.operation_id db.operations) then db else record db {
      operations = insert operation.operation_id (requested_row operation) db.operations;
    }

unfoldable pub request : LocalOperation → Tx Sandbox Unit
unfolding existing transaction
request operation = transaction do modify (insert_request operation); existing operation; pure tt

abbrev pub is_other : Option Decision → Decision → Bool
is_other none decision = false
is_other (some previous) decision = not (previous == decision)

-- `UPDATE operations SET ... WHERE operation_id=?` for the row that was read.
abbrev pub update_row : LocalOperation → OperationRow → Tx Sandbox Unit
update_row operation row =
    modify (λ db. record db { operations = insert operation.operation_id row db.operations })

unfoldable pub decide : LocalOperation → DecisionText → Tx Sandbox Unit
unfolding existing transaction
decide operation (unsupported _) = raise Error.value_error
decide operation (supported decision) = transaction do
  row ← existing operation
  refuse_if (is_other row.decision decision) Error.approval_conflict
  update_row operation (record row { decision = some decision })

-- `decision == "denied"`
abbrev pub is_denied : Option Decision → Bool
is_denied (some denied) = true
is_denied _ = false

-- The points at which `execute` calls its `_checkpoint`.
pub data Stage : Type 0 where
  before_effect after_effect before_commit after_commit : Stage

-- `INSERT INTO notes`, under the table's primary key and its reference to operations.
unfoldable pub insert_note : LocalOperation → Tx Sandbox Unit
insert_note operation = do
  note ← gets (λ db. lookup operation.operation_id db.notes)
  refuse_if (is_some note) Error.integrity_error
  row ← gets (λ db. lookup operation.operation_id db.operations)
  refuse_if (not (is_some row)) Error.integrity_error
  modify (λ db. record db { notes = db.notes ++ (operation.operation_id, operation.payload) ∷ [] })

-- What follows `if completed: return False`, for the value of `completed`.
unfoldable pub execute_once :
    (Stage → Result (Unit {0})) → LocalOperation → OperationRow → Bool → Tx Sandbox Bool
unfolding insert_note
execute_once checkpoint operation row true = pure false
execute_once checkpoint operation row false = do
  lift (checkpoint before_effect)
  insert_note operation
  lift (checkpoint after_effect)
  update_row operation (record row { completed = true })
  lift (checkpoint before_commit)
  pure true

-- The block under `with` in `execute`: whether there is a new effect.
unfoldable pub execute_body : (Stage → Result (Unit {0})) → LocalOperation → Tx Sandbox Bool
unfolding existing execute_once
execute_body checkpoint operation = do
  row ← existing operation
  refuse_if (not (is_some row.decision)) Error.approval_required
  refuse_if (is_denied row.decision) Error.approval_denied
  execute_once checkpoint operation row row.completed

-- `checkpoint("after_commit")` and the result, after a block that did not return early.
abbrev pub acknowledge : (Stage → Result (Unit {0})) → Bool → Result Bool
acknowledge checkpoint true = map_ok (λ _. true) (checkpoint after_commit)
acknowledge checkpoint false = ok false

-- `execute`: a `checkpoint` that fails stands for an exception, or the end of the process, there.
unfoldable pub execute : (Stage → Result (Unit {0})) → LocalOperation → Tx Sandbox Bool
unfolding execute_body transaction
execute checkpoint operation = do
  fresh ← transaction (execute_body checkpoint operation)
  lift (acknowledge checkpoint fresh)

-- `notes`
unfoldable pub read_notes : Sandbox → List (String × String)
unfolding sort_by_id
read_notes db = sort_by_id db.notes
