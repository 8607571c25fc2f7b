-- ===== src/Durable/Binding.antt =====
-- What the sandbox refuses: changed operations, reversed decisions, and executions without approval.
use coding_agent_reliability.Base.{
  ◌≡◌, ◌≢◌, some, arith, String, string_eq, text_pair_eq, if◌then◌else◌, Result, ok, err, Error,
  lookup, lookup-insert, inl, inr, ◌⊎◌,
}
use coding_agent_reliability.Durable.{
  LocalOperation, Decision, approved, supported, decision_eq, OperationRow, Sandbox, Stage,
  is_denied, request, decide, execute,
}

-- Once an operation is stored, a call with the same operation_id and another tool or payload raises
-- IdempotencyConflict and changes nothing: a request, a decision and an execution alike.
pub changed_operation_refused :
    (op : LocalOperation) (row : OperationRow) (db : Sandbox) (d : Decision)
    (cp : Stage → Result (Unit {0}))
    → lookup op.operation_id db.operations ≡ some row
    → (row.tool ≢ op.tool) ⊎ (row.payload ≢ op.payload)
    → (request op db ≡ (err Error.idempotency_conflict, db))
      × (decide op (supported d) db ≡ (err Error.idempotency_conflict, db))
      × (execute cp op db ≡ (err Error.idempotency_conflict, db))
unfolding request decide execute
changed_operation_refused op row db d cp found (inl tool) = ground arith
changed_operation_refused op row db d cp found (inr payload) = ground arith

-- A stored decision cannot be reversed: the other decision for the exact operation raises
-- ApprovalConflict and leaves the database alone.
pub decision_is_final :
    (op : LocalOperation) (row : OperationRow) (db : Sandbox) (d e : Decision)
    → lookup op.operation_id db.operations ≡ some row
    → row.tool ≡ op.tool
    → row.payload ≡ op.payload
    → row.decision ≡ some d
    → e ≢ d
    → decide op (supported e) db ≡ (err Error.approval_conflict, db)
unfolding decide
decision_is_final op row db d e found tool payload old other = ground arith

-- A stored decision can be repeated: the call returns, and no stored operation has changed.
pub decision_repeats :
    (op : LocalOperation) (row : OperationRow) (db : Sandbox) (d : Decision) (id : String)
    → lookup op.operation_id db.operations ≡ some row
    → row.tool ≡ op.tool
    → row.payload ≡ op.payload
    → row.decision ≡ some d
    → ((decide op (supported d) db).0 ≡ ok tt)
      × (lookup id (decide op (supported d) db).1.operations ≡ lookup id db.operations)
unfolding decide
decision_repeats op row db d id found tool payload old =
    ground
      (arith, lookup-insert op.operation_id id (record row { decision = some d }) db.operations)

-- A stored operation that is not approved is not executed, whatever the checkpoints: the call raises
-- ApprovalDenied if it was denied and ApprovalRequired if it is undecided, and changes nothing.
pub unapproved_refused :
    (op : LocalOperation) (row : OperationRow) (db : Sandbox) (cp : Stage → Result (Unit {0}))
    → lookup op.operation_id db.operations ≡ some row
    → row.tool ≡ op.tool
    → row.payload ≡ op.payload
    → row.decision ≢ some approved
    → execute cp op db ≡ (
      err (if is_denied row.decision then Error.approval_denied else Error.approval_required),
      db,
    )
unfolding execute
unapproved_refused op row db cp found tool payload no_approval = ground arith
