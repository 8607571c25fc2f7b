-- ===== src/Durable/Consistent.antt =====
-- Approval, effect and completion stay together: the invariant of the database.
use coding_agent_reliability.Base.{
  ℕ, ◌≡◌, refl, Bool, true, false, Option, none, some, List, [], ◌∷◌, ◌++◌, map, map-append, arith,
  String, string_eq, text_pair_eq, if◌then◌else◌, Result, lookup, insert, lookup-insert,
  lookup-append, is_some, Option-cases, inl, inr, ◌⊎◌, count, count-append,
}
use coding_agent_reliability.Durable.{
  LocalOperation, Decision, DecisionText, supported, unsupported, approved, decision_eq,
  OperationRow, Sandbox, Stage, requested_row, request, decide, execute,
}

-- The note that an operation's row calls for: its payload, once it is completed.
abbrev pub note_of : Option OperationRow → Option String
note_of none = none
note_of (some row) = if row.completed then some row.payload else none

abbrev is_approved : Option Decision → Bool
is_approved (some approved) = true
is_approved _ = false

-- A completed operation is approved.
abbrev pub is_approved_if_completed : Option OperationRow → Bool
is_approved_if_completed none = true
is_approved_if_completed (some row) = if row.completed then is_approved row.decision else true

-- How many notes an operation has.
abbrev pub note_count : String → Sandbox → ℕ
note_count id db = count id (map (λ (n : String × String). n.0) db.notes)

-- Exactly the completed operations have a note, with their payload, exactly one each, and they
-- are approved.
pub record IsConsistent (db : Sandbox) : Type 0 where
  pub note : (id : String) → lookup id db.notes ≡ note_of (lookup id db.operations)
  pub once : (id : String) → note_count id db ≡ (if is_some (lookup id db.notes) then 1 else 0)
  pub allowed : (id : String) → is_approved_if_completed (lookup id db.operations) ≡ true

abbrev pub empty : Sandbox
empty = record { operations = []; notes = [] }

pub IsConsistent-empty : IsConsistent empty
unfolding lookup count
IsConsistent-empty = record { note = λ id. refl; once = λ id. refl; allowed = λ id. refl }

module _ (op : LocalOperation) (db : Sandbox) (c : IsConsistent db) where
  pub request-IsConsistent : IsConsistent (request op db).1
  unfolding request
  request-IsConsistent = record {
    note = λ id. ground (
      arith,
      c.note id,
      c.note op.operation_id,
      lookup-insert op.operation_id id (requested_row op) db.operations,
    );
    once = λ id. ground (arith, c.once id);
    allowed = λ id.
        ground
          (arith, c.allowed id, lookup-insert op.operation_id id (requested_row op) db.operations);
  }

  pub decide-IsConsistent : (d : DecisionText) → IsConsistent (decide op d db).1
  unfolding decide
  decide-IsConsistent (unsupported _) = c
  decide-IsConsistent (supported d) = elim (Option-cases (lookup op.operation_id db.operations)) [
    | inl missing ↦ record {
      note = λ id. ground (arith, missing, c.note id);
      once = λ id. ground (arith, missing, c.once id);
      allowed = λ id. ground (arith, missing, c.allowed id);
    }
    | inr (row, found) ↦ record {
      note = λ id. ground (
        arith,
        found,
        c.note id,
        lookup-insert op.operation_id id (record row { decision = some d }) db.operations,
      );
      once = λ id. ground (arith, found, c.once id);
      allowed = λ id. ground (
        arith,
        found,
        c.allowed id,
        lookup-insert op.operation_id id (record row { decision = some d }) db.operations,
      );
    }
  ]

-- The database with the note of an operation, and its row completed.
abbrev pub with_effect : LocalOperation → OperationRow → Sandbox → Sandbox
with_effect op row db = record {
  operations = insert op.operation_id (record row { completed = true }) db.operations;
  notes = db.notes ++ (op.operation_id, op.payload) ∷ [];
}

-- The row allows a new effect of the operation.
pub record IsReady (op : LocalOperation) (row : OperationRow) (db : Sandbox) : Type 0 where
  pub found : lookup op.operation_id db.operations ≡ some row
  pub tool : row.tool ≡ op.tool
  pub payload : row.payload ≡ op.payload
  pub decision : row.decision ≡ some approved
  pub open_ : row.completed ≡ false
  pub no_note : lookup op.operation_id db.notes ≡ none

module _ (cp : Stage → Result (Unit {0})) (op : LocalOperation) (db : Sandbox) where
  execute_missing : lookup op.operation_id db.operations ≡ none → (execute cp op db).1 ≡ db
  unfolding execute
  execute_missing missing = ground (arith, missing)

  execute_noted :
      (row : OperationRow) (note : String)
      → lookup op.operation_id db.operations ≡ some row
      → lookup op.operation_id db.notes ≡ some note
      → (execute cp op db).1 ≡ db
  unfolding execute
  execute_noted row note found has = ground arith

  execute_found :
      (row : OperationRow)
      → lookup op.operation_id db.operations ≡ some row
      → lookup op.operation_id db.notes ≡ none
      → ((execute cp op db).1 ≡ db)
        ⊎ ((row.tool ≡ op.tool)
            × (row.payload ≡ op.payload)
            × (row.decision ≡ some approved)
            × (row.completed ≡ false)
            × ((execute cp op db).1 ≡ with_effect op row db))
  unfolding execute
  execute_found row found no_note = ground arith

  -- Whatever its checkpoints do, `execute` leaves the database alone or completes the whole effect
  -- of a ready operation.
  pub execute_outcome :
      ((execute cp op db).1 ≡ db)
      ⊎ ((row : OperationRow) × IsReady op row db × ((execute cp op db).1 ≡ with_effect op row db))
  execute_outcome = elim (Option-cases (lookup op.operation_id db.operations)) [
    | inl missing ↦ inl (execute_missing missing)
    | inr (row, found) ↦ elim (Option-cases (lookup op.operation_id db.notes)) [
      | inr (note, has) ↦ inl (execute_noted row note found has)
      | inl no_note ↦ elim (execute_found row found no_note) [
        | inl same ↦ inl same
        | inr (t, p, d, o, changed) ↦ inr (
          row,
          record {
            found = found;
            tool = t;
            payload = p;
            decision = d;
            open_ = o;
            no_note = no_note;
          },
          changed,
        )
      ]
    ]
  ]

keys_snoc :
    (ns : List (String × String)) (id text : String)
    → map (λ (n : String × String). n.0) (ns ++ (id, text) ∷ [])
      ≡ map (λ (n : String × String). n.0) ns ++ id ∷ []
keys_snoc ns id text = map-append (λ (n : String × String). n.0) ns ((id, text) ∷ [])

with_effect-IsConsistent :
    (op : LocalOperation) (row : OperationRow) (db : Sandbox)
    → IsConsistent db
    → IsReady op row db
    → IsConsistent (with_effect op row db)
unfolding count
with_effect-IsConsistent op row db c r = record {
  note = λ id.
      rw
        (
          lookup-append op.operation_id id op.payload db.notes r.no_note,
          lookup-insert op.operation_id id (record row { completed = true }) db.operations,
        )
        (ground (arith, c.note id));
  once = λ id.
      rw
        (
          keys_snoc db.notes op.operation_id op.payload,
          count-append id (map (λ (n : String × String). n.0) db.notes) (op.operation_id ∷ []),
          lookup-append op.operation_id id op.payload db.notes r.no_note,
        )
        (ground (arith, c.once id, c.once op.operation_id));
  allowed = λ id.
      rw (lookup-insert op.operation_id id (record row { completed = true }) db.operations)
        (ground (arith, c.allowed id));
}

-- `execute` keeps the invariant, also when a checkpoint ends it at any stage.
pub execute-IsConsistent :
    (cp : Stage → Result (Unit {0})) (op : LocalOperation) (db : Sandbox)
    → IsConsistent db
    → IsConsistent (execute cp op db).1
execute-IsConsistent cp op db c = elim (execute_outcome cp op db) [
  | inl same ↦ rw same c
  | inr (row, ready, changed) ↦ rw changed (with_effect-IsConsistent op row db c ready)
]

-- One call of the sandbox, with its own checkpoints where it executes.
pub data Call : Type 0 where
  call_request : LocalOperation → Call
  call_decide : LocalOperation → DecisionText → Call
  call_execute : (Stage → Result (Unit {0})) → LocalOperation → Call

unfoldable pub run_call : Call → Sandbox → Sandbox
run_call (call_request op) db = (request op db).1
run_call (call_decide op d) db = (decide op d db).1
run_call (call_execute cp op) db = (execute cp op db).1

unfoldable pub run_calls : List Call → Sandbox → Sandbox
unfolding run_call
run_calls [] db = db
run_calls (c ∷ cs) db = run_calls cs (run_call c db)

run_call-IsConsistent : (c : Call) (db : Sandbox) → IsConsistent db → IsConsistent (run_call c db)
unfolding run_call
run_call-IsConsistent (call_request op) db h = request-IsConsistent op db h
run_call-IsConsistent (call_decide op d) db h = decide-IsConsistent op db h d
run_call-IsConsistent (call_execute cp op) db h = execute-IsConsistent cp op db h

-- After any calls on a consistent database, returning or raising, and ended by their checkpoints at
-- any stage, exactly the completed operations have a note, each has one note and it holds the payload
-- of the operation, and every completed operation is approved.
pub run_calls-IsConsistent :
    (cs : List Call) (db : Sandbox) → IsConsistent db → IsConsistent (run_calls cs db)
unfolding run_calls
run_calls-IsConsistent [] db h = h
run_calls-IsConsistent (c ∷ cs) db h =
    run_calls-IsConsistent cs (run_call c db) (run_call-IsConsistent c db h)
