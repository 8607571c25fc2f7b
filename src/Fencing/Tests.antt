-- ===== src/Fencing/Tests.antt =====
-- A stale executor resumes, as in tests/test_fencing_tokens.py, and the theorems there.
use coding_agent_reliability.Base.{
  ◌≡◌, ◌≢◌, refl, true, Option, none, some, List, [], ◌∷◌, String, string_eq, ℤ, pos, ◌+ℤ◌, ◌==◌,
  ==-ne, optional_text_eq, if◌then◌else◌, ok, err, Error, is_blank, lookup, insert, String-discrete,
  ℤ-discrete, optional_text_discrete, ℕ_discrete,
}
use coding_agent_reliability.Fencing.{
  FencingToken, FencedState, FencingRow, FencingDatabase, FencingStore, acquire_authority, acquire,
  write,
}
use coding_agent_reliability.Fencing.Commands.{Command, acquire_for, write_with, perform, takes}
use coding_agent_reliability.Fencing.Supersession.{
  run, is_superseded, with_value, write_after_acquire, calls_of, replaced_store, write_effect,
}

abbrev token : ℤ → String → FencingToken
token epoch op = record {
  resource = "branch";
  operation_id = op;
  epoch = epoch;
  store_generation = some "g1";
}

abbrev row : ℤ → String → Option String → FencingRow
row epoch op value = record { epoch = epoch; operation_id = some op; value = value }

abbrev database : ℤ → String → Option String → FencingDatabase
database epoch op value = record {
  generation = some "g1";
  fencing_state = ("branch", row epoch op value) ∷ [];
}

abbrev store : FencingStore
store = record { store_generation = "g1" }

abbrev empty : FencingDatabase
empty = record { generation = some "g1"; fencing_state = [] }

acquire_first :
    acquire store "branch" "op-a" empty ≡ (ok (token (pos 1) "op-a"), database (pos 1) "op-a" none)
unfolding acquire is_blank ◌+ℤ◌ lookup insert String-discrete optional_text_discrete ℤ-discrete
    ℕ_discrete
acquire_first = refl

abbrev others : List Command
others = write_with (token (pos 1) "op-a") "a" ∷ acquire_for store "branch" "op-b" ∷ []

write_after_acquire_example :
    write (token (pos 1) "op-a") "late" (run others (database (pos 1) "op-a" none)) ≡ (
      if is_superseded "branch" others (database (pos 1) "op-a" none)
      then (err Error.stale_fencing_token, run others (database (pos 1) "op-a" none))
      else (
        ok tt,
        with_value (token (pos 1) "op-a") "late" (run others (database (pos 1) "op-a" none)),
      ))
write_after_acquire_example =
    write_after_acquire store "branch" "op-a" "late" empty (database (pos 1) "op-a" none)
      (token (pos 1) "op-a") others acquire_first

others_supersede : is_superseded "branch" others (database (pos 1) "op-a" none) ≡ true
unfolding is_superseded takes perform acquire write is_blank ◌+ℤ◌ lookup insert String-discrete
    optional_text_discrete ℤ-discrete ℕ_discrete
others_supersede = refl

not_g2 : ◌≢◌ {A = String} "g1" "g2"
unfolding String-discrete
not_g2 = ==-ne "g1" "g2" refl

-- Another database in the place of the first.
abbrev replacement : FencingDatabase
replacement = record { generation = some "g2"; fencing_state = [] }

abbrev mixed : List Command
mixed =
    acquire_for store "branch" "op-c"
    ∷ acquire_for (record { store_generation = "g2" }) "branch" "op-b"
    ∷ []

replaced_store_example :
    (run mixed replacement ≡ run (calls_of "g2" mixed) replacement)
    × (write (token (pos 1) "op-a") "v" (run mixed replacement)
        ≡ (err Error.fencing_conflict, run mixed replacement))
replaced_store_example =
    replaced_store store "branch" "op-a" "v" "g2" empty (database (pos 1) "op-a" none) replacement
      (token (pos 1) "op-a") mixed acquire_first refl not_g2

write_committed :
    write (token (pos 1) "op-a") "a" (database (pos 1) "op-a" none)
    ≡ (ok tt, database (pos 1) "op-a" (some "a"))
unfolding write lookup insert String-discrete optional_text_discrete ℤ-discrete ℕ_discrete
write_committed = refl

write_effect_example : lookup "branch" (database (pos 1) "op-a" (some "a")).fencing_state ≡ (
    if ◌==◌ {A = String} "branch" "branch"
    then some (row (pos 1) "op-a" (some "a"))
    else lookup "branch" (database (pos 1) "op-a" none).fencing_state)
write_effect_example =
    write_effect (token (pos 1) "op-a") "a" "branch" (database (pos 1) "op-a" none)
      (database (pos 1) "op-a" (some "a")) write_committed

abbrev held : FencedState
held = record { resource = "branch"; epoch = pos 1; operation_id = some "op-a"; value = none }

acquired_held :
    acquire_authority held "op-b"
    ≡ ok (
      record held { epoch = pos 2; operation_id = some "op-b" },
      record (token (pos 2) "op-b") { store_generation = none },
    )
unfolding acquire_authority is_blank ◌+ℤ◌
acquired_held = refl
