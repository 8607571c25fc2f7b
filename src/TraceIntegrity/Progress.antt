-- ===== src/TraceIntegrity/Progress.antt =====
-- The scope of a trace, the variables of the loop in `validate_trace` of
-- src/agent_reliability_lab/trace_integrity.py, and the tests that all records share.
use coding_agent_reliability.Base.{
  ℕ, Bool, true, false, not, ◌&&◌, ◌||◌, Option, List, [], ◌∷◌, ◌++◌, String, string_eq,
  text_pair_eq, nat_eq, int_eq, ◌==◌, ℤ, pos, leb_ℤ, leb, if◌then◌else◌, is_some, length, codes,
}
use coding_agent_reliability.Base.Document.{Json, int, text, Fields, get}
use coding_agent_reliability.Base.Numeral.{int_of_text}

-- The violations that a test adds.
abbrev pub when : Bool → String → List String
when test violation = if test then violation ∷ [] else []

abbrev pub is_upper : ℕ → Bool
is_upper c = leb b'A' c && leb c b'Z'

unfoldable pub has_upper : List ℕ → Bool
has_upper [] = false
has_upper (c ∷ cs) = is_upper c || has_upper cs

-- `_is_sha256`. Of the characters of a text that `int` reads, `lower` changes the letters from A to Z.
unfoldable pub is_sha256 : Json → Bool
unfolding int_of_text has_upper codes
is_sha256 (text s) =
    length (codes s) == 64 && is_some (int_of_text 16 (codes s)) && not (has_upper (codes s))
is_sha256 _ = false

abbrev pub record_kinds : List String
record_kinds =
    "runtime_event" ∷ "approval" ∷ "effect" ∷ "checkpoint" ∷ "provider_evidence"
    ∷ "reconciliation_completion" ∷ []

abbrev pub event_kinds : List String
event_kinds = "output" ∷ "completed" ∷ "failed" ∷ []

abbrev pub readback_states : List String
readback_states = "present" ∷ "absent" ∷ "ambiguous" ∷ []

abbrev pub decisions : List String
decisions = "approved" ∷ "denied" ∷ []

pub record TraceScope : Type 0 where
  pub run_id : Json
  pub turn_id : Json
  pub provider : Json
  pub operation_id : Json

-- The variables of the loop over the records.
pub record TraceProgress : Type 0 where
  pub violations : List String
  pub sequences : List ℤ
  pub record_ids : List String
  pub event_ids : List String
  pub binding : Option (String × String)
  pub approved_sequence : Option ℤ
  pub denied_sequence : Option ℤ
  pub expected_effect : Option String
  pub checkpoints : List Fields
  pub evidence_by_id : List (String × Fields)
  pub evidence_history : List Fields
  pub completion_count : ℕ

abbrev pub add : List String → TraceProgress → TraceProgress
add found s = record s { violations = s.violations ++ found }

-- `record_ids.append(record_id)` for a nonempty text.
abbrev pub valid_id : Json → List String
valid_id (text s) = if s == "" then [] else s ∷ []
valid_id _ = []

-- `sequences.append(sequence)` for a positive number that is no bool.
abbrev pub valid_sequence : Json → List ℤ
valid_sequence (int n) = if leb_ℤ n (pos 0) then [] else n ∷ []
valid_sequence _ = []

abbrev pub is_nothing {ℓ} : {A : Type ℓ} → List A → Bool
is_nothing [] = true
is_nothing (x ∷ xs) = false

-- The first two tests of a record.
abbrev pub identity_violations : Fields → List String
identity_violations r =
    when (is_nothing (valid_id (get "record_id" r))) "record_id_invalid"
    ++ when (is_nothing (valid_sequence (get "sequence" r))) "record_sequence_invalid"

unfoldable pub note_identity : Fields → TraceProgress → TraceProgress
note_identity r s = record s {
  violations = s.violations ++ identity_violations r;
  record_ids = s.record_ids ++ valid_id (get "record_id" r);
  sequences = s.sequences ++ valid_sequence (get "sequence" r);
}
