-- ===== src/TraceIntegrity/Loop.antt =====
-- The loop over the records in `validate_trace` (src/agent_reliability_lab/trace_integrity.py).
use coding_agent_reliability.Base.{
  ℕ, ◌+◌, Bool, false, not, Option, none, some, List, [], ◌∷◌, ◌++◌, String, string_eq,
  text_pair_eq, nat_eq, int_eq, ◌==◌, if◌then◌else◌, Result, ok,
}
use coding_agent_reliability.Base.Document.{
  Json, text, object, Fields, get, json_eq, member, is_full_text,
}
use coding_agent_reliability.Base.Errors.{◌>>=◌ as bind}
use coding_agent_reliability.Base.Json.{encode_string, encode_array}
use coding_agent_reliability.Base.Numeral.{decimal}
use Prim.Native.String.{◌++◌ as joined}
use coding_agent_reliability.TraceIntegrity.Progress.{
  when, is_sha256, record_kinds, TraceScope, TraceProgress, add, note_identity,
}
use coding_agent_reliability.TraceIntegrity.Handlers.{
  handle_event, handle_checkpoint, candidate_binding, handle_approval, handle_effect,
  handle_evidence, handle_completion,
}

-- `record.get("kind") == kind`
abbrev pub is_kind : String → Fields → Bool
is_kind kind r = json_eq (get "kind" r) (text kind)

abbrev pub operation_violations : TraceScope → Fields → List String
operation_violations scope r =
    when (not (json_eq (get "operation_id" r) scope.operation_id)) "operation_scope_mismatch"
    ++ when (not (json_eq (get "provider" r) scope.provider)) "provider_scope_mismatch"

abbrev pub is_other_binding : Option (String × String) → Option (String × String) → Bool
is_other_binding (some bound) (some candidate) = not (bound == candidate)
is_other_binding _ _ = false

abbrev pub binding_violations :
    Fields → Option (String × String) → Option (String × String) → List String
binding_violations r bound candidate =
    when (not (is_full_text (get "tool" r))) "operation_tool_invalid"
    ++ (when (not (is_sha256 (get "payload_sha256" r))) "operation_payload_sha256_invalid"
        ++ when (is_other_binding bound candidate) "approval_effect_binding_mismatch")

-- `binding` after a candidate.
abbrev pub new_binding :
    Option (String × String) → Option (String × String) → Option (String × String)
new_binding none candidate = candidate
new_binding (some bound) candidate = some bound

-- `hashlib.sha256(text.encode()).hexdigest()` is the parameter `sha256`.
module _ (sha256 : List ℕ → String) where
  abbrev pub effect_fingerprint : String → String → String → String → String
  effect_fingerprint provider operation_id tool payload_sha256 =
      sha256 (encode_array encode_string (provider ∷ operation_id ∷ tool ∷ payload_sha256 ∷ []))

  abbrev pub expected_of : Json → Json → String × String → Option String → Option String
  expected_of (text provider) (text operation_id) (tool, payload) expected =
      some (effect_fingerprint provider operation_id tool payload)
  expected_of _ _ candidate expected = expected

  -- `expected_effect` after a candidate that is taken as the binding.
  abbrev pub new_expected :
      TraceScope
      → Option (String × String)
      → Option (String × String)
      → Option String
      → Option String
  new_expected scope none (some candidate) expected =
      expected_of scope.provider scope.operation_id candidate expected
  new_expected scope _ _ expected = expected

  -- The tests that an approval and an effect share.
  unfoldable pub bind_operation : TraceScope → Fields → TraceProgress → TraceProgress
  bind_operation scope r s =
      let candidate = candidate_binding (get "tool" r) (get "payload_sha256" r) in
      record s {
        violations = s.violations ++ binding_violations r s.binding candidate;
        binding = new_binding s.binding candidate;
        expected_effect = new_expected scope s.binding candidate s.expected_effect;
      }

  -- The kinds behind the tests of provider and operation_id.
  unfoldable pub handle_operation : TraceScope → Fields → TraceProgress → Result TraceProgress
  handle_operation scope r s =
      if is_kind "approval" r
      then handle_approval r (bind_operation scope r s)
      else if is_kind "effect" r
      then ok (handle_effect r (bind_operation scope r s))
      else if is_kind "provider_evidence" r
      then handle_evidence r s
      else ok (handle_completion r s)

  -- A record of a known kind.
  unfoldable pub handle_kind : TraceScope → Fields → TraceProgress → Result TraceProgress
  handle_kind scope r s =
      if is_kind "runtime_event" r
      then handle_event scope r s
      else if is_kind "checkpoint" r
      then ok (handle_checkpoint scope r s)
      else handle_operation scope r (add (operation_violations scope r) s)

  -- The body of the loop, for the record at an index.
  unfoldable pub handle_record : TraceScope → ℕ → Json → TraceProgress → Result TraceProgress
  unfolding decimal
  handle_record scope index (object r) s = bind (member record_kinds (get "kind" r)) λ known.
      if known
      then handle_kind scope r (note_identity r s)
      else ok (add ("record_kind_invalid" ∷ []) (note_identity r s))
  handle_record scope index _ s =
      ok (add (joined "record_" (joined (decimal index) "_invalid") ∷ []) s)

  -- The loop over the records, from an index on.
  unfoldable pub handle_records : TraceScope → ℕ → List Json → TraceProgress → Result TraceProgress
  handle_records scope index [] s = ok s
  handle_records scope index (r ∷ rs) s =
      bind (handle_record scope index r s) λ s'. handle_records scope (index + 1) rs s'
