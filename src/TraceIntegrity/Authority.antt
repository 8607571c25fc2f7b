-- ===== src/TraceIntegrity/Authority.antt =====
-- Approvals and effects of an accepted trace: no effect without a prior approval of exactly this
-- effect, and none after a denial.
use coding_agent_reliability.Base.{
  ◌≡◌, refl, Bool, true, false, ◌&&◌, ◌||◌, Option, none, some, List, [], ◌∷◌, ◌++◌, String,
  string_eq, text_pair_eq, nat_eq, int_eq, ◌==◌, arith, ℤ, contains, inl, inr, ◌⊎◌, ok,
}
use coding_agent_reliability.Base.Document.{
  Json, null, bool, int, text, array, object, Fields, get, json_eq, json_eq-text, member,
  is_full_text,
}
use coding_agent_reliability.TraceIntegrity.Progress.{
  when, is_nothing, valid_sequence, identity_violations, decisions, is_sha256,
}
use coding_agent_reliability.TraceIntegrity.Loop.{
  is_kind, is_other_binding, binding_violations, new_binding,
}
use coding_agent_reliability.TraceIntegrity.Steps.{candidate_of}

-- One of the records has the property.
abbrev pub Any : (Fields → Type 0) → List Fields → Type 0
Any P [] = ⊥
Any P (r ∷ rs) = P r ⊎ Any P rs

pub Any-snoc_old :
    (P : Fields → Type 0) (rs : List Fields) (r : Fields) → Any P rs → Any P (rs ++ r ∷ [])
Any-snoc_old P [] r h = elim h [ ]
Any-snoc_old P (x ∷ rs) r (inl h) = inl h
Any-snoc_old P (x ∷ rs) r (inr h) = inr (Any-snoc_old P rs r h)

pub Any-snoc_new :
    (P : Fields → Type 0) (rs : List Fields) (r : Fields) → P r → Any P (rs ++ r ∷ [])
Any-snoc_new P [] r h = inl h
Any-snoc_new P (x ∷ rs) r h = inr (Any-snoc_new P rs r h)

-- The record denies the operation.
abbrev pub is_denial : Fields → Bool
is_denial r = is_kind "approval" r && json_eq (get "decision" r) (text "denied")

unfoldable pub any_denial : List Fields → Bool
any_denial [] = false
any_denial (r ∷ rs) = is_denial r || any_denial rs

pub any_denial-snoc :
    (rs : List Fields) (r : Fields) → any_denial (rs ++ r ∷ []) ≡ (any_denial rs || is_denial r)
unfolding any_denial
any_denial-snoc [] r = ground arith
any_denial-snoc (x ∷ rs) r = ground (arith, any_denial-snoc rs r)

pub other_kind :
    (r : Fields) (kind other : String)
    → is_kind kind r ≡ true
    → (kind == other) ≡ false
    → is_kind other r ≡ false
unfolding json_eq
other_kind r kind other h e = rw (json_eq-text (get "kind" r) kind h) e

pub full_text : (v : Json) → is_full_text v ≡ true → (t : String) × (v ≡ text t)
full_text (text t) h = (t, refl)
full_text _ h = cc

pub sha256_text : (v : Json) → is_sha256 v ≡ true → (t : String) × (v ≡ text t)
unfolding is_sha256
sha256_text (text t) h = (t, refl)
sha256_text _ h = cc

-- A record that passes the shared tests has a binding, and it is the one before if there is one.
pub known_binding :
    (r : Fields) (before : Option (String × String))
    → binding_violations r before (candidate_of r) ≡ []
    → (b : String × String) × (candidate_of r ≡ some b)
      × (get "tool" r ≡ text b.0)
      × (get "payload_sha256" r ≡ text b.1)
      × (new_binding before (candidate_of r) ≡ some b)
known_binding r before h =
    let (tool_ok, payload_ok, same) = tests (candidate_of r) h in
    let (tool, is_tool) = full_text (get "tool" r) tool_ok in
    let (payload, is_payload) = sha256_text (get "payload_sha256" r) payload_ok in
    let candidate = found tool payload is_tool is_payload payload_ok in
    (
      (tool, payload),
      candidate,
      is_tool,
      is_payload,
      rw candidate (agrees before tool payload (rw candidate at same)),
    )
  where
    tests :
        (c : Option (String × String))
        → binding_violations r before c ≡ []
        → (is_full_text (get "tool" r) ≡ true)
          × (is_sha256 (get "payload_sha256" r) ≡ true)
          × (is_other_binding before c ≡ false)
    tests c e = ground arith

    found :
        (tool payload : String)
        → get "tool" r ≡ text tool
        → get "payload_sha256" r ≡ text payload
        → is_sha256 (get "payload_sha256" r) ≡ true
        → candidate_of r ≡ some (tool, payload)
    found tool payload a b c = rw (a, b) (rw (rw b at c) refl)

    agrees :
        (before : Option (String × String)) (tool payload : String)
        → is_other_binding before (some (tool, payload)) ≡ false
        → new_binding before (some (tool, payload)) ≡ some (tool, payload)
    agrees none tool payload e = refl
    agrees (some old) tool payload e = ground arith

-- A record that passes the first tests has a positive sequence number.
pub sequence_of :
    (r : Fields)
    → identity_violations r ≡ []
    → (n : ℤ) × (get "sequence" r ≡ int n) × (valid_sequence (get "sequence" r) ≡ n ∷ [])
sequence_of r h = by_value (get "sequence" r) (tested h)
  where
    tested :
        identity_violations r ≡ [] → when (is_nothing (valid_sequence (get "sequence" r))) "x" ≡ []
    tested e = ground arith

    by_value :
        (v : Json)
        → when (is_nothing (valid_sequence v)) "x" ≡ []
        → (n : ℤ) × (v ≡ int n) × (valid_sequence v ≡ n ∷ [])
    by_value (int n) e = (n, refl, ground arith)
    by_value _ e = cc

-- The two decisions.
pub decision_of :
    (v : Json) → member decisions v ≡ ok true → (v ≡ text "approved") ⊎ (v ≡ text "denied")
unfolding contains
decision_of (text t) h = ground arith
decision_of null h = cc
decision_of (bool b) h = cc
decision_of (int n) h = cc
decision_of (array vs) h = cc
decision_of (object fs) h = cc
