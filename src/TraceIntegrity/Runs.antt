-- ===== src/TraceIntegrity/Runs.antt =====
-- A run of the validator without violations as a sequence of steps.
use coding_agent_reliability.Base.{ℕ, ◌+◌, ◌≡◌, refl, subst, true, List, [], ◌∷◌, map, String, ok}
use coding_agent_reliability.Base.Document.{
  Json, null, bool, int, text, array, object, Fields, get, member,
}
use coding_agent_reliability.Base.Errors.{>>=-eq-ok, ok-injective}
use coding_agent_reliability.TraceIntegrity.Progress.{
  TraceScope, TraceProgress, note_identity, identity_violations, record_kinds,
}
use coding_agent_reliability.TraceIntegrity.Loop.{handle_record, handle_records}
use coding_agent_reliability.TraceIntegrity.Clean.{
  note_identity_clean, record_of_object, not_an_object,
}
use coding_agent_reliability.TraceIntegrity.Steps.{
  Outcome, kind_clean, kind_step, note_identity-noted,
}

module _ (sha256 : List ℕ → String) (scope : TraceScope) where
  -- What a record of a trace without violations is: an object of a known kind, with a record_id and a
  -- positive sequence number.
  pub record Step (r : Fields) (s t : TraceProgress) : Type 0 where
    pub before : s.violations ≡ []
    pub identity : identity_violations r ≡ []
    pub known : member record_kinds (get "kind" r) ≡ ok true
    pub outcome : Outcome sha256 scope r s t

  object-Step :
      (index : ℕ) (r : Fields) (s t : TraceProgress)
      → handle_record sha256 scope index (object r) s ≡ ok t
      → t.violations ≡ []
      → Step r s t
  object-Step index r s t h clean =
      let (known, handled) = record_of_object sha256 scope index r s t h clean in
      let noted_clean = kind_clean sha256 scope r (note_identity r s) t handled clean in
      let (before, identity) = note_identity_clean r s noted_clean in
      record {
        before = before;
        identity = identity;
        known = known;
        outcome =
            kind_step sha256 scope r s t known
              (rw (note_identity-noted sha256 scope r s noted_clean) at handled) clean;
      }

  record-Step :
      (index : ℕ) (v : Json) (s t : TraceProgress)
      → handle_record sha256 scope index v s ≡ ok t
      → t.violations ≡ []
      → (r : Fields) × (v ≡ object r) × Step r s t
  unfolding handle_record
  record-Step index null s t h clean = absurd (not_an_object sha256 scope index s t _ h clean)
  record-Step index (bool b) s t h clean = absurd (not_an_object sha256 scope index s t _ h clean)
  record-Step index (int n) s t h clean = absurd (not_an_object sha256 scope index s t _ h clean)
  record-Step index (text w) s t h clean = absurd (not_an_object sha256 scope index s t _ h clean)
  record-Step index (array xs) s t h clean = absurd (not_an_object sha256 scope index s t _ h clean)
  record-Step index (object r) s t h clean = (r, refl, object-Step index r s t h clean)

  -- The steps of a whole run.
  pub data Steps : List Fields → TraceProgress → TraceProgress → Type 0 where
    done : {s : TraceProgress} → Steps [] s s
    next :
        {r : Fields} {rs : List Fields} {s t u : TraceProgress}
        → Step r s t
        → Steps rs t u
        → Steps (r ∷ rs) s u

  -- The records of a run without violations are objects, and each makes a step.
  pub handle_records_steps :
      (index : ℕ) (vs : List Json) (s u : TraceProgress)
      → handle_records sha256 scope index vs s ≡ ok u
      → u.violations ≡ []
      → (rs : List Fields) × (vs ≡ map object rs) × Steps rs s u × (s.violations ≡ [])
  unfolding handle_records
  handle_records_steps index [] s u h clean =
      ([], refl, subst (λ w. Steps [] s w) (ok-injective h) done, rw (ok-injective h) clean)
  handle_records_steps index (v ∷ vs) s u h clean =
      let (t, first, rest) =
        >>=-eq-ok (handle_record sha256 scope index v s)
          (handle_records sha256 scope (index + 1) vs) h in
      let (rs, tail, steps, middle) = handle_records_steps (index + 1) vs t u rest clean in
      let (r, head, step) = record-Step index v s t first middle in
      (r ∷ rs, rw (head, tail) refl, next step steps, step.before)
