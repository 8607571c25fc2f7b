-- ===== src/ReleaseGate/Accepted.antt =====
-- What the result document of a passed source says.
use coding_agent_reliability.Base.{
  ◌≡◌, refl, ap, ==-eq, nat_eq, string_eq, int_eq, true, Option, none, some, String, ℤ, leb_ℤ,
  arith,
}
use coding_agent_reliability.Base.Document.{
  Json, null, int, text, bool, array, object, Fields, end, field, get, find, json_eq, as_int,
}
use coding_agent_reliability.Evaluation.Manifest.{is_bool-eq}
use coding_agent_reliability.ReleaseGate.{
  errors_of, is_empty, gate_passes, gates_pass, frozen_gates_pass, runs_satisfied,
  reproduction_checks, result_checks,
}
use coding_agent_reliability.ReleaseGate.Pinned.{without_errors-cons}

-- Every frozen gate has `passed` True.
pub record HasPassedGates (v : Json) : Type 0 where
  pub first : String
  pub gate : Json
  pub others : Fields
  pub listed : v ≡ object (field first gate others)
  pub each :
      (name : String) (item : Json)
      → find name (field first gate others) ≡ some item
      → (entry : Fields) × (item ≡ object entry) × (get "passed" entry ≡ bool true)

gate_passes-passed :
    (v : Json)
    → gate_passes v ≡ true
    → (entry : Fields) × (v ≡ object entry) × (get "passed" entry ≡ bool true)
gate_passes-passed (object fs) h = (fs, refl, is_bool-eq true _ h)
gate_passes-passed _ h = cc

gates_pass-find :
    (gates : Fields) (name : String) (item : Json)
    → gates_pass gates ≡ true
    → find name gates ≡ some item
    → gate_passes item ≡ true
unfolding gates_pass find
gates_pass-find end name item h found = cc
gates_pass-find (field k v gates) name item h found =
    ground (arith, gates_pass-find gates name item)

frozen_gates_pass-HasPassedGates : (v : Json) → frozen_gates_pass v ≡ true → HasPassedGates v
unfolding gates_pass
frozen_gates_pass-HasPassedGates (object (field k v gates)) h = record {
  first = k;
  gate = v;
  others = gates;
  listed = refl;
  each = λ name item found.
      gate_passes-passed item (gates_pass-find (field k v gates) name item h found);
}
frozen_gates_pass-HasPassedGates _ h = cc

-- The recorded runs are the required ones, which are enough, and their outputs are identical.
pub record IsReproduced (criteria : Fields) (v : Json) : Type 0 where
  pub reproduction : Fields
  pub required : ℤ
  pub minimum : ℤ
  pub listed : v ≡ object reproduction
  pub has_required : as_int (get "independent_runs_required" reproduction) ≡ some required
  pub has_recorded : as_int (get "independent_runs_recorded" reproduction) ≡ some required
  pub has_minimum : as_int (get "minimum_source_independent_runs" criteria) ≡ some minimum
  pub enough : leb_ℤ minimum required ≡ true
  pub identical : get "normalized_output_byte_identical" reproduction ≡ bool true

runs_satisfied-parts :
    (a b c : Option ℤ)
    → runs_satisfied a b c ≡ true
    → (required : ℤ) × (minimum : ℤ) × (a ≡ some required)
      × (b ≡ some required)
      × (c ≡ some minimum)
      × (leb_ℤ minimum required ≡ true)
runs_satisfied-parts none b c h = cc
runs_satisfied-parts (some r) none c h = cc
runs_satisfied-parts (some r) (some k) none h = cc
runs_satisfied-parts (some r) (some k) (some m) h =
    (r, m, refl, ap some (==-eq k r (ground arith)), refl, ground arith)

reproduction_checks-IsReproduced :
    (criteria : Fields) (v : Json)
    → is_empty (errors_of (reproduction_checks criteria v)) ≡ true
    → IsReproduced criteria v
reproduction_checks-IsReproduced criteria (object fs) h =
    let (present, rest) = without_errors-cons _ _ h in
    let (runs, rest) = without_errors-cons _ _ rest in
    let (identical, rest) = without_errors-cons _ _ rest in
    let (required, minimum, a, b, c, enough) = runs_satisfied-parts _ _ _ runs in
    record {
      reproduction = fs;
      required = required;
      minimum = minimum;
      listed = refl;
      has_required = a;
      has_recorded = b;
      has_minimum = c;
      enough = enough;
      identical = is_bool-eq true _ identical;
    }
reproduction_checks-IsReproduced criteria null h = let failed = (without_errors-cons _ _ h).0 in cc
reproduction_checks-IsReproduced criteria (bool b) h =
    let failed = (without_errors-cons _ _ h).0 in cc
reproduction_checks-IsReproduced criteria (int n) h =
    let failed = (without_errors-cons _ _ h).0 in cc
reproduction_checks-IsReproduced criteria (text s) h =
    let failed = (without_errors-cons _ _ h).0 in cc
reproduction_checks-IsReproduced criteria (array vs) h =
    let failed = (without_errors-cons _ _ h).0 in cc

-- The document has the values that the source and the criteria name.
pub record IsAccepted (source criteria document : Fields) : Type 0 where
  pub same_schema :
      json_eq (get "schema_version" document) (get "result_schema_version" source) ≡ true
  pub same_protocol : json_eq (get "protocol_id" document) (get "protocol_id" source) ≡ true
  pub same_commit :
      json_eq (get "freeze_commit_sha" document) (get "freeze_commit_sha" source) ≡ true
  pub same_digest : json_eq (get "protocol_sha256" document) (get "protocol_sha256" source) ≡ true
  pub disposition :
      json_eq (get "aggregate_disposition" document) (get "required_source_disposition" criteria)
      ≡ true
  pub gates : HasPassedGates (get "frozen_gates" document)
  pub reproduced : IsReproduced criteria (get "reproduction" document)

pub result_checks-IsAccepted :
    (source criteria : Fields) (result : Option Fields)
    → is_empty (errors_of (result_checks source criteria result)) ≡ true
    → (document : Fields) × (result ≡ some document) × IsAccepted source criteria document
unfolding result_checks
result_checks-IsAccepted source criteria none h = let failed = (without_errors-cons _ _ h).0 in cc
result_checks-IsAccepted source criteria (some document) h =
    let (valid, rest) = without_errors-cons _ _ h in
    let (schema, rest) = without_errors-cons _ _ rest in
    let (protocol, rest) = without_errors-cons _ _ rest in
    let (commit, rest) = without_errors-cons _ _ rest in
    let (digest, rest) = without_errors-cons _ _ rest in
    let (disposition, rest) = without_errors-cons _ _ rest in
    let (gates, rest) = without_errors-cons _ _ rest in
    (
      document,
      refl,
      record {
        same_schema = schema;
        same_protocol = protocol;
        same_commit = commit;
        same_digest = digest;
        disposition = disposition;
        gates = frozen_gates_pass-HasPassedGates _ gates;
        reproduced = reproduction_checks-IsReproduced criteria _ rest;
      },
    )
