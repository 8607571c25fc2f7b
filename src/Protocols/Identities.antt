-- ===== src/Protocols/Identities.antt =====
-- The verifier of the gate's protocol and the gate itself agree on the identities of a source.
use coding_agent_reliability.Base.{
  ◌≡◌, refl, sym, ◌∙◌, ap, ℕ, Bool, true, false, ◌&&◌, Option, none, some, List, [], ◌∷◌, ◌++◌,
  String, string_eq, ◌==◌, arith, inl, inr, Bool-cases, Result, ok, err,
}
use coding_agent_reliability.Base.Errors.{◌>>=◌, map_ok, ok-injective}
use coding_agent_reliability.Base.Messages.{unless}
use coding_agent_reliability.Base.Document.{Json, array, object, Items, Fields, get, find, items}
use coding_agent_reliability.ReleaseGate.{
  Repository, Check, errors_of, is_empty, identity_checks, source_identities, nonempty_text,
  git_blob, sha256_of, source_id_of, complete_checks, digest_checks, blob_check, check, labelled,
  both,
}
use coding_agent_reliability.ReleaseGate.Pinned.{errors_of-++}
use coding_agent_reliability.ReleaseGate.Release.{source_objects}
use coding_agent_reliability.Protocols.Sources.{
  source_message, identity_errors, complete_errors, blob_errors, digest_errors, source_errors,
  all_source_errors, verify_source_identities,
}

-- Each of the gate's sources passes its checks of the three identities.
unfoldable pub identities_pass : Repository → List Fields → Result Bool
identities_pass repo [] = ok true
identities_pass repo (source ∷ sources) = source_identities repo source >>= λ checks.
    identities_pass repo sources >>= λ others. ok (is_empty (errors_of checks) && others)

unfoldable pub all_objects : List Json → Bool
all_objects [] = true
all_objects (object fs ∷ values) = all_objects values
all_objects (_ ∷ values) = false

is_empty_append : (xs ys : List String) → is_empty (xs ++ ys) ≡ (is_empty xs && is_empty ys)
is_empty_append [] ys = refl
is_empty_append (x ∷ xs) ys = refl

-- Two blocks raise the same, or both return and agree whether there are errors.
abbrev SameVerdict : Result (List String) → Result (List Check) → Type 0
SameVerdict errors checks = map_ok is_empty errors ≡ map_ok (λ cs. is_empty (errors_of cs)) checks

SameVerdict-both :
    (r s : Result (List String)) (p q : Result (List Check))
    → SameVerdict r p
    → SameVerdict s q
    → SameVerdict (both r s) (both p q)
SameVerdict-both (err e) s (err d) q h k = h
SameVerdict-both (err e) s (ok cs) q h k = cc
SameVerdict-both (ok xs) s (err d) q h k = cc
SameVerdict-both (ok xs) (err e) (ok cs) (err d) h k = k
SameVerdict-both (ok xs) (err e) (ok cs) (ok ds) h k = cc
SameVerdict-both (ok xs) (ok ys) (ok cs) (err d) h k = cc
SameVerdict-both (ok xs) (ok ys) (ok cs) (ok ds) h k = ap ok (
    is_empty_append xs ys
    ∙ rw (ok-injective h, ok-injective k, errors_of-++)
        (sym (is_empty_append (errors_of cs) (errors_of ds))))

module _ (repo : Repository) (id label : String) where
  digest_agree :
      (expected : String) (matches : Bool) (blob : Option (List ℕ)) (message name fault : String)
      → is_empty (unless matches message ++ blob_errors repo id label expected blob)
        ≡ is_empty (errors_of (check name matches fault ∷ blob_check repo label expected blob ∷ []))
  unfolding unless errors_of
  digest_agree expected true none message name fault = refl
  digest_agree expected false none message name fault = refl
  digest_agree expected true (some payload) message name fault = ground arith
  digest_agree expected false (some payload) message name fault = refl

  present_agree :
      (expected : String) (current : Result String) (blob : Result (Option (List ℕ)))
      → SameVerdict
          (current >>= λ digest.
            blob >>= λ payload. ok (digest_errors repo id label expected digest payload))
          (current >>= λ digest.
            blob >>= λ payload. ok (digest_checks repo label expected digest payload))
  unfolding errors_of
  present_agree expected (err e) blob = refl
  present_agree expected (ok digest) (err e) = refl
  present_agree expected (ok digest) (ok payload) = ap ok (
      digest_agree expected (digest == expected) payload
        (source_message id label "current bytes are stale or mismatched")
        (labelled label "_current_sha256_matches") (labelled label "_current_sha256_mismatch"))

  complete_agree :
      (c p d : Option String)
      → SameVerdict (complete_errors repo id label c p d) (complete_checks repo label c p d)
  unfolding errors_of
  complete_agree none p d = refl
  complete_agree (some c) none d = refl
  complete_agree (some c) (some p) none = refl
  complete_agree (some c) (some p) (some d) = elim (Bool-cases (repo.is_file p)) [
    | inl found ↦ rw found (present_agree d (sha256_of repo p) (git_blob repo c p))
    | inr missing ↦ rw missing refl
  ]

  -- The two fail on the same identities.
  identity_agree :
      (commit path expected : Json)
      → SameVerdict
          (identity_errors repo id label commit path expected)
          (identity_checks repo label commit path expected)
  unfolding identity_errors identity_checks
  identity_agree commit path expected =
      complete_agree (nonempty_text commit) (nonempty_text path) (nonempty_text expected)

source_cons :
    (own : Result (List String)) (rest : Result (List String)) (p : Result (List Check))
    (q : Result Bool) (b : Bool)
    → SameVerdict own p
    → map_ok is_empty rest ≡ map_ok (λ passes. b && passes) q
    → map_ok is_empty (both own rest)
      ≡ map_ok
          (λ passes. b && passes)
          (p >>= λ checks. q >>= λ others. ok (is_empty (errors_of checks) && others))
source_cons (err e) rest (err d) q b h k = cc
source_cons (err e) rest (ok cs) q b h k = cc
source_cons (ok xs) rest (err d) q b h k = cc
source_cons (ok xs) (err e) (ok cs) (err d) b h k = k
source_cons (ok xs) (err e) (ok cs) (ok c) b h k = cc
source_cons (ok xs) (ok ys) (ok cs) (err d) b h k = cc
source_cons (ok xs) (ok ys) (ok cs) (ok c) b h k =
    ap ok (is_empty_append xs ys ∙ rw (ok-injective h, ok-injective k) (ground arith))

other_cons :
    (message : String) (rest : Result (List String)) (q : Result Bool) (b : Bool)
    → map_ok is_empty rest ≡ map_ok (λ passes. b && passes) q
    → map_ok is_empty (both (ok (message ∷ [])) rest) ≡ map_ok (λ passes. false && passes) q
other_cons message (err e) (err d) b h = cc
other_cons message (err e) (ok c) b h = cc
other_cons message (ok xs) (err d) b h = cc
other_cons message (ok xs) (ok c) b h = refl

module _ (repo : Repository) where
  source_agree :
      (id : String) (source : Fields)
      → SameVerdict (source_errors repo id source) (source_identities repo source)
  unfolding source_errors source_identities
  source_agree id source = SameVerdict-both _ _ _ _ (identity_agree repo id "protocol" _ _ _) (
      SameVerdict-both _ _ _ _ (identity_agree repo id "result" _ _ _)
        (identity_agree repo id "result_verifier" _ _ _))

  all_agree :
      (repr : Json → String) (sources : List Json)
      → map_ok is_empty (all_source_errors repo repr sources)
        ≡ map_ok
            (λ passes. all_objects sources && passes)
            (identities_pass repo (source_objects sources))
  unfolding all_source_errors identities_pass all_objects source_objects
  all_agree repr [] = refl
  all_agree repr (object source ∷ sources) =
      source_cons (source_errors repo (source_id_of repr (find "id" source)) source) _
        (source_identities repo source) _ (all_objects sources)
        (source_agree (source_id_of repr (find "id" source)) source) (all_agree repr sources)
  all_agree repr (_ ∷ sources) =
      other_cons _ _ (identities_pass repo (source_objects sources)) (all_objects sources)
        (all_agree repr sources)

  -- On a list of sources, `verify_source_identities` of the protocol's verifier raises what the checks of
  -- the identities in `evaluate_source` raise on the sources that the gate evaluates; where these
  -- return, it finds no error exactly if every source is an object and the checks pass for each. The
  -- gate itself skips sources that are no objects.
  pub verify_source_identities_agree :
      (repr : Json → String) (evidence : Fields) (sources : Items)
      → get "sources" evidence ≡ array sources
      → map_ok is_empty (verify_source_identities repo repr evidence)
        ≡ map_ok
            (λ passes. all_objects (items sources) && passes)
            (identities_pass repo (source_objects (items sources)))
  unfolding verify_source_identities
  verify_source_identities_agree repr evidence sources listed =
      rw listed (all_agree repr (items sources))
