-- ===== src/ReleaseGate/Verified.antt =====
-- What a passed source rests on.
use coding_agent_reliability.Base.{
  ◌≡◌, refl, sym, ◌∙◌, ap, ==-eq, nat_eq, string_eq, int_eq, Bool, true, Option, some, String, pos,
  ok, err, Error, List, ◌++◌, ℕ, ℤ, ◌==◌, Result, Bool-cases, inl, inr,
}
use coding_agent_reliability.Base.Document.{Json, text, object, Fields, get}
use coding_agent_reliability.Base.Errors.{some-injective, >>=-eq-ok, ok-injective, map_ok}
use coding_agent_reliability.ReleaseGate.{
  Repository, both, Check, loaded_of, Loaded, parsed, malformed, raised, SourceResult, errors_of,
  is_empty, source_result, source_checks, source_identities, result_checks, verifier_passes,
  read_result, loaded_result, evaluate_source,
}
use coding_agent_reliability.ReleaseGate.Pinned.{
  without_errors-cons, without_errors-++, IsPinned, identity_checks-IsPinned,
}
use coding_agent_reliability.ReleaseGate.Accepted.{IsAccepted, result_checks-IsAccepted}

loaded_of-parsed :
    (loads : List ℕ → Loaded) (r : Result (List ℕ)) (v : Json)
    → loaded_of loads r ≡ parsed v
    → (bytes : List ℕ) × (r ≡ ok bytes) × (loads bytes ≡ parsed v)
loaded_of-parsed loads (ok bytes) v h = (bytes, refl, h)
loaded_of-parsed loads (err Error.os_error) v h = cc
loaded_of-parsed loads (err _) v h = cc

loaded_result-some :
    (l : Loaded) (document : Fields)
    → loaded_result l ≡ ok (some document)
    → l ≡ parsed (object document)
loaded_result-some (parsed (object fs)) document h =
    ap (λ x. parsed (object x)) (some-injective (ok-injective h))
loaded_result-some (parsed _) document h = cc
loaded_result-some malformed document h = cc
loaded_result-some (raised error) document h = cc

read_result-some :
    (repo : Repository) (path : Json) (document : Fields)
    → read_result repo path ≡ ok (some document)
    → (p : String) × (path ≡ text p)
      × (bytes : List ℕ) × (repo.read_bytes p ≡ ok bytes)
      × (repo.loads bytes ≡ parsed (object document))
unfolding read_result
read_result-some repo (text p) document h = elim (Bool-cases (repo.is_file p)) [
  | inl present ↦
      let (bytes, read, loaded) =
        loaded_of-parsed repo.loads (repo.read_bytes p) _
          (loaded_result-some _ document (rw present at h)) in
      (p, refl, bytes, read, loaded)
  | inr missing ↦ absurd (let e = rw missing at h in cc e)
]
read_result-some repo _ document h = cc

both-eq-ok :
    {A : Type 0} (r s : Result (List A)) {zs : List A}
    → both r s ≡ ok zs
    → (xs : List A) × (ys : List A) × (r ≡ ok xs) × (s ≡ ok ys) × (zs ≡ xs ++ ys)
both-eq-ok r s h =
    let (xs, first, rest) = >>=-eq-ok r _ h in
    let (ys, second, same) = >>=-eq-ok s _ rest in (xs, ys, first, second, sym (ok-injective same))

text-injective : {s t : String} → text s ≡ text t → s ≡ t
text-injective same = cc

returned_zero : (r : Result ℤ) → map_ok (λ s. s == pos 0) r ≡ ok true → r ≡ ok (pos 0)
returned_zero (ok status) h = ap ok (==-eq status (pos 0) (ok-injective h))
returned_zero (err e) h = cc

verifier_passes-ran :
    (repo : Repository) (path : Json)
    → verifier_passes repo path ≡ ok true
    → (p : String) × (path ≡ text p) × (repo.run_verifier p ≡ ok (pos 0))
verifier_passes-ran repo (text p) h = elim (Bool-cases (repo.is_file p)) [
  | inl present ↦ (p, refl, returned_zero (repo.run_verifier p) (rw present at h))
  | inr missing ↦ absurd (let e = rw missing at h in cc e)
]
verifier_passes-ran repo _ h = cc

module _ (repo : Repository) (repr : Json → String) where
  -- What a passed source rests on.
  pub record IsVerified (criteria source : Fields) : Type 0 where
    pub protocol :
        IsPinned repo
          (get "freeze_commit_sha" source)
          (get "protocol_path" source)
          (get "protocol_sha256" source)
    pub result :
        IsPinned repo
          (get "result_commit_sha" source)
          (get "result_path" source)
          (get "result_sha256" source)
    pub verifier :
        IsPinned repo
          (get "result_commit_sha" source)
          (get "result_verifier_path" source)
          (get "result_verifier_sha256" source)
    pub document : Fields
    pub bytes : List ℕ
    pub read : repo.read_bytes result.path_text ≡ ok bytes
    pub loaded : repo.loads bytes ≡ parsed (object document)
    pub accepted : IsAccepted source criteria document
    pub ran : repo.run_verifier verifier.path_text ≡ ok (pos 0)

  source_identities-IsPinned :
      (source : Fields) (cs : List Check)
      → source_identities repo source ≡ ok cs
      → is_empty (errors_of cs) ≡ true
      → IsPinned repo
          (get "freeze_commit_sha" source)
          (get "protocol_path" source)
          (get "protocol_sha256" source)
        × IsPinned repo
            (get "result_commit_sha" source)
            (get "result_path" source)
            (get "result_sha256" source)
        × IsPinned repo
            (get "result_commit_sha" source)
            (get "result_verifier_path" source)
            (get "result_verifier_sha256" source)
  unfolding source_identities
  source_identities-IsPinned source cs h passed =
      let (first, others, protocol, both_others, same) = both-eq-ok _ _ h in
      let (second, third, result, verifier, same_others) = both-eq-ok _ _ both_others in
      let (first_passed, rest_passed) = without_errors-++ first others (rw same at passed) in
      let (second_passed, third_passed) =
        without_errors-++ second third (rw same_others at rest_passed) in
      (
        identity_checks-IsPinned repo "protocol" _ _ _ first protocol first_passed,
        identity_checks-IsPinned repo "result" _ _ _ second result second_passed,
        identity_checks-IsPinned repo "result_verifier" _ _ _ third verifier third_passed,
      )

  source_checks-IsVerified :
      (source criteria : Fields) (cs : List Check) (result : Option Fields) (verified : Bool)
      → source_identities repo source ≡ ok cs
      → read_result repo (get "result_path" source) ≡ ok result
      → verifier_passes repo (get "result_verifier_path" source) ≡ ok verified
      → is_empty (errors_of (source_checks source criteria cs result verified)) ≡ true
      → IsVerified criteria source
  unfolding source_checks
  source_checks-IsVerified source criteria cs result verified identified read verifies h =
      let (identities, rest) = without_errors-++ cs _ h in
      let (agreed, last) = without_errors-++ (result_checks source criteria result) _ rest in
      let (protocol, own, verifier) = source_identities-IsPinned source cs identified identities in
      let (document, is_document, accepted) =
        result_checks-IsAccepted source criteria result agreed in
      let (path, is_path, bytes, has_bytes, loaded) =
        read_result-some repo _ document (read ∙ ap ok is_document) in
      let (tool, is_tool, ran) =
        verifier_passes-ran repo _ (verifies ∙ ap ok (without_errors-cons _ _ last).0) in
      record {
        protocol = protocol;
        result = own;
        verifier = verifier;
        document = document;
        bytes = bytes;
        read = ap repo.read_bytes (text-injective (sym own.path_read ∙ is_path)) ∙ has_bytes;
        loaded = loaded;
        accepted = accepted;
        ran = ap repo.run_verifier (text-injective (sym verifier.path_read ∙ is_tool)) ∙ ran;
      }

  -- When `evaluate_source` returns a source that has passed, the three files are there with the digests
  -- that the source names, now and in the commit, the result is an object with the source's values and
  -- the required disposition, at least one frozen gate and every frozen gate passed, enough recorded
  -- runs, and the verifier has returned 0.
  pub evaluate_source-IsVerified :
      (criteria source : Fields) (r : SourceResult)
      → evaluate_source repo repr criteria source ≡ ok r
      → r.passed ≡ true
      → IsVerified criteria source
  unfolding evaluate_source source_result
  evaluate_source-IsVerified criteria source r h passed =
      let (cs, identified, rest) = >>=-eq-ok (source_identities repo source) _ h in
      let (result, read, rest) = >>=-eq-ok (read_result repo (get "result_path" source)) _ rest in
      let (verified, verifies, same) =
        >>=-eq-ok (verifier_passes repo (get "result_verifier_path" source)) _ rest in
      source_checks-IsVerified source criteria cs result verified identified read verifies
        (ap (λ x. x.passed) (ok-injective same) ∙ passed)
