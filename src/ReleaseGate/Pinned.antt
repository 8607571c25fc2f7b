-- ===== src/ReleaseGate/Pinned.antt =====
-- The checks of an identity, and what they establish of its file.
use coding_agent_reliability.Base.{
  ℕ, ◌≡◌, refl, sym, ◌∙◌, ap, ==-eq, nat_eq, string_eq, int_eq, true, Option, none, some, List, [],
  ◌∷◌, ◌++◌, String, arith, ok, Bool-cases, inl, inr,
}
use coding_agent_reliability.Base.Document.{Json, text}
use coding_agent_reliability.Base.Errors.{>>=-eq-ok, ok-injective}
use coding_agent_reliability.ReleaseGate.{
  sha256_of, Repository, Check, errors_of, is_empty, nonempty_text, identity_checks, git_blob,
  file_checks, complete_checks, blob_check,
}

is_empty-++ :
    (xs ys : List String) → is_empty (xs ++ ys) ≡ true → (is_empty xs ≡ true) × (is_empty ys ≡ true)
is_empty-++ [] ys h = (refl, h)
is_empty-++ (x ∷ xs) ys h = cc

pub errors_of-++ : (cs ds : List Check) → errors_of (cs ++ ds) ≡ errors_of cs ++ errors_of ds
unfolding errors_of
errors_of-++ [] ds = refl
errors_of-++ (c ∷ cs) ds = ground (arith, errors_of-++ cs ds)

-- Checks without an error, in two parts.
pub without_errors-++ :
    (cs ds : List Check)
    → is_empty (errors_of (cs ++ ds)) ≡ true
    → (is_empty (errors_of cs) ≡ true) × (is_empty (errors_of ds) ≡ true)
without_errors-++ cs ds h =
    is_empty-++ (errors_of cs) (errors_of ds) (ap is_empty (sym (errors_of-++ cs ds)) ∙ h)

pub without_errors-cons :
    (c : Check) (cs : List Check)
    → is_empty (errors_of (c ∷ cs)) ≡ true
    → (c.passed ≡ true) × (is_empty (errors_of cs) ≡ true)
unfolding errors_of
without_errors-cons c cs h = ground arith

-- The file and the pinned blob have the digest that the source names.
pub record IsPinned (repo : Repository) (commit path expected : Json) : Type 0 where
  pub commit_text : String
  pub path_text : String
  pub digest : String
  pub payload : List ℕ
  pub commit_read : commit ≡ text commit_text
  pub path_read : path ≡ text path_text
  pub digest_read : expected ≡ text digest
  pub present : repo.is_file path_text ≡ true
  pub current : sha256_of repo path_text ≡ ok digest
  pub has_blob : git_blob repo commit_text path_text ≡ ok (some payload)
  pub pinned : repo.hexdigest payload ≡ digest

nonempty_text-some : (v : Json) (s : String) → nonempty_text v ≡ some s → v ≡ text s
nonempty_text-some (text t) s h = ground arith
nonempty_text-some _ s h = cc

module _ (repo : Repository) (label : String) where
  blob_check-passed :
      (expected : String) (blob : Option (List ℕ))
      → (blob_check repo label expected blob).passed ≡ true
      → (payload : List ℕ) × (blob ≡ some payload) × (repo.hexdigest payload ≡ expected)
  blob_check-passed expected none h = cc
  blob_check-passed expected (some payload) h = (payload, refl, ==-eq _ _ h)

  complete_checks-cases :
      (commit path expected : Option String) (cs : List Check)
      → complete_checks repo label commit path expected ≡ ok cs
      → is_empty (errors_of cs) ≡ true
      → (c : String) × (p : String) × (d : String) × (commit ≡ some c)
        × (path ≡ some p)
        × (expected ≡ some d)
        × (repo.is_file p ≡ true)
        × (file_checks repo label c p d ≡ ok cs)
  unfolding errors_of
  complete_checks-cases none path expected cs h passed =
      absurd (let same = ok-injective h in cc (rw (← same) at passed))
  complete_checks-cases (some c) none expected cs h passed =
      absurd (let same = ok-injective h in cc (rw (← same) at passed))
  complete_checks-cases (some c) (some p) none cs h passed =
      absurd (let same = ok-injective h in cc (rw (← same) at passed))
  complete_checks-cases (some c) (some p) (some d) cs h passed =
      elim (Bool-cases (repo.is_file p)) [
        | inl present ↦ (c, p, d, refl, refl, refl, present, rw present at h)
        | inr missing ↦
            absurd (let same = ok-injective (rw missing at h) in cc (rw (← same) at passed))
      ]

  pub identity_checks-IsPinned :
      (commit path expected : Json) (cs : List Check)
      → identity_checks repo label commit path expected ≡ ok cs
      → is_empty (errors_of cs) ≡ true
      → IsPinned repo commit path expected
  unfolding identity_checks
  identity_checks-IsPinned commit path expected cs h passed =
      let (c, p, d, is_c, is_p, is_d, present, checked) =
        complete_checks-cases (nonempty_text commit) (nonempty_text path) (nonempty_text expected)
          cs h passed in
      let (current, read, rest) = >>=-eq-ok (sha256_of repo p) _ checked in
      let (blob, shown, same) = >>=-eq-ok (git_blob repo c p) _ rest in
      let (is_current, blob_passed) =
        without_errors-cons _ _ (without_errors-cons _ _ (rw (← ok-injective same) at passed)).1 in
      let (payload, has_blob, pinned) =
        blob_check-passed d blob (without_errors-cons _ _ blob_passed).0 in
      record {
        commit_text = c;
        path_text = p;
        digest = d;
        payload = payload;
        commit_read = nonempty_text-some commit c is_c;
        path_read = nonempty_text-some path p is_p;
        digest_read = nonempty_text-some expected d is_d;
        present = present;
        current = read ∙ ap ok (==-eq _ _ is_current);
        has_blob = shown ∙ ap ok has_blob;
        pinned = pinned;
      }
