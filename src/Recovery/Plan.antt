-- ===== src/Recovery/Plan.antt =====
-- The JSON text that a run is bound to determines its plan.
use coding_agent_reliability.Base.{◌≡◌, refl, List, [], ◌∷◌, map, String, arith, ap, ◌++◌, ℕ}
use coding_agent_reliability.Base.Json.{
  encode_string, encode_array, encode_string-IsCode, encode_array-IsCode,
}
use coding_agent_reliability.Recovery.{RecoveryOperation, plan_json}

abbrev texts : RecoveryOperation → List String
texts o = o.operation_id ∷ o.tool ∷ o.payload ∷ []

texts_unique : (o p : RecoveryOperation) → texts o ≡ texts p → o ≡ p
texts_unique o p h = ground arith

map-texts_unique : (xs ys : List RecoveryOperation) → map texts xs ≡ map texts ys → xs ≡ ys
map-texts_unique [] [] h = refl
map-texts_unique [] (y ∷ ys) h = cc
map-texts_unique (x ∷ xs) [] h = cc
map-texts_unique (x ∷ xs) (y ∷ ys) h = cc (texts_unique x y (cc), map-texts_unique xs ys (cc))

-- Two plans with the same JSON text are the same plan: the same operations in the same order, with the
-- same identities, tools and payloads, whatever characters these hold.
pub plan_json-injective : (xs ys : List RecoveryOperation) → plan_json xs ≡ plan_json ys → xs ≡ ys
unfolding plan_json
plan_json-injective xs ys h =
    let code =
      encode_array-IsCode (encode_array encode_string)
        (encode_array-IsCode encode_string encode_string-IsCode) in
    map-texts_unique xs ys
      (code.unique (map texts xs) (map texts ys) [] [] (ap (λ (t : List ℕ). t ++ []) h)).0
