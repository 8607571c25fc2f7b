-- ===== src/Reconciliation/Identity.antt =====
-- What the digest of an effect identifies.
use coding_agent_reliability.Base.{ℕ, ◌≡◌, List, [], ◌∷◌, ◌++◌, arith, string_eq, ap}
use coding_agent_reliability.Base.Json.{encode_string, encode_string-IsCode, encode_array-IsCode}
use coding_agent_reliability.Reconciliation.{ExternalOperation, canonical}

-- The canonical text determines the operation: provider, identity, tool and payload, whatever
-- characters these hold.
pub canonical-injective : (a b : ExternalOperation) → canonical a ≡ canonical b → a ≡ b
unfolding canonical
canonical-injective a b h =
    let same =
      (encode_array-IsCode encode_string encode_string-IsCode).unique
        (a.provider ∷ a.operation_id ∷ a.tool ∷ a.payload ∷ [])
        (b.provider ∷ b.operation_id ∷ b.tool ∷ b.payload ∷ []) [] []
        (ap (λ (t : List ℕ). t ++ []) h) in
    ground (arith, same.0)
