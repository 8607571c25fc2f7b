-- ===== src/Base/Messages.antt =====
-- A list of error messages that a check appends to.
use mathlib.Core.Path.{◌≡◌, refl}
use mathlib.Core.Bool.{Bool, true, false}
use mathlib.Core.List.{List, [], ◌∷◌, ◌++◌}
use Prim.Native.String.{String}
use coding_agent_reliability.Base.Equality.{if◌then◌else◌}

-- `if not test: errors.append(message)`
unfoldable pub unless : Bool → String → List String
unless test message = if test then [] else message ∷ []

pub ++-nothing {ℓ} : {A : Type ℓ} (xs ys : List A) → xs ++ ys ≡ [] → (xs ≡ []) × (ys ≡ [])
++-nothing [] ys h = (refl, h)
++-nothing (x ∷ xs) ys h = cc

pub unless-nothing : (b : Bool) (m : String) → unless b m ≡ [] → b ≡ true
unfolding unless
unless-nothing true m h = refl
unless-nothing false m h = cc

-- The messages of several checks, one after the other.
unfoldable pub gather : List (List String) → List String
gather [] = []
gather (messages ∷ others) = messages ++ gather others

pub gather-nothing :
    (messages : List String) (others : List (List String))
    → gather (messages ∷ others) ≡ []
    → (messages ≡ []) × (gather others ≡ [])
unfolding gather
gather-nothing messages others h = ++-nothing messages (gather others) h
