-- ===== src/Base/Sorting.antt =====
-- Texts in the order of Python, and rows that SQLite returns `ORDER BY` a text: both are the order of
-- the code points.
use Prim.Native.Nat.{Ordering}
use Prim.Native.String.{String, compare}
use mathlib.Core.Bool.{Bool, true, false}
use mathlib.Core.List.{List, [], ◌∷◌}
use coding_agent_reliability.Base.Equality.{if◌then◌else◌}

abbrev pub not_above : String → String → Bool
not_above a b = elim (compare a b) [ Ordering.gt ↦ false | _ ↦ true ]

module _ {ℓ} {V : Type ℓ} where
  unfoldable pub insert_by_id : String × V → List (String × V) → List (String × V)
  insert_by_id n [] = n ∷ []
  insert_by_id n (m ∷ ms) = if not_above n.0 m.0 then n ∷ m ∷ ms else m ∷ insert_by_id n ms

  unfoldable pub sort_by_id : List (String × V) → List (String × V)
  unfolding insert_by_id
  sort_by_id [] = []
  sort_by_id (n ∷ ns) = insert_by_id n (sort_by_id ns)

unfoldable pub insert_text : String → List String → List String
insert_text v [] = v ∷ []
insert_text v (w ∷ ws) = if not_above v w then v ∷ w ∷ ws else w ∷ insert_text v ws

-- `sorted(texts)`
unfoldable pub sorted_texts : List String → List String
unfolding insert_text
sorted_texts [] = []
sorted_texts (v ∷ vs) = insert_text v (sorted_texts vs)
