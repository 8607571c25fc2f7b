-- ===== src/Base/Dict.antt =====
-- A Python dict in insertion order, and a table of rows with a primary key.
use mathlib.Core.Path.{◌≡◌, refl}
use mathlib.Core.Bool.{Bool, true, false}
use mathlib.Core.Option.{Option, none, some}
use mathlib.Core.List.{List, [], ◌∷◌, ◌++◌}
use native.Mathlib.Omega.{arith}
use coding_agent_reliability.Base.Equality.{DecEq, ◌==◌, if◌then◌else◌}

abbrev pub is_some {ℓ} : {A : Type ℓ} → Option A → Bool
is_some none = false
is_some (some _) = true

module _ {ℓ κ} {K : Type ℓ} {V : Type κ} ⦃e : DecEq K⦄ where
  -- `d.get(k)`, `SELECT ... WHERE key = k`
  unfoldable pub lookup : K → List (K × V) → Option V
  lookup k [] = none
  lookup k ((j, v) ∷ d) = if j == k then some v else lookup k d

  -- `d[k] = v`, `INSERT ... ON CONFLICT DO UPDATE`: an old key keeps its place.
  unfoldable pub insert : K → V → List (K × V) → List (K × V)
  insert k v [] = (k, v) ∷ []
  insert k v ((j, w) ∷ d) = if j == k then (k, v) ∷ d else (j, w) ∷ insert k v d

  pub lookup-insert :
      (k j : K) (v : V) (d : List (K × V))
      → lookup j (insert k v d) ≡ (if k == j then some v else lookup j d)
  unfolding lookup insert
  lookup-insert k j v [] = refl
  lookup-insert k j v ((i, w) ∷ d) = ground (arith, lookup-insert k j v d)

  -- A row at the end of a table shows where its key is new.
  pub lookup-append :
      (k j : K) (v : V) (d : List (K × V))
      → lookup k d ≡ none
      → lookup j (d ++ (k, v) ∷ []) ≡ (if k == j then some v else lookup j d)
  unfolding lookup
  lookup-append k j v [] h = refl
  lookup-append k j v ((i, w) ∷ d) h = ground (arith, lookup-append k j v d)
