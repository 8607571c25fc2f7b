-- ===== src/Base/Lists.antt =====
-- Lists measured by native numbers, Python's `sorted`, `set` and `in`, and the order check that
-- every replay makes on its sequence numbers.
use Prim.Native.Nat.{ℕ, zero, suc, ◌+◌, ◌≤◌}
use mathlib.Core.Path.{◌≡◌, refl}
use mathlib.Core.Logic.{inl, inr}
use mathlib.Core.Bool.{Bool, false, ◌&&◌, ◌||◌}
use mathlib.Core.List.{List, [], ◌∷◌, ◌++◌}
use native.Mathlib.Omega.{arith}
use coding_agent_reliability.Base.Equality.{Bool-cases, DecEq, nat_eq, ◌==◌, if◌then◌else◌}
use coding_agent_reliability.Base.Int.{ℤ, ◌<ℤ◌, leb_ℤ, int_list_eq, int_eq}

module _ {ℓ} {A : Type ℓ} where
  abbrev pub length : List A → ℕ
  length [] = 0
  length (x ∷ xs) = suc (length xs)

  abbrev pub drop : ℕ → List A → List A
  drop zero xs = xs
  drop (suc n) [] = []
  drop (suc n) (x ∷ xs) = drop n xs

  abbrev pub take : ℕ → List A → List A
  take zero xs = []
  take (suc n) [] = []
  take (suc n) (x ∷ xs) = x ∷ take n xs

  pub length-append : (xs ys : List A) → length (xs ++ ys) ≡ length xs + length ys
  length-append [] ys = omega arith
  length-append (x ∷ xs) ys = omega (arith, length-append xs ys)

-- What holds of every element.
abbrev pub All {ℓ κ} : {A : Type ℓ} → (A → Type κ) → List A → Type κ
All P [] = Unit
All P (x ∷ xs) = P x × All P xs

module _ {ℓ} {A : Type ℓ} ⦃e : DecEq A⦄ where
  -- `a in xs`
  unfoldable pub contains : A → List A → Bool
  contains a [] = false
  contains a (x ∷ xs) = x == a || contains a xs

  pub contains-append :
      (a : A) (xs ys : List A) → contains a (xs ++ ys) ≡ (contains a xs || contains a ys)
  unfolding contains
  contains-append a [] ys = refl
  contains-append a (x ∷ xs) ys = ground (arith, contains-append a xs ys)

  -- How often an element stands in a list.
  unfoldable pub count : A → List A → ℕ
  count a [] = 0
  count a (x ∷ xs) = if x == a then suc (count a xs) else count a xs

  pub count-append : (a : A) (xs ys : List A) → count a (xs ++ ys) ≡ count a xs + count a ys
  unfolding count
  count-append a [] ys = omega arith
  count-append a (x ∷ xs) ys = ground (arith, count-append a xs ys)

  -- The elements of `set(xs)`.
  unfoldable pub dedup : List A → List A
  unfolding contains
  dedup [] = []
  dedup (x ∷ xs) = let rest = dedup xs in if contains x xs then rest else x ∷ rest

  pub length-dedup-le : (xs : List A) → length (dedup xs) ≤ length xs
  unfolding dedup
  length-dedup-le [] = omega arith
  length-dedup-le (x ∷ xs) = ground (arith, length-dedup-le xs)

  -- With no element dropped, the first one does not come again.
  pub dedup_keeps :
      (x : A) (xs : List A)
      → length (x ∷ xs) ≡ length (dedup (x ∷ xs))
      → (contains x xs ≡ false) × (length xs ≡ length (dedup xs))
  unfolding dedup
  dedup_keeps x xs h = elim (Bool-cases (contains x xs)) [
    | inl old ↦ absurd (ground (arith, length-dedup-le xs))
    | inr new ↦ ground (arith, length-dedup-le xs)
  ]

  -- Nor does any other.
  pub dedup_apart :
      (xs : List A) (x : A) (ys : List A) (y : A) (zs : List A)
      → length (xs ++ x ∷ (ys ++ y ∷ zs)) ≡ length (dedup (xs ++ x ∷ (ys ++ y ∷ zs)))
      → (y == x) ≡ false
  unfolding contains
  dedup_apart [] x ys y zs h =
      let (new, rest) = dedup_keeps x (ys ++ y ∷ zs) h in
      ground (arith, new, contains-append x ys (y ∷ zs))
  dedup_apart (w ∷ xs) x ys y zs h =
      dedup_apart xs x ys y zs (dedup_keeps w (xs ++ x ∷ (ys ++ y ∷ zs)) h).1

unfoldable pub insert_sorted : ℤ → List ℤ → List ℤ
insert_sorted x [] = x ∷ []
insert_sorted x (y ∷ ys) = if leb_ℤ x y then x ∷ y ∷ ys else y ∷ insert_sorted x ys

-- `sorted(xs)`
unfoldable pub sorted : List ℤ → List ℤ
unfolding insert_sorted
sorted [] = []
sorted (x ∷ xs) = insert_sorted x (sorted xs)

-- The negation of `sequences != sorted(sequences) or len(sequences) != len(set(sequences))`.
unfoldable pub is_unique_increasing : List ℤ → Bool
unfolding sorted dedup
is_unique_increasing xs = xs == sorted xs && length xs == length (dedup xs)

-- Every number is below the next one.
abbrev pub Increasing : List ℤ → Type 0
Increasing [] = Unit
Increasing (x ∷ []) = Unit
Increasing (x ∷ y ∷ ys) = (x <ℤ y) × Increasing (y ∷ ys)
