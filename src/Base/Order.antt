-- ===== src/Base/Order.antt =====
-- What the order check on sequence numbers decides.
use coding_agent_reliability.Base.{
  ◌≡◌, refl, ◌↔◌, true, false, ◌&&◌, List, [], ◌∷◌, arith, ◌==◌, ==_refl, ℤ, int_eq, ◌≤ℤ◌, ◌<ℤ◌,
  eq_of_parts, ap, nat_eq, int_list_eq, length, contains, dedup, dedup_keeps, insert_sorted, sorted,
  is_unique_increasing, Increasing,
}

-- No number is above the next one.
abbrev Ordered : List ℤ → Type 0
Ordered [] = Unit
Ordered (x ∷ []) = Unit
Ordered (x ∷ y ∷ ys) = (x ≤ℤ y) × Ordered (y ∷ ys)

insert_sorted-Ordered : (x : ℤ) (xs : List ℤ) → Ordered xs → Ordered (insert_sorted x xs)
unfolding insert_sorted
insert_sorted-Ordered x [] h = tt
insert_sorted-Ordered x (y ∷ []) h = ground arith
insert_sorted-Ordered x (y ∷ z ∷ zs) h = ground (arith, insert_sorted-Ordered x (z ∷ zs) h.1)

sorted-Ordered : (xs : List ℤ) → Ordered (sorted xs)
unfolding sorted
sorted-Ordered [] = tt
sorted-Ordered (x ∷ xs) = insert_sorted-Ordered x (sorted xs) (sorted-Ordered xs)

apart : (x y : ℤ) (ys : List ℤ) → x ≤ℤ y → contains x (y ∷ ys) ≡ false → x <ℤ y
unfolding contains
apart x y ys h new = grind (arith, eq_of_parts x y)

Ordered-Increasing : (xs : List ℤ) → Ordered xs → length xs ≡ length (dedup xs) → Increasing xs
Ordered-Increasing [] o d = tt
Ordered-Increasing (x ∷ []) o d = tt
Ordered-Increasing (x ∷ y ∷ ys) o d =
    let (new, rest) = dedup_keeps x (y ∷ ys) d in
    (apart x y ys o.0 new, Ordered-Increasing (y ∷ ys) o.1 rest)

Increasing-tail : (x : ℤ) (xs : List ℤ) → Increasing (x ∷ xs) → Increasing xs
Increasing-tail x [] h = tt
Increasing-tail x (y ∷ ys) h = h.1

-- In an increasing list the first number is not met again.
Increasing-fresh :
    (w x : ℤ) (xs : List ℤ) → w <ℤ x → Increasing (x ∷ xs) → contains w (x ∷ xs) ≡ false
unfolding contains
Increasing-fresh w x [] h i = ground arith
Increasing-fresh w x (y ∷ ys) h i = ground (arith, Increasing-fresh w y ys)

dedup-Increasing : (xs : List ℤ) → Increasing xs → dedup xs ≡ xs
unfolding dedup
dedup-Increasing [] h = refl
dedup-Increasing (x ∷ []) h = refl
dedup-Increasing (x ∷ y ∷ ys) h =
    rw (Increasing-fresh x y ys h.0 h.1) (ap (λ r. x ∷ r) (dedup-Increasing (y ∷ ys) h.1))

sorted-Increasing : (xs : List ℤ) → Increasing xs → sorted xs ≡ xs
unfolding sorted
sorted-Increasing [] h = refl
sorted-Increasing (x ∷ []) h = refl
sorted-Increasing (x ∷ y ∷ ys) h = rw (sorted-Increasing (y ∷ ys) h.1) (ground arith)

-- The order check passes exactly on strictly increasing sequence numbers.
pub is_unique_increasing_iff : (xs : List ℤ) → (is_unique_increasing xs ≡ true) ↔ Increasing xs
unfolding is_unique_increasing
is_unique_increasing_iff xs = (
  λ h. Ordered-Increasing xs (rw (checked h).0 (sorted-Ordered xs)) (checked h).1,
  λ i. simp (sorted-Increasing xs i, dedup-Increasing xs i, ==_refl),
)
  where
    checked :
        (xs == sorted xs && length xs == length (dedup xs)) ≡ true
        → (xs ≡ sorted xs) × (length xs ≡ length (dedup xs))
    checked h = ground arith
