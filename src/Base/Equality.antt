-- ===== src/Base/Equality.antt =====
-- Python's `==` as a Boolean test that stands on a decision, so that every branch on it has the
-- equation, and the conditional expression.
use Prim.Native.String.{String}
use mathlib.Core.Path.{◌≡◌, refl}
use mathlib.Core.Logic.{◌↔◌, ◌≢◌, ◌⊎◌, inl, inr}
use mathlib.Core.Bool.{Bool, true, false}
use mathlib.Core.Option.{Option, none, some}
use mathlib.Core.List.{List}
use native.Mathlib.Decide.{ℕ_discrete}
use Prim.Native.Nat.{ℕ}
use native.Mathlib.Omega.{arith}
use text.Mathlib.Text.{◌==◌ as str_eq}
use text.Mathlib.TextEquality.{eq_iff}

infix 1 if◌then◌else◌
abbrev pub if◌then◌else◌ {ℓ} : {A : Type ℓ} → Bool → A → A → A
if true then x else y = x
if false then x else y = y

-- To split on a computed value and keep the equation.
pub Bool-cases : (b : Bool) → (b ≡ true) ⊎ (b ≡ false)
Bool-cases true = inl refl
Bool-cases false = inr refl

pub Option-cases {ℓ} : {A : Type ℓ} (o : Option A) → (o ≡ none) ⊎ ((a : A) × (o ≡ some a))
Option-cases none = inl refl
Option-cases (some a) = inr (a, refl)

-- The test that a decision makes.
abbrev pub is_yes {ℓ} : {A : Type ℓ} → Dec A → Bool
is_yes (yes _) = true
is_yes (no _) = false

-- A type whose values Python compares by `==`.
pub record DecEq {ℓ} (A : Type ℓ) : Type ℓ where
  pub dec : Discrete A

infix 50 ◌==◌
abbrev pub ◌==◌ {ℓ} : {A : Type ℓ} ⦃e : DecEq A⦄ → A → A → Bool
◌==◌ ⦃e⦄ a b = is_yes (e.dec a b)

abbrev dec_of : {A : Type 0} (a b : A) (t : Bool) → (t ≡ true) ↔ (a ≡ b) → Dec (a ≡ b)
dec_of a b true h = yes (h.0 refl)
dec_of a b false h = no (λ e. cc (h.1 e))

-- Texts are equal when they have the same characters.
unfoldable pub String-discrete : Discrete String
String-discrete a b = dec_of a b (str_eq a b) (eq_iff a b)

unfoldable pub optional_text_discrete : Discrete (Option String)
unfolding String-discrete
optional_text_discrete = hlevel String-discrete

unfoldable pub text_pair_discrete : Discrete (String × String)
unfolding String-discrete
text_pair_discrete = hlevel String-discrete

instance abbrev pub text_pair_eq : DecEq (String × String)
text_pair_eq = record { dec = text_pair_discrete }

instance abbrev pub nat_eq : DecEq ℕ
nat_eq = record { dec = ℕ_discrete }

instance abbrev pub string_eq : DecEq String
string_eq = record { dec = String-discrete }

instance abbrev pub optional_text_eq : DecEq (Option String)
optional_text_eq = record { dec = optional_text_discrete }

-- `==` decides equality.
pub ==-eq {ℓ} : {A : Type ℓ} ⦃e : DecEq A⦄ (a b : A) → (a == b) ≡ true → a ≡ b
==-eq a b h = ground arith

pub ==_refl {ℓ} : {A : Type ℓ} ⦃e : DecEq A⦄ (a : A) → (a == a) ≡ true
==_refl a = ground arith

pub ==-ne {ℓ} : {A : Type ℓ} ⦃e : DecEq A⦄ (a b : A) → (a == b) ≡ false → a ≢ b
==-ne a b h = ground arith

unfoldable pub number_list_discrete : Discrete (List ℕ)
number_list_discrete = hlevel ℕ_discrete

instance abbrev pub number_list_eq : DecEq (List ℕ)
number_list_eq = record { dec = number_list_discrete }

unfoldable pub texts_discrete : Discrete (List String)
unfolding String-discrete
texts_discrete = hlevel String-discrete

instance abbrev pub texts_eq : DecEq (List String)
texts_eq = record { dec = texts_discrete }
