-- ===== src/Base/Errors.antt =====
-- The exceptions that the package raises, and what a call that may raise returns. Messages are not
-- modelled.
use mathlib.Core.Path.{◌≡◌, refl}
use mathlib.Core.Logic.{◌⊎◌, inl, inr}
use mathlib.Core.Bool.{Bool, true, false}
use mathlib.Core.Option.{some}
use mathlib.Core.List.{List, [], ◌∷◌}
use coding_agent_reliability.Base.Equality.{if◌then◌else◌}

pub data Error : Type 0 where
  value_error type_error runtime_error assertion_error key_error : Error
  index_error zero_division attribute_error os_error : Error
  -- simulator.py, effects.py, approvals.py
  terminal_state_conflict idempotency_conflict : Error
  approval_conflict approval_required approval_denied : Error
  -- fencing.py, recovery.py
  stale_fencing_token fencing_conflict checkpoint_conflict stale_checkpoint : Error
  -- reconciliation.py
  remote_state_ambiguous reconciliation_conflict retry_safety_unknown : Error
  stale_provider_readback : Error
  -- evidence_lineage.py
  evidence_lineage_conflict superseded_reconciliation_decision : Error
  -- a violated constraint of a table (`sqlite3.IntegrityError`)
  integrity_error : Error
  -- the end of the process in the middle of a call
  process_exit : Error

-- How a call ends: with an exception, or with its value.
pub data Result {ℓ} (V : Type ℓ) : Type ℓ where
  err : Error → Result V
  ok : V → Result V

abbrev pub is_ok {ℓ} : {V : Type ℓ} → Result V → Bool
is_ok (err _) = false
is_ok (ok _) = true

abbrev pub map_ok {ℓ κ} : {V : Type ℓ} {W : Type κ} → (V → W) → Result V → Result W
map_ok _ (err error) = err error
map_ok f (ok value) = ok (f value)

-- An exception ends the block.
infixl 5 ◌>>=◌ ◌>>◌
abbrev pub ◌>>=◌ {ℓ κ} : {V : Type ℓ} {W : Type κ} → Result V → (V → Result W) → Result W
err error >>= _ = err error
ok value >>= rest = rest value

abbrev pub ◌>>◌ {κ} : {W : Type κ} → Result (Unit {0}) → Result W → Result W
err error >> _ = err error
ok _ >> next = next

-- `if test: raise error`
abbrev pub raise_if : Bool → Error → Result (Unit {0})
raise_if test error = if test then err error else ok tt

pub ok-injective {ℓ} : {V : Type ℓ} {v w : V} → ok v ≡ ok w → v ≡ w
ok-injective same = cc

pub some-injective {ℓ} : {A : Type ℓ} {a b : A} → some a ≡ some b → a ≡ b
some-injective same = cc

-- A block that ends with a value has passed its first call.
pub >>=-eq-ok {ℓ κ} :
    {V : Type ℓ} {W : Type κ} (first : Result V) (rest : V → Result W) {b : W}
    → (first >>= rest) ≡ ok b
    → (value : V) × (first ≡ ok value) × (rest value ≡ ok b)
>>=-eq-ok (err _) rest returned = cc
>>=-eq-ok (ok value) rest returned = (value, refl, returned)

pub Result-cases {ℓ} :
    {V : Type ℓ} (r : Result V) → ((e : Error) × (r ≡ err e)) ⊎ ((v : V) × (r ≡ ok v))
Result-cases (err e) = inl (e, refl)
Result-cases (ok v) = inr (v, refl)

-- `[f(x) for x in xs]`, which the first exception ends.
unfoldable pub traverse {ℓ κ} :
    {A : Type ℓ} {B : Type κ} → (A → Result B) → List A → Result (List B)
traverse f [] = ok []
traverse f (x ∷ xs) = f x >>= λ y. traverse f xs >>= λ ys. ok (y ∷ ys)

pub traverse-cons {ℓ κ} :
    {A : Type ℓ} {B : Type κ} (f : A → Result B) (x : A) (xs : List A) {zs : List B}
    → traverse f (x ∷ xs) ≡ ok zs
    → (y : B) × (ys : List B) × (f x ≡ ok y) × (traverse f xs ≡ ok ys) × (zs ≡ y ∷ ys)
unfolding traverse
traverse-cons f x xs h =
    let (y, first, rest) = >>=-eq-ok (f x) _ h in
    let (ys, others, same) = >>=-eq-ok (traverse f xs) _ rest in (y, ys, first, others, cc)
