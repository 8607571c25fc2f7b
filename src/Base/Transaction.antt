-- ===== src/Base/Transaction.antt =====
-- Statements on a database that may raise, and the transaction around them: a commit when the block
-- ends, and a rollback of everything written when it raises.
use mathlib.Core.Path.{◌≡◌, refl}
use mathlib.Core.Bool.{Bool}
use coding_agent_reliability.Base.Equality.{if◌then◌else◌}
use coding_agent_reliability.Base.Errors.{Error, Result, ok, err}

-- The state comes back beside an exception too: it holds what the block wrote before.
abbrev pub Tx {ℓ} : Type ℓ → Type ℓ → Type ℓ
Tx S A = S → Result A × S

module _ {ℓ} {S A : Type ℓ} where
  abbrev pub pure : A → Tx S A
  pure a s = (ok a, s)

  abbrev pub raise : Error → Tx S A
  raise e s = (err e, s)

  abbrev pub lift : Result A → Tx S A
  lift r s = (r, s)

  abbrev pub gets : (S → A) → Tx S A
  gets f s = (ok (f s), s)

  abbrev pub rolled_back : S → Result A × S → Result A × S
  rolled_back s (ok a, s') = (ok a, s')
  rolled_back s (err e, s') = (err e, s)

  -- `with self._transaction() as conn`
  unfoldable pub transaction : Tx S A → Tx S A
  transaction m s = rolled_back s (m s)

  -- A transaction that raises leaves the database alone.
  pub transaction_atomic :
      (m : Tx S A) (s : S) (e : Error) → (transaction m s).0 ≡ err e → (transaction m s).1 ≡ s
  unfolding transaction
  transaction_atomic m s e h = atomic (m s) h
    where
      atomic : (r : Result A × S) → (rolled_back s r).0 ≡ err e → (rolled_back s r).1 ≡ s
      atomic (ok a, s') h = cc
      atomic (err c, s') h = refl

module _ {ℓ} {S A B : Type ℓ} where
  abbrev pub continue : Result A → (A → Tx S B) → Tx S B
  continue (ok a) f s = f a s
  continue (err e) f s = (err e, s)

  infixl 5 ◌>>=◌ ◌>>◌
  abbrev pub ◌>>=◌ : Tx S A → (A → Tx S B) → Tx S B
  ◌>>=◌ m f s = let (r, s') = m s in continue r f s'

  abbrev pub ◌>>◌ : Tx S A → Tx S B → Tx S B
  m >> k = m >>= λ _. k

abbrev pub modify : {S : Type 0} → (S → S) → Tx S Unit
modify f s = (ok tt, f s)

-- `if test: raise error`
abbrev pub refuse_if : {S : Type 0} → Bool → Error → Tx S Unit
refuse_if test e s = (if test then err e else ok tt, s)
