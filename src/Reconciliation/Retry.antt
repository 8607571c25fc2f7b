-- ===== src/Reconciliation/Retry.antt =====
-- The conditional retry: what it takes, what it does, and that one revision serves one retry.
use coding_agent_reliability.Base.{
  ℕ, suc, ◌+◌, ◌≤◌, ◌≡◌, ◌≢◌, refl, true, false, ◌&&◌, some, List, [], ◌∷◌, ◌++◌, arith, String,
  string_eq, ◌==◌, optional_text_eq, pos, ◌+ℤ◌, ◌≤ℤ◌, int_eq, +ℤ_parts, ok, if◌then◌else◌,
  Option-cases, inl, inr,
}
use coding_agent_reliability.Reconciliation.{
  ExternalOperation, ReconciliationDecision, retry_exact_operation, retry_action_eq,
  VersionedProviderState, effect_sha256, has_effect, apply_conditional_retry,
}

-- How many effects of a provider have this operation_id.
unfoldable pub effect_count : String → String → List ExternalOperation → ℕ
effect_count provider operation_id [] = 0
effect_count provider operation_id (e ∷ es) =
    if e.provider == provider && e.operation_id == operation_id
    then suc (effect_count provider operation_id es)
    else effect_count provider operation_id es

-- No operation identity has two effects.
abbrev pub HasUniqueEffects : VersionedProviderState → Type 0
HasUniqueEffects s = (provider id : String) → effect_count provider id s.effects ≤ 1

effect_count-absent :
    (provider id : String) (es : List ExternalOperation)
    → has_effect provider id es ≡ false
    → effect_count provider id es ≡ 0
unfolding has_effect effect_count
effect_count-absent provider id [] h = refl
effect_count-absent provider id (e ∷ es) h = ground (arith, effect_count-absent provider id es)

effect_count-snoc :
    (provider id : String) (es : List ExternalOperation) (o : ExternalOperation)
    → effect_count provider id (es ++ o ∷ [])
      ≡ effect_count provider id es
        + (if o.provider == provider && o.operation_id == id then 1 else 0)
unfolding effect_count
effect_count-snoc provider id [] o = ground arith
effect_count-snoc provider id (e ∷ es) o = ground (arith, effect_count-snoc provider id es o)

module _ (sha256 : List ℕ → String) where
  -- A retry that commits was decided for exactly this effect at exactly the provider's revision, the
  -- provider had no effect of this identity, and afterwards it has the operation behind its old effects
  -- at the next revision.
  pub apply_conditional_retry_commits :
      (op : ExternalOperation) (d : ReconciliationDecision) (s t : VersionedProviderState)
      → apply_conditional_retry sha256 op d s ≡ ok t
      → (d.should_retry ≡ true)
        × (d.action ≡ retry_exact_operation)
        × (d.retry_precondition_revision ≡ some s.revision)
        × (d.retry_effect_sha256 ≡ some (effect_sha256 sha256 op))
        × (has_effect op.provider op.operation_id s.effects ≡ false)
        × (t ≡ record { revision = s.revision +ℤ pos 1; effects = s.effects ++ op ∷ [] })
  unfolding apply_conditional_retry
  apply_conditional_retry_commits op d s t h = elim (Option-cases d.retry_precondition_revision) [
    | inl missing ↦ ground (arith, missing)
    | inr (expected, known) ↦ ground (arith, known)
  ]

  -- Each effect stays unique.
  pub HasUniqueEffects-apply :
      (op : ExternalOperation) (d : ReconciliationDecision) (s t : VersionedProviderState)
      → HasUniqueEffects s
      → apply_conditional_retry sha256 op d s ≡ ok t
      → HasUniqueEffects t
  HasUniqueEffects-apply op d s t u h provider id =
      let (_, _, _, _, fresh, result) = apply_conditional_retry_commits op d s t h in
      rw (result, effect_count-snoc provider id s.effects op)
        (ground (arith, u provider id, effect_count-absent provider id s.effects))

  -- A decision whose retry has committed authorizes no second retry, of this or of any other
  -- operation, on the provider's new state or on any later one: a call with its revision below the
  -- provider's revision never returns.
  pub retry_authority_is_spent :
      (op other : ExternalOperation) (d : ReconciliationDecision)
      (s t later u : VersionedProviderState)
      → apply_conditional_retry sha256 op d s ≡ ok t
      → t.revision ≤ℤ later.revision
      → apply_conditional_retry sha256 other d later ≢ ok u
  retry_authority_is_spent op other d s t later u first after second =
      let (_, _, at_first, _, _, result) = apply_conditional_retry_commits op d s t first in
      let (_, _, at_second, _, _, _) = apply_conditional_retry_commits other d later u second in
      absurd (spent at_first at_second result)
    where
      spent :
          d.retry_precondition_revision ≡ some s.revision
          → d.retry_precondition_revision ≡ some later.revision
          → t ≡ record { revision = s.revision +ℤ pos 1; effects = s.effects ++ op ∷ [] }
          → ⊥
      spent a b result = ground (arith, +ℤ_parts s.revision (pos 1))
