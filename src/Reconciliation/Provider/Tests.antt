-- ===== src/Reconciliation/Provider/Tests.antt =====
-- Two workers that compete with one decision, as in tests/test_idempotency_reconciliation.py, and the
-- theorems there.
use coding_agent_reliability.Base.{
  ℕ, ◌≡◌, ◌≢◌, refl, List, [], ◌∷◌, String, String-discrete, text_pair_discrete,
  optional_text_discrete, ℤ-discrete, pos, ◌+ℤ◌, ok, is_blank, lookup, insert,
}
use coding_agent_reliability.Base.Sorting.{sort_by_id}
use coding_agent_reliability.Reconciliation.{
  ExternalOperation, new_operation, RetryAction-discrete, accepted, VersionedProviderState,
  new_provider_state, retry_at, reconcile_lost_ack, apply_conditional_retry,
}
use coding_agent_reliability.Reconciliation.Provider.{
  ProviderDatabase, select_effects, build_effects, snapshot_of, snapshot_in_transaction, read,
  conditional_apply,
}
use coding_agent_reliability.Reconciliation.Provider.Spent.{
  read_call, perform_all, decision_commits_once,
}
use coding_agent_reliability.Reconciliation.Provider.Readback.{confirming, read_after_apply}

abbrev operation : String → ExternalOperation
operation id = record {
  provider = "provider-a";
  operation_id = id;
  tool = "create";
  payload = "ticket";
}

-- A digest of the tests' own.
abbrev digest : List ℕ → String
digest text = "d"

abbrev empty : ProviderDatabase
empty = record { revisions = []; effects = [] }

abbrev stored : ProviderDatabase
stored = record {
  revisions = ("provider-a", pos 1) ∷ [];
  effects = (("provider-a", "op-1"), ("create", "ticket")) ∷ [];
}

abbrev after : VersionedProviderState
after = record { revision = pos 1; effects = operation "op-1" ∷ [] }

commits :
    conditional_apply digest (operation "op-1") (retry_at digest (operation "op-1") (pos 0)) empty
    ≡ (ok after, stored)
unfolding conditional_apply snapshot_in_transaction snapshot_of select_effects build_effects
    sort_by_id new_provider_state apply_conditional_retry lookup insert String-discrete
    text_pair_discrete optional_text_discrete ℤ-discrete RetryAction-discrete ◌+ℤ◌
commits = refl

decision_commits_once_example :
    conditional_apply digest
      (operation "op-2")
      (retry_at digest (operation "op-1") (pos 0))
      (perform_all digest (read_call (operation "op-2") ∷ []) stored)
    ≢ (ok after, stored)
decision_commits_once_example =
    decision_commits_once digest (operation "op-1") (operation "op-2")
      (retry_at digest (operation "op-1") (pos 0)) (read_call (operation "op-2") ∷ []) after after
      empty stored stored refl commits

named : new_operation "provider-a" "op-1" "create" "ticket" ≡ ok (operation "op-1")
unfolding new_operation is_blank
named = refl

read_after_apply_example :
    (read digest (operation "op-1") stored
      ≡ (ok (confirming (operation "op-1") (pos 0 +ℤ pos 1)), stored))
    × (reconcile_lost_ack digest (operation "op-1") (confirming (operation "op-1") (pos 0 +ℤ pos 1))
        ≡ ok accepted)
unfolding lookup
read_after_apply_example =
    read_after_apply digest (operation "op-1") (retry_at digest (operation "op-1") (pos 0)) after
      empty stored named commits
