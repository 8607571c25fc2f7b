-- ===== src/Evaluation/Passing.antt =====
-- Every scenario passes, whatever the digest function.
use coding_agent_reliability.Base.{
  ℕ, ◌≡◌, refl, ==_refl, Bool, true, false, none, some, List, String, pos, ◌+ℤ◌, Result, ok,
  if◌then◌else◌, arith, lookup, All, is_blank, String-discrete, ℤ-discrete, ℕ_discrete,
  text_pair_discrete, int_list_discrete, optional_text_discrete, optional_int_discrete, contains,
  insert, dedup,
}
use coding_agent_reliability.Base.Sorting.{sort_by_id}
use coding_agent_reliability.Base.Transaction.{transaction}
use coding_agent_reliability.Events.{EventKind-discrete}
use coding_agent_reliability.Approvals.{ApprovalAction-discrete}
use coding_agent_reliability.Durable.{Decision-discrete}
use coding_agent_reliability.Recovery.{
  RecoveryCheckpoint-discrete, start_run, insert_checkpoint, is_taken, check_plan, advance_run,
  commit_advance, resume_run, slice_from, plan_json,
}
use coding_agent_reliability.Reconciliation.{
  RetryAction-discrete, ReconciliationDecision-discrete, new_operation, new_evidence,
  new_provider_state, has_effect, reconcile_lost_ack, apply_conditional_retry,
}
use coding_agent_reliability.EvidenceLineage.{
  record_candidate, check_completion, record_head, put_head, complete, current, mark_reconciled,
  apply_retry,
}
use coding_agent_reliability.Reconciliation.Provider.{
  select_effects, build_effects, snapshot_of, read_revision, snapshot_in_transaction, read_row,
  evidence_of, insert_effect,
}
use coding_agent_reliability.Evaluation.{ScenarioResult, new_result}
use coding_agent_reliability.Evaluation.Scenarios.{
  accepts_commit, stale_child_completion_scoped, lost_ack_retry_idempotency,
  terminal_conflict_fails_closed, approval_mutation_fails_closed, provider_present_suppresses_retry,
  stale_readback_revision_fails_closed,
}
use coding_agent_reliability.Evaluation.Manifest.{scenario_runners}
use coding_agent_reliability.Evaluation.Stores.{
  durable_restart_exact_replay, stale_checkpoint_lineage_fails_closed,
  restart_evidence_supersedes_retry, repeated_lost_ack_converges,
  competing_retry_authorities_converge,
}

-- The result has the name, it passed, and it passed all that applies to it, with no duplicate effect.
pub record Passes (name : String) (run : Result ScenarioResult) : Type 0 where
  pub result : ScenarioResult
  pub returned : run ≡ ok result
  pub named : result.scenario_id ≡ name
  pub passed : result.passed ≡ true
  pub safe : result.safety_passed ≡ (if result.safety_applicable then some true else none)
  pub converged :
      result.convergence_passed ≡ (if result.convergence_applicable then some true else none)
  pub failed_closed :
      result.fail_closed_passed ≡ (if result.fail_closed_applicable then some true else none)
  pub unduplicated : result.duplicate_effect_violations ≡ pos 0

passing :
    (name detail : String) (convergence fail_closed : Bool) (run : Result ScenarioResult)
    → run
      ≡ ok (
          new_result name true
            (some true)
            (if convergence then some true else none)
            (if fail_closed then some true else none)
            (pos 0)
            detail)
    → Passes name run
unfolding new_result
passing name detail convergence fail_closed run h = record {
  result = _;
  returned = h;
  named = refl;
  passed = refl;
  safe = refl;
  converged = ground arith;
  failed_closed = ground arith;
  unduplicated = refl;
}

-- What the scenarios compute with.
unfoldable pub comparisons : Unit {0}
unfolding String-discrete ℤ-discrete ℕ_discrete text_pair_discrete int_list_discrete
    optional_text_discrete optional_int_discrete is_blank lookup insert EventKind-discrete
    ApprovalAction-discrete Decision-discrete RetryAction-discrete ReconciliationDecision-discrete
    RecoveryCheckpoint-discrete sort_by_id select_effects build_effects snapshot_of read_revision
    snapshot_in_transaction transaction new_operation new_evidence new_provider_state has_effect
    reconcile_lost_ack apply_conditional_retry record_candidate check_completion record_head
    put_head complete current mark_reconciled apply_retry start_run insert_checkpoint is_taken
    check_plan dedup contains advance_run commit_advance resume_run slice_from read_row evidence_of
    insert_effect accepts_commit ◌+ℤ◌ plan_json
comparisons = tt

stale_child_completion_scoped-Passes :
    Passes "stale_child_completion_scoped" stale_child_completion_scoped
unfolding stale_child_completion_scoped comparisons
stale_child_completion_scoped-Passes =
    passing "stale_child_completion_scoped"
      "foreign child completion is ignored and the parent reaches its own terminal state" true false
      stale_child_completion_scoped (refl)

lost_ack_retry_idempotency-Passes : Passes "lost_ack_retry_idempotency" lost_ack_retry_idempotency
unfolding lost_ack_retry_idempotency comparisons
lost_ack_retry_idempotency-Passes =
    passing "lost_ack_retry_idempotency"
      "exact replay is suppressed by the stable operation identity" true false
      lost_ack_retry_idempotency (refl)

terminal_conflict_fails_closed-Passes :
    Passes "terminal_conflict_fails_closed" terminal_conflict_fails_closed
unfolding terminal_conflict_fails_closed comparisons
terminal_conflict_fails_closed-Passes =
    passing "terminal_conflict_fails_closed"
      "incompatible same-turn terminal outcomes are rejected instead of last-write-wins" false true
      terminal_conflict_fails_closed (refl)

approval_mutation_fails_closed-Passes :
    Passes "approval_mutation_fails_closed" approval_mutation_fails_closed
unfolding approval_mutation_fails_closed comparisons
approval_mutation_fails_closed-Passes =
    passing "approval_mutation_fails_closed"
      "approval is bound to the exact operation, tool, and payload" false true
      approval_mutation_fails_closed (refl)

durable_restart_exact_replay-Passes :
    Passes "durable_restart_exact_replay" durable_restart_exact_replay
unfolding durable_restart_exact_replay comparisons
durable_restart_exact_replay-Passes =
    passing "durable_restart_exact_replay"
      "file-backed completion survives restart and exact replay does not repeat the local effect"
      true false durable_restart_exact_replay (refl)

module _ (sha256 : List ℕ → String) where
  provider_present_suppresses_retry-Passes :
      Passes "provider_present_suppresses_retry" (provider_present_suppresses_retry sha256)
  unfolding provider_present_suppresses_retry comparisons
  provider_present_suppresses_retry-Passes =
      passing "provider_present_suppresses_retry"
        "authoritative PRESENT readback accepts the committed effect instead of replaying it" true
        false (provider_present_suppresses_retry sha256) (refl)

  stale_readback_revision_fails_closed-Passes :
      Passes "stale_readback_revision_fails_closed" (stale_readback_revision_fails_closed sha256)
  unfolding stale_readback_revision_fails_closed comparisons
  stale_readback_revision_fails_closed-Passes =
      passing "stale_readback_revision_fails_closed"
        "revision drift invalidates old absence evidence before a retry can commit" false true
        (stale_readback_revision_fails_closed sha256) (simp ==_refl)

  stale_checkpoint_lineage_fails_closed-Passes :
      Passes "stale_checkpoint_lineage_fails_closed" (stale_checkpoint_lineage_fails_closed sha256)
  unfolding stale_checkpoint_lineage_fails_closed comparisons
  stale_checkpoint_lineage_fails_closed-Passes =
      passing "stale_checkpoint_lineage_fails_closed"
        "stale checkpoint replay is rejected and recovery resumes only from the current lineage"
        true true (stale_checkpoint_lineage_fails_closed sha256) (ground arith)

  restart_evidence_supersedes_retry-Passes :
      Passes "restart_evidence_supersedes_retry" (restart_evidence_supersedes_retry sha256)
  unfolding restart_evidence_supersedes_retry comparisons
  restart_evidence_supersedes_retry-Passes =
      passing "restart_evidence_supersedes_retry"
        "newer provider evidence durably supersedes pre-restart retry authority" true true
        (restart_evidence_supersedes_retry sha256) (ground arith)

  repeated_lost_ack_converges-Passes :
      Passes "repeated_lost_ack_converges" (repeated_lost_ack_converges sha256)
  unfolding repeated_lost_ack_converges comparisons
  repeated_lost_ack_converges-Passes =
      passing "repeated_lost_ack_converges"
        "fresh PRESENT evidence closes a lost-ack loop and supersedes stale retry authority" true
        true (repeated_lost_ack_converges sha256) (ground arith)

  competing_retry_authorities_converge-Passes :
      Passes "competing_retry_authorities_converge" (competing_retry_authorities_converge sha256)
  unfolding competing_retry_authorities_converge comparisons
  competing_retry_authorities_converge-Passes =
      passing "competing_retry_authorities_converge"
        "one revision-bound retry commits and stale competing authority is rejected before convergence"
        true true (competing_retry_authorities_converge sha256) (ground arith)

  abbrev pub PassesAsNamed : String × Result ScenarioResult → Type 0
  PassesAsNamed (name, run) = Passes name run

  -- Every runner of the table returns a passing result under the name of its entry.
  pub scenario_runners-pass : All PassesAsNamed (scenario_runners sha256)
  scenario_runners-pass = (
    stale_child_completion_scoped-Passes,
    (
      lost_ack_retry_idempotency-Passes,
      (
        terminal_conflict_fails_closed-Passes,
        (
          approval_mutation_fails_closed-Passes,
          (
            durable_restart_exact_replay-Passes,
            (
              stale_checkpoint_lineage_fails_closed-Passes,
              (
                provider_present_suppresses_retry-Passes,
                (
                  stale_readback_revision_fails_closed-Passes,
                  (
                    restart_evidence_supersedes_retry-Passes,
                    (
                      repeated_lost_ack_converges-Passes,
                      (competing_retry_authorities_converge-Passes, tt),
                    ),
                  ),
                ),
              ),
            ),
          ),
        ),
      ),
    ),
  )
