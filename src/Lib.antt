-- ===== src/Lib.antt =====
-- Coding Agent Reliability Lab: deterministic models of what goes wrong between a coding agent's
-- runtime, its tools and the stores that must survive a restart.
--
-- The program's parts, under src/agent_reliability_lab/ but for those in evals/, and the files that
-- model them:
--
--   events.py, simulator.py   Events, Simulator    the reducer of an agent turn's events
--   effects.py                Effects              the replay of tool effects with a ledger
--   approvals.py              Approvals            the approval lifecycle of a tool effect
--   fencing.py                Fencing              fencing tokens, pure and in SQLite
--   durable.py                Durable              approval, effect and completion in one database
--   recovery.py               Recovery             the linear checkpoint lineage of a run
--   reconciliation.py         Reconciliation       lost acknowledgements and the conditional retry
--   evidence_lineage.py       EvidenceLineage      the head of the evidence for each operation
--   evaluation.py             Evaluation           the scenarios, their manifest and the report
--   trace_integrity.py        TraceIntegrity       the validator of traces, mutations and scores
--   evals/release_gate_v1/evaluate.py
--                             ReleaseGate          the gate over the published evidence
--   evals/release_gate_v1/verify_results.py
--                             ReleaseGate          the check of the gate's own publication
--   evals/*/verify_protocol.py
--                             Protocols            the verifiers of the three frozen protocols
--
-- A function of the source has a definition of the same name, without a leading underscore; a method
-- of a store is an action on the value of its tables. `Base` holds what all share: integers (Python's
-- are unbounded and signed), dictionaries in insertion order, the exceptions as the data type Error
-- (their messages are left out), and transactions.
--
-- Errors are values. A method that runs under `with self._transaction()` is a block of statements
-- that may stop with an exception, under `transaction`, which commits what a block has written when
-- it ends and drops it when it stops. SQLite serialises the transactions of all processes (BEGIN
-- IMMEDIATE), so an interleaving of workers is a list of calls. The end of a process in the middle of
-- a transaction is an exception at that point: SQLite rolls back what was not committed.
-- Primary keys, references and CHECK constraints are written out at the statements they guard.
--
-- Every loop is a recursion on its list, so no fuel is needed. A mode or decision that Python takes
-- as a text is a data type with a constructor for the unsupported texts. Type tests that a statically
-- typed argument always passes (`isinstance(x, str)`) are left out.
--
-- The SHA-256 digest of a text is an argument `sha256` of what uses it, and the theorems hold for
-- every function there; `Base/Json` models `json.dumps(..., ensure_ascii=False, separators=(",", ":"))`
-- of strings and lists. EvidenceLineage uses Reconciliation: `record` decides by `reconcile_lost_ack`
-- and `apply_retry` calls `apply_conditional_retry`.
--
-- evaluation.py, trace_integrity.py and the gate work on JSON documents, which are the data type Json
-- of `Base/Document`: the values of `json.loads` whose numbers are integers, with Python's `==` (True
-- is 1). `Base/Numeral` models `int(text, base)` and `str` of a number. `repr` of a value that is no
-- text, the reader of a file's JSON and the digest of a file's bytes are arguments. The scenarios of
-- Evaluation run the models of the other parts; each rate is an exact fraction where Python has the
-- nearest float. TraceIntegrity keeps the locals of `validate_trace` in a record TraceProgress that
-- one handler for each kind of record updates. ReleaseGate takes the files, their digests, `git show`
-- and the run of a verifier from a record Repository, each of which may raise; the file system does
-- not change during a run.
-- `validate` of verify_results.py is in ReleaseGate/Publication.
--
-- Protocols models the three verifiers of frozen protocols on their documents. The gates' thresholds
-- 1.0 are the integer 1 there, to which Python's `==` takes them to be equal.
--
-- Not modelled: that SQLite holds integers of 64 bits, texts with lone surrogates, JSON numbers with a
-- fraction, the creation of tables and schema versions, file paths, exception messages, the command
-- lines and their output files, and the package's exports. Nor verify_results.py of reliability_v1 and
-- trace_integrity_v1: they recompute gates over published rates, which are floating-point numbers.
mod Base
pub mod Events
pub mod Simulator
pub mod Effects
pub mod Approvals
pub mod Fencing
pub mod Durable
pub mod Recovery
pub mod Reconciliation
pub mod EvidenceLineage
pub mod Evaluation
pub mod TraceIntegrity
pub mod ReleaseGate
pub mod Protocols
