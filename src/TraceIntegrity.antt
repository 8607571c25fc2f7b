-- ===== src/TraceIntegrity.antt =====
-- The validation of traces (src/agent_reliability_lab/trace_integrity.py). Progress, Handlers, Loop
-- and Validator hold `validate_trace`, Mutation the mutations of a trace and Corpus the evaluation of
-- a corpus; the other children prove what an accepted trace is.
mod Progress
mod Pointer
pub mod Mutation
mod Readback
mod Splice
mod Frame
mod Tokens
pub mod Corpus
mod Scores
mod Handlers
mod Loop
mod Validator
mod Clean
mod Steps
mod Runs
mod Accepted
mod Authority
mod Effects
mod Places
mod Approved
mod Evidence
mod Completions
mod Checkpoints
mod Records
mod Tests
mod CorpusTests
