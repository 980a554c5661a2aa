-- ===== src/Contracts.antt =====
-- The shared contracts of src/runtime/contracts.py and the agent roster of src/runtime/registry.py,
-- with the retry-safety rule of PostgresLedger. A text is the list of its code points; an agent, a
-- repository, a transport or a commit is a number, since the code only compares them.
use myndaix_runtime.Prelude.{ℕ, ◌+◌, Bool, true, false, Option, none, some, List, if◌then◌else◌}

abbrev pub Text : Type 0
Text = List ℕ

-- class Authority
pub data Authority : Type 0 where
  responder workspace_actor controller composite : Authority

abbrev pub sync_wait_margin_s : ℕ
sync_wait_margin_s = 60

-- class Profile, without the cost fields
pub record Profile : Type 0 where
  pub timeout_s : ℕ
  pub sync_wait_s : Option ℕ

unfoldable pub sync_wait : Profile → ℕ
sync_wait p = elim p.sync_wait_s [ some s ↦ s | none ↦ p.timeout_s + sync_wait_margin_s ]

-- class JobStatus
pub data JobStatus : Type 0 where
  queued leased running done failed dead : JobStatus

-- class AttemptStatus
pub data AttemptStatus : Type 0 where
  open_attempt ok_attempt failed_attempt : AttemptStatus

-- class OutboundStatus
pub data OutboundStatus : Type 0 where
  pending claimed sent undeliverable : OutboundStatus

-- class ResultStatus
pub data ResultStatus : Type 0 where
  ok_result error_result timeout_result killed_result needs_human_result : ResultStatus

-- class ErrorClass
pub data ErrorClass : Type 0 where
  retryable terminal needs_human : ErrorClass

-- class Result, with the fields that the ledger and the worker read
pub record Result : Type 0 where
  pub status : ResultStatus
  pub text : Text
  pub error_class : Option ErrorClass
  pub artifact_ref : Option Text

-- What the ledger reads of a roster row (AgentSpec).
pub record AgentSpec : Type 0 where
  pub authority : Authority
  pub non_idempotent : Bool

-- `registry.get` gives None for an agent that is not in the roster; the caller's `spec.adapter` then
-- raises, and `_requeue_safe` answers False.
abbrev pub Registry : Type 0
Registry = ℕ → Option AgentSpec

abbrev pub retry_authority : Authority → Bool
retry_authority responder = true
retry_authority controller = true
retry_authority workspace_actor = false
retry_authority composite = false

-- PostgresLedger._requeue_safe
unfoldable pub requeue_safe : Registry → ℕ → Bool
requeue_safe registry to_agent = elim (registry to_agent) [
  | none ↦ false
  | some spec ↦ if spec.non_idempotent then false else retry_authority spec.authority
]
