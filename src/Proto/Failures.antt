-- ===== src/Proto/Failures.antt =====
-- Payloads and failures (temporal/api/common/v1, temporal/api/failure/v1), and the conversion of
-- payloads into one (sdk-core-protos/src/lib.rs).
use sdk_core.Prelude.{ℕ, Option, none, some, List, [], ◌∷◌, Text, Outcome, ok, err}
use sdk_core.Proto.Enums.{RetryState, TimeoutType}

pub record Payload : Type 0 where
  pub metadata : List (Text × Text)
  pub body : Text

abbrev pub Payloads : Type 0
Payloads = List Payload

pub data PayloadsToPayloadError : Type 0 where
  more_than_one_payload no_payload : PayloadsToPayloadError

-- `Payload::try_from(Payloads)`: pop the last one, and look whether others are left.
unfoldable pub payload_of : Payloads → Outcome PayloadsToPayloadError Payload
payload_of [] = err no_payload
payload_of (p ∷ []) = ok p
payload_of (p ∷ q ∷ ps) = err more_than_one_payload

-- `result.map(TryInto::try_into).transpose()`.
unfoldable pub one_payload : Option Payloads → Outcome PayloadsToPayloadError (Option Payload)
unfolding payload_of
one_payload none = ok none
one_payload (some ps) = elim (payload_of ps) [
  | ok p ↦ ok (some p)
  | err e ↦ err e
  | Outcome.panicked ↦ Outcome.panicked
]

pub record ActivityFailureInfo : Type 0 where
  pub scheduled_event_id : ℕ
  pub started_event_id : ℕ
  pub identity : Text
  pub activity_type : Option Text
  pub activity_id : Text
  pub retry_state : RetryState

pub record WorkflowExecution : Type 0 where
  pub workflow_id : Text
  pub run_id : Text

pub record ChildWorkflowExecutionFailureInfo : Type 0 where
  pub namespace : Text
  pub workflow_execution : Option WorkflowExecution
  pub workflow_type : Option Text
  pub initiated_event_id : ℕ
  pub started_event_id : ℕ
  pub retry_state : RetryState

-- `failure::FailureInfo`, with the variants that the machines build; `other` stands for the rest.
pub data FailureInfo : Type 0 where
  application_failure_info : (type_name : Text) → FailureInfo
  timeout_failure_info : (timeout_type : TimeoutType) → FailureInfo
  canceled_failure_info : (details : Option Payloads) → FailureInfo
  terminated_failure_info : FailureInfo
  activity_failure_info : ActivityFailureInfo → FailureInfo
  child_workflow_execution_failure_info : ChildWorkflowExecutionFailureInfo → FailureInfo
  other : FailureInfo

-- A failure and its `cause: Option<Box<Failure>>`.
mutual
  pub data Failure : Type 0 where
    failure : (message : Text) → Cause → Option FailureInfo → Failure

  pub data Cause : Type 0 where
    no_cause : Cause
    caused_by : Failure → Cause

-- `failure.map(Box::new)`.
abbrev pub boxed : Option Failure → Cause
boxed none = no_cause
boxed (some f) = caused_by f
