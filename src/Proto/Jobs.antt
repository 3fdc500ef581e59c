-- ===== src/Proto/Jobs.antt =====
-- The jobs of an activation for lang (coresdk workflow_activation, activity_result, child_workflow).
use sdk_core.Prelude.{ℕ, Bool, Option, Text}
use sdk_core.Proto.Enums.{StartChildWorkflowExecutionFailedCause}
use sdk_core.Proto.Failures.{Payload, Failure}
use sdk_core.Proto.Updates.{DoUpdate}

-- `activity_resolution::Status`.
pub data ActivityStatus : Type 0 where
  completed : (result : Option Payload) → ActivityStatus
  failed : (failure : Option Failure) → ActivityStatus
  cancelled : (failure : Option Failure) → ActivityStatus
  backoff : (attempt : ℕ) (backoff_duration original_schedule_time : Option ℕ) → ActivityStatus

pub record ResolveActivity : Type 0 where
  pub seq : ℕ
  pub result : ActivityStatus
  pub is_local : Bool

-- `resolve_child_workflow_execution_start::Status`.
pub data ChildStartStatus : Type 0 where
  succeeded : (run_id : Text) → ChildStartStatus
  failed :
      (workflow_id workflow_type : Text) (cause : StartChildWorkflowExecutionFailedCause)
      → ChildStartStatus
  cancelled : (failure : Option Failure) → ChildStartStatus

-- `child_workflow_result::Status`.
pub data ChildWorkflowStatus : Type 0 where
  completed : (result : Option Payload) → ChildWorkflowStatus
  failed : (failure : Option Failure) → ChildWorkflowStatus
  cancelled : (failure : Option Failure) → ChildWorkflowStatus

-- `workflow_activation_job::Variant`, with the variants that the modelled machines send.
pub data Job : Type 0 where
  fire_timer : (seq : ℕ) → Job
  resolve_activity : ResolveActivity → Job
  resolve_signal_external_workflow : (seq : ℕ) (failure : Option Failure) → Job
  resolve_request_cancel_external_workflow : (seq : ℕ) (failure : Option Failure) → Job
  resolve_child_workflow_execution_start : (seq : ℕ) (status : ChildStartStatus) → Job
  resolve_child_workflow_execution : (seq : ℕ) (status : ChildWorkflowStatus) → Job
  do_update : DoUpdate → Job
