-- ===== src/Proto/Events.antt =====
-- History events (temporal/api/history/v1), with the attributes that the state machines read, and
-- the classifications of sdk-core-protos/src/lib.rs.
use sdk_core.Prelude.{ℕ, Bool, true, false, Option, List, Text}
use sdk_core.Proto.Enums.{
  EventType, RetryState, CancelExternalWorkflowExecutionFailedCause,
  SignalExternalWorkflowExecutionFailedCause,
}
use sdk_core.Proto.Updates.{Request}
use sdk_core.Proto.Failures.{Payload, Payloads, Failure, WorkflowExecution}

pub record WorkflowExecutionUpdateAcceptedEventAttributes : Type 0 where
  pub protocol_instance_id : Text
  pub accepted_request_message_id : Text
  pub accepted_request_sequencing_event_id : ℕ
  pub accepted_request : Option Request

pub record ActivityTaskScheduledEventAttributes : Type 0 where
  pub activity_id : Text
  pub activity_type : Option Text

pub record ActivityTaskCompletedEventAttributes : Type 0 where
  pub result : Option Payloads
  pub scheduled_event_id : ℕ
  pub started_event_id : ℕ

pub record ActivityTaskFailedEventAttributes : Type 0 where
  pub failure : Option Failure
  pub scheduled_event_id : ℕ
  pub started_event_id : ℕ
  pub identity : Text
  pub retry_state : RetryState

pub record ActivityTaskTimedOutEventAttributes : Type 0 where
  pub failure : Option Failure
  pub scheduled_event_id : ℕ
  pub started_event_id : ℕ
  pub retry_state : RetryState

pub record ActivityTaskCanceledEventAttributes : Type 0 where
  pub details : Option Payloads
  pub scheduled_event_id : ℕ
  pub started_event_id : ℕ
  pub identity : Text

pub record TimerFiredEventAttributes : Type 0 where
  pub timer_id : Text
  pub started_event_id : ℕ

pub record StartChildWorkflowExecutionInitiatedEventAttributes : Type 0 where
  pub workflow_id : Text
  pub workflow_type : Option Text

pub record ChildWorkflowExecutionFailedEventAttributes : Type 0 where
  pub failure : Option Failure
  pub retry_state : RetryState

pub record WorkflowTaskFailedEventAttributes : Type 0 where
  -- Whether `cause` reads as `ResetWorkflow`.
  pub reset_workflow : Bool
  pub new_run_id : Text

-- `other_attributes` stands for the variants that no modelled code looks into.
pub data Attributes : Type 0 where
  activity_task_scheduled : ActivityTaskScheduledEventAttributes → Attributes
  activity_task_completed : ActivityTaskCompletedEventAttributes → Attributes
  activity_task_failed : ActivityTaskFailedEventAttributes → Attributes
  activity_task_timed_out : ActivityTaskTimedOutEventAttributes → Attributes
  activity_task_canceled : ActivityTaskCanceledEventAttributes → Attributes
  timer_fired : TimerFiredEventAttributes → Attributes
  request_cancel_external_workflow_execution_failed :
      (cause : CancelExternalWorkflowExecutionFailedCause) → Attributes
  signal_external_workflow_execution_failed :
      (cause : SignalExternalWorkflowExecutionFailedCause) → Attributes
  start_child_workflow_execution_initiated :
      StartChildWorkflowExecutionInitiatedEventAttributes → Attributes
  start_child_workflow_execution_failed : (cause : ℕ) → Attributes
  child_workflow_execution_started : (workflow_execution : Option WorkflowExecution) → Attributes
  child_workflow_execution_completed : (result : Option Payloads) → Attributes
  child_workflow_execution_failed : ChildWorkflowExecutionFailedEventAttributes → Attributes
  child_workflow_execution_timed_out : (retry_state : RetryState) → Attributes
  workflow_task_failed : WorkflowTaskFailedEventAttributes → Attributes
  workflow_execution_update_admitted : (request : Option Request) → Attributes
  workflow_execution_update_accepted : WorkflowExecutionUpdateAcceptedEventAttributes → Attributes
  upsert_workflow_search_attributes :
      (search_attributes : Option (List (Text × Payload))) → Attributes
  marker_recorded :
      (marker_name : Text) (details : List (Text × Payloads)) (failure : Option Failure)
      → Attributes
  other_attributes : Attributes

-- `event_time` counts nanoseconds since the epoch.
pub record HistoryEvent : Type 0 where
  pub event_id : ℕ
  pub event_type : EventType
  pub event_time : Option ℕ
  pub attributes : Option Attributes

-- `HistEventData` of core/src/worker/workflow/machines/mod.rs.
pub record HistEventData : Type 0 where
  pub event : HistoryEvent
  pub replaying : Bool
  pub current_task_is_last_in_history : Bool

-- `EventInfo` of core/src/worker/workflow/machines/mod.rs.
pub record EventInfo : Type 0 where
  pub event_id : ℕ
  pub event_type : EventType

abbrev is_command_type : EventType → Bool
is_command_type EventType.activity_task_scheduled = true
is_command_type EventType.activity_task_cancel_requested = true
is_command_type EventType.marker_recorded = true
is_command_type EventType.request_cancel_external_workflow_execution_initiated = true
is_command_type EventType.signal_external_workflow_execution_initiated = true
is_command_type EventType.start_child_workflow_execution_initiated = true
is_command_type EventType.timer_canceled = true
is_command_type EventType.timer_started = true
is_command_type EventType.upsert_workflow_search_attributes = true
is_command_type EventType.workflow_properties_modified = true
is_command_type EventType.nexus_operation_scheduled = true
is_command_type EventType.nexus_operation_cancel_requested = true
is_command_type EventType.workflow_execution_canceled = true
is_command_type EventType.workflow_execution_completed = true
is_command_type EventType.workflow_execution_continued_as_new = true
is_command_type EventType.workflow_execution_failed = true
is_command_type EventType.workflow_execution_update_accepted = true
is_command_type EventType.workflow_execution_update_rejected = true
is_command_type EventType.workflow_execution_update_completed = true
is_command_type _ = false

unfoldable pub is_command_event : HistoryEvent → Bool
is_command_event e = is_command_type e.event_type

abbrev is_final_type : EventType → Bool
is_final_type EventType.workflow_execution_completed = true
is_final_type EventType.workflow_execution_canceled = true
is_final_type EventType.workflow_execution_failed = true
is_final_type EventType.workflow_execution_timed_out = true
is_final_type EventType.workflow_execution_continued_as_new = true
is_final_type EventType.workflow_execution_terminated = true
is_final_type _ = false

unfoldable pub is_final_wf_execution_event : HistoryEvent → Bool
is_final_wf_execution_event e = is_final_type e.event_type
