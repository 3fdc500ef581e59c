-- ===== src/Proto/Enums.antt =====
-- The enumerations of the server's API that the state machines read
-- (sdk-core-protos/protos/api_upstream/temporal/api/enums/v1).
use sdk_core.Prelude.{ℕ, Option, none, some, ◌==◌, if◌then◌else◌}

-- An unknown number reads as `unspecified`, as the generated accessors do.
pub data EventType : Type 0 where
  unspecified workflow_execution_started workflow_execution_completed workflow_execution_failed
        workflow_execution_timed_out workflow_task_scheduled workflow_task_started
        workflow_task_completed workflow_task_timed_out workflow_task_failed activity_task_scheduled
        activity_task_started activity_task_completed activity_task_failed activity_task_timed_out
        activity_task_cancel_requested activity_task_canceled timer_started timer_fired
        timer_canceled workflow_execution_cancel_requested workflow_execution_canceled
        request_cancel_external_workflow_execution_initiated
        request_cancel_external_workflow_execution_failed
        external_workflow_execution_cancel_requested marker_recorded workflow_execution_signaled
        workflow_execution_terminated workflow_execution_continued_as_new
        start_child_workflow_execution_initiated start_child_workflow_execution_failed
        child_workflow_execution_started child_workflow_execution_completed
        child_workflow_execution_failed child_workflow_execution_canceled
        child_workflow_execution_timed_out child_workflow_execution_terminated
        signal_external_workflow_execution_initiated signal_external_workflow_execution_failed
        external_workflow_execution_signaled upsert_workflow_search_attributes
        workflow_execution_update_accepted workflow_execution_update_rejected
        workflow_execution_update_completed workflow_properties_modified_externally
        activity_properties_modified_externally workflow_properties_modified
        workflow_execution_update_admitted nexus_operation_scheduled nexus_operation_started
        nexus_operation_completed nexus_operation_failed nexus_operation_canceled
        nexus_operation_timed_out nexus_operation_cancel_requested
        workflow_execution_options_updated :
      EventType

pub data CommandType : Type 0 where
  unspecified schedule_activity_task request_cancel_activity_task start_timer
        complete_workflow_execution fail_workflow_execution cancel_timer cancel_workflow_execution
        request_cancel_external_workflow_execution record_marker continue_as_new_workflow_execution
        start_child_workflow_execution signal_external_workflow_execution
        upsert_workflow_search_attributes protocol_message modify_workflow_properties
        schedule_nexus_operation request_cancel_nexus_operation :
      CommandType

pub data RetryState : Type 0 where
  unspecified in_progress non_retryable_failure timeout maximum_attempts_reached
        retry_policy_not_set internal_server_error cancel_requested :
      RetryState

pub data TimeoutType : Type 0 where
  unspecified start_to_close schedule_to_start schedule_to_close heartbeat : TimeoutType

pub data CancelExternalWorkflowExecutionFailedCause : Type 0 where
  unspecified external_workflow_execution_not_found namespace_not_found :
      CancelExternalWorkflowExecutionFailedCause

pub data SignalExternalWorkflowExecutionFailedCause : Type 0 where
  unspecified external_workflow_execution_not_found namespace_not_found
        signal_count_limit_exceeded :
      SignalExternalWorkflowExecutionFailedCause

pub data StartChildWorkflowExecutionFailedCause : Type 0 where
  unspecified workflow_already_exists namespace_not_found : StartChildWorkflowExecutionFailedCause

-- `StartChildWorkflowExecutionFailedCause::try_from(i32)`.
unfoldable pub start_child_failed_cause : ℕ → Option StartChildWorkflowExecutionFailedCause
start_child_failed_cause n =
    if n == 0
    then some StartChildWorkflowExecutionFailedCause.unspecified
    else if n == 1
    then some StartChildWorkflowExecutionFailedCause.workflow_already_exists
    else if n == 2
    then some StartChildWorkflowExecutionFailedCause.namespace_not_found
    else none

-- coresdk's workflow_commands.proto.
pub data ActivityCancellationType : Type 0 where
  try_cancel wait_cancellation_completed abandon : ActivityCancellationType

-- coresdk's child_workflow.proto.
pub data ChildWorkflowCancellationType : Type 0 where
  abandon try_cancel wait_cancellation_completed wait_cancellation_requested :
      ChildWorkflowCancellationType
