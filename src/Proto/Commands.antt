-- ===== src/Proto/Commands.antt =====
-- What lang asks for (coresdk workflow_commands) and the commands for the server
-- (temporal/api/command/v1), with the conversions of sdk-core-protos/src/lib.rs. Options of a
-- command that no modelled code reads (task queue, timeouts, headers) are left out.
use sdk_core.Prelude.{ℕ, Bool, Option, some, List, Text, to_string}
use sdk_core.Proto.Enums.{CommandType, ActivityCancellationType, ChildWorkflowCancellationType}
use sdk_core.Proto.Failures.{Payload, Payloads, Failure}

pub record StartTimer : Type 0 where
  pub seq : ℕ
  pub start_to_fire_timeout : Option ℕ

pub record CancelTimer : Type 0 where
  pub seq : ℕ

-- `cancellation_type` is `none` where the number on the wire is no variant.
pub record ScheduleActivity : Type 0 where
  pub seq : ℕ
  pub activity_id : Text
  pub activity_type : Text
  pub cancellation_type : Option ActivityCancellationType

pub record StartChildWorkflowExecution : Type 0 where
  pub seq : ℕ
  pub namespace : Text
  pub workflow_id : Text
  pub workflow_type : Text
  pub cancellation_type : ChildWorkflowCancellationType

pub record RequestCancelExternalWorkflowExecutionCommandAttributes : Type 0 where
  pub namespace : Text
  pub workflow_id : Text
  pub run_id : Text
  pub child_workflow_only : Bool
  pub reason : Text

pub record SignalExternalWorkflowExecutionCommandAttributes : Type 0 where
  pub namespace : Text
  pub workflow_id : Text
  pub run_id : Text
  pub signal_name : Text
  pub input : Option Payloads
  pub child_workflow_only : Bool

-- `command::Attributes`.
pub data CommandAttributes : Type 0 where
  start_timer : (timer_id : Text) (start_to_fire_timeout : Option ℕ) → CommandAttributes
  cancel_timer : (timer_id : Text) → CommandAttributes
  schedule_activity_task :
      (activity_id : Text) (activity_type : Option Text) (use_workflow_build_id : Bool)
      → CommandAttributes
  request_cancel_activity_task : (scheduled_event_id : ℕ) → CommandAttributes
  complete_workflow_execution : (result : Option Payloads) → CommandAttributes
  fail_workflow_execution : (failure : Option Failure) → CommandAttributes
  cancel_workflow_execution : CommandAttributes
  request_cancel_external_workflow_execution :
      RequestCancelExternalWorkflowExecutionCommandAttributes → CommandAttributes
  record_marker :
      (marker_name : Text) (details : List (Text × Payloads)) (failure : Option Failure)
      → CommandAttributes
  continue_as_new_workflow_execution :
      (workflow_type : Option Text) (inherit_build_id : Bool) → CommandAttributes
  start_child_workflow_execution :
      (namespace : Text) (workflow_id : Text) (workflow_type : Option Text)
      (inherit_build_id : Bool)
      → CommandAttributes
  signal_external_workflow_execution :
      SignalExternalWorkflowExecutionCommandAttributes → CommandAttributes
  upsert_workflow_search_attributes :
      (search_attributes : Option (List (Text × Payload))) → CommandAttributes
  protocol_message : (message_id : Text) → CommandAttributes
  modify_workflow_properties : (upserted_memo : Option (List (Text × Payload))) → CommandAttributes
  schedule_nexus_operation : (endpoint service operation : Text) → CommandAttributes
  request_cancel_nexus_operation : (scheduled_event_id : ℕ) → CommandAttributes

-- `CommandAttributesExt::as_type`.
unfoldable pub as_type : CommandAttributes → CommandType
as_type (start_timer _ _) = CommandType.start_timer
as_type (cancel_timer _) = CommandType.cancel_timer
as_type (schedule_activity_task _ _ _) = CommandType.schedule_activity_task
as_type (request_cancel_activity_task _) = CommandType.request_cancel_activity_task
as_type (complete_workflow_execution _) = CommandType.complete_workflow_execution
as_type (fail_workflow_execution _) = CommandType.fail_workflow_execution
as_type cancel_workflow_execution = CommandType.cancel_workflow_execution
as_type (request_cancel_external_workflow_execution _) =
    CommandType.request_cancel_external_workflow_execution
as_type (record_marker _ _ _) = CommandType.record_marker
as_type (continue_as_new_workflow_execution _ _) = CommandType.continue_as_new_workflow_execution
as_type (start_child_workflow_execution _ _ _ _) = CommandType.start_child_workflow_execution
as_type (signal_external_workflow_execution _) = CommandType.signal_external_workflow_execution
as_type (upsert_workflow_search_attributes _) = CommandType.upsert_workflow_search_attributes
as_type (protocol_message _) = CommandType.protocol_message
as_type (modify_workflow_properties _) = CommandType.modify_workflow_properties
as_type (schedule_nexus_operation _ _ _) = CommandType.schedule_nexus_operation
as_type (request_cancel_nexus_operation _) = CommandType.request_cancel_nexus_operation

-- `impl From<StartTimer>` and `From<CancelTimer> for command::Attributes`.
unfoldable pub start_timer_attributes : StartTimer → CommandAttributes
start_timer_attributes s = start_timer (to_string s.seq) s.start_to_fire_timeout

unfoldable pub cancel_timer_attributes : CancelTimer → CommandAttributes
cancel_timer_attributes s = cancel_timer (to_string s.seq)

unfoldable pub schedule_activity_cmd_to_api : ScheduleActivity → Bool → CommandAttributes
schedule_activity_cmd_to_api s use_workflow_build_id =
    schedule_activity_task s.activity_id (some s.activity_type) use_workflow_build_id

unfoldable pub start_child_workflow_cmd_to_api :
    StartChildWorkflowExecution → Bool → CommandAttributes
start_child_workflow_cmd_to_api s inherit_build_id =
    start_child_workflow_execution s.namespace s.workflow_id (some s.workflow_type) inherit_build_id
