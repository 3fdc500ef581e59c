-- ===== src/Machines/Activity.antt =====
-- activity_state_machine.rs: the machine around the handlers: its conversions, its responses, and
-- how lang creates and cancels it.
mod Handlers
pub mod Resolution
pub mod Abandon
unfoldable pub use Handlers.*
use sdk_core.Prelude.{
  ℕ, Bool, true, false, Option, none, some, List, [], ◌∷◌, ◌++◌, if◌then◌else◌, Text, codes,
  Outcome, ok, err, panicked, ◌>>=◌, map_err,
}
use sdk_core.Fsm.{StateMachine, Machine, MachineError, from_parts, on_event}
use sdk_core.Flags.{InternalFlags}
use sdk_core.Proto.{
  Payload, Payloads, one_payload, Failure, CommandType, CommandAttributes, EventType, HistEventData,
  HistoryEvent, Attributes, EventInfo, ActivityCancellationType, ScheduleActivity,
  schedule_activity_cmd_to_api, ActivityTaskCanceledEventAttributes, ResolveActivity,
  ActivityStatus, Job,
}
use sdk_core.Machines.{
  WfMachinesError, nondeterminism, fatal, ProtoCommand, MachineResponse, push_wf_job,
  issue_new_command, Responses, WfMachine,
}

abbrev pub ActivityFsm : StateMachine
ActivityFsm = record {
  State = State;
  SharedState = SharedState;
  Event = Event;
  Command = ActivityMachineCommand;
  Error = WfMachinesError;
  transition = transition;
  is_final = is_final;
}

abbrev pub ActivityMachine : Type 0
ActivityMachine = Machine ActivityFsm

name_or_empty : Option Text → Text
name_or_empty none = []
name_or_empty (some n) = n

-- One `match` arm of the conversion each: the attributes must be those of the event's type.
scheduled_event : HistEventData → Option Attributes → Outcome WfMachinesError Event
unfolding name_or_empty
scheduled_event d (some (Attributes.activity_task_scheduled a)) = ok (
    activity_task_scheduled (record {
      event_id = d.event.event_id;
      act_type = name_or_empty a.activity_type;
      act_id = a.activity_id;
      last_task_in_history = d.current_task_is_last_in_history;
    }))
scheduled_event d _ = err fatal

completed_event : Option Attributes → Outcome WfMachinesError Event
completed_event (some (Attributes.activity_task_completed a)) = ok (activity_task_completed a)
completed_event _ = err fatal

failed_event : Option Attributes → Outcome WfMachinesError Event
failed_event (some (Attributes.activity_task_failed a)) = ok (activity_task_failed a)
failed_event _ = err fatal

timed_out_event : Option Attributes → Outcome WfMachinesError Event
timed_out_event (some (Attributes.activity_task_timed_out a)) = ok (activity_task_timed_out a)
timed_out_event _ = err fatal

canceled_event : Option Attributes → Outcome WfMachinesError Event
canceled_event (some (Attributes.activity_task_canceled a)) = ok (activity_task_canceled a)
canceled_event _ = err fatal

event_of_type : EventType → HistEventData → Outcome WfMachinesError Event
event_of_type EventType.activity_task_scheduled d = scheduled_event d d.event.attributes
event_of_type EventType.activity_task_started d = ok (activity_task_started d.event.event_id)
event_of_type EventType.activity_task_completed d = completed_event d.event.attributes
event_of_type EventType.activity_task_failed d = failed_event d.event.attributes
event_of_type EventType.activity_task_timed_out d = timed_out_event d.event.attributes
event_of_type EventType.activity_task_cancel_requested d = ok activity_task_cancel_requested
event_of_type EventType.activity_task_canceled d = canceled_event d.event.attributes
event_of_type _ d = err nondeterminism

-- `TryFrom<HistEventData> for ActivityMachineEvents`.
unfoldable pub event_of_history : HistEventData → Outcome WfMachinesError Event
unfolding event_of_type scheduled_event completed_event failed_event timed_out_event canceled_event
event_of_history d = event_of_type d.event.event_type d

-- `TryFrom<CommandType> for ActivityMachineEvents`.
unfoldable pub event_of_command : CommandType → Option Event
event_of_command CommandType.schedule_activity_task = some command_schedule_activity_task
event_of_command CommandType.request_cancel_activity_task =
    some command_request_cancel_activity_task
event_of_command _ = none

-- `attrs.unwrap_or_default()`.
canceled_attributes :
    Option ActivityTaskCanceledEventAttributes → ActivityTaskCanceledEventAttributes
canceled_attributes none = record {
  details = none;
  scheduled_event_id = 0;
  started_event_id = 0;
  identity = [];
}
canceled_attributes (some a) = a

unfoldable pub create_cancelation_resolve :
    SharedState → Option ActivityTaskCanceledEventAttributes → ResolveActivity
unfolding canceled_attributes
create_cancelation_resolve dat attrs = record {
  seq = dat.attrs.seq;
  result = ActivityStatus.cancelled (some (new_cancel_failure dat (canceled_attributes attrs)));
  is_local = false;
}

-- `MachineResponse::from` of the job that resolves this activity.
resolve : SharedState → ActivityStatus → MachineResponse
resolve dat status =
    push_wf_job
      (Job.resolve_activity (record { seq = dat.attrs.seq; result = status; is_local = false }))

machine_responses_from_cancel_request : SharedState → ProtoCommand → List MachineResponse
unfolding create_cancelation_resolve
machine_responses_from_cancel_request dat c = elim dat.cancellation_type [
  | ActivityCancellationType.wait_cancellation_completed ↦ issue_new_command c ∷ []
  | _ ↦
      issue_new_command c
      ∷ push_wf_job (Job.resolve_activity (create_cancelation_resolve dat none))
      ∷ []
]

-- `convert_payloads`.
convert_payloads : Option Payloads → Outcome WfMachinesError (Option Payload)
convert_payloads result = map_err (λ _. fatal) (one_payload result)

unfoldable pub adapt_response :
    ActivityMachine → ActivityMachineCommand → Option EventInfo → Responses
unfolding convert_payloads resolve machine_responses_from_cancel_request create_cancelation_resolve
adapt_response m (complete result) info = do
  payload ← convert_payloads result
  ok (resolve m.shared_state (ActivityStatus.completed payload) ∷ [])
adapt_response m (fail f) info = ok (resolve m.shared_state (ActivityStatus.failed (some f)) ∷ [])
adapt_response m (request_cancellation c) info =
    ok (machine_responses_from_cancel_request m.shared_state c)
adapt_response m (cancel_command attrs) info =
    ok (push_wf_job (Job.resolve_activity (create_cancelation_resolve m.shared_state attrs)) ∷ [])

abbrev pub activity : WfMachine
activity = record {
  fsm = ActivityFsm;
  into_error = λ e. e;
  event_of_history = event_of_history;
  event_of_command = event_of_command;
  adapt_response = adapt_response;
}

-- `ActivityCancellationType::try_from(..).unwrap_or(TryCancel)`.
abbrev pub cancellation_type_or_default : Option ActivityCancellationType → ActivityCancellationType
cancellation_type_or_default none = ActivityCancellationType.try_cancel
cancellation_type_or_default (some t) = t

abbrev pub initial_state : ScheduleActivity → InternalFlags → SharedState
initial_state attrs flags = record {
  scheduled_event_id = 0;
  started_event_id = 0;
  attrs = attrs;
  cancellation_type = cancellation_type_or_default attrs.cancellation_type;
  cancelled_before_sent = false;
  internal_flags = flags;
}

-- `ActivityMachine::new_scheduled`; `none` is the panic of `expect`.
unfoldable pub new_scheduled :
    ScheduleActivity → InternalFlags → Bool → Option (ActivityMachine × CommandAttributes)
new_scheduled attrs flags use_compatible_version =
    let (s, r) =
      on_event ActivityFsm (from_parts ActivityFsm created (initial_state attrs flags)) schedule in
    elim r [
      | ok _ ↦ some (s, schedule_activity_cmd_to_api s.shared_state.attrs use_compatible_version)
      | err _ ↦ none
      | panicked ↦ none
    ]

-- The `flat_map` of `cancel` over the commands. `panicked` is the `panic!` of its last arm.
cancel_responses :
    ActivityMachine
    → List ActivityMachineCommand
    → Outcome (MachineError WfMachinesError) (List MachineResponse)
unfolding machine_responses_from_cancel_request create_cancelation_resolve
cancel_responses m [] = ok []
cancel_responses m (request_cancellation c ∷ cs) = cancel_responses m cs >>= λ rs.
    ok (machine_responses_from_cancel_request m.shared_state c ++ rs)
cancel_responses m (cancel_command details ∷ cs) = cancel_responses m cs >>= λ rs.
    ok (push_wf_job (Job.resolve_activity (create_cancelation_resolve m.shared_state details)) ∷ rs)
cancel_responses m (complete _ ∷ cs) = panicked
cancel_responses m (fail _ ∷ cs) = panicked

-- The terminal states in which a cancellation is ignored.
abbrev pub ignores_cancel : State → Bool
ignores_cancel completed = true
ignores_cancel canceled = true
ignores_cancel failed = true
ignores_cancel timed_out = true
ignores_cancel _ = false

cancel_event : ActivityCancellationType → Event
cancel_event ActivityCancellationType.abandon = abandon
cancel_event _ = cancel

send_cancel :
    ActivityMachine
    → ActivityMachine × Outcome (MachineError WfMachinesError) (List MachineResponse)
unfolding cancel_event cancel_responses
send_cancel m =
    let (m', r) = on_event ActivityFsm m (cancel_event m.shared_state.cancellation_type) in
    (m', r >>= cancel_responses m')

-- `ActivityMachine::cancel`. It reads the state first, which unwinds where there is none.
unfoldable pub cancel_activity :
    ActivityMachine
    → ActivityMachine × Outcome (MachineError WfMachinesError) (List MachineResponse)
unfolding send_cancel
cancel_activity m = elim m.state [
  | none ↦ (m, panicked)
  | some s ↦ if ignores_cancel s then (m, ok []) else send_cancel m
]

unfoldable pub was_cancelled_before_sent_to_server : ActivityMachine → Bool
was_cancelled_before_sent_to_server m = m.shared_state.cancelled_before_sent
