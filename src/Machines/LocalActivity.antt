-- ===== src/Machines/LocalActivity.antt =====
-- local_activity_state_machine.rs: the machine of a local activity around its handlers: its
-- conversions and responses, and how the workflow's machines create, resolve and cancel it.
mod Handlers
mod Markers
mod Resolving
pub mod Creation
pub mod Moves
pub mod Resolution
pub mod Roundtrip
pub mod Start
pub mod Tells
unfoldable pub use Handlers.*
unfoldable pub use Markers.*
unfoldable pub use Resolving.*
use sdk_core.Prelude.{
  ℕ, ◌+◌, ◌%◌, ◌^◌, Bool, true, false, Option, none, some, List, [], ◌∷◌, ◌++◌, if◌then◌else◌, Text,
  codes, Outcome, ok, err, panicked, ◌>>=◌,
}
use mathlib.Core.Option
use sdk_core.Fsm.{StateMachine, Machine, MachineError, underlying, from_parts, on_event}
use sdk_core.Flags.{InternalFlags}
use sdk_core.Proto.{
  Payload, Failure, failure, caused_by, FailureInfo, CommandType, CommandAttributes, EventType,
  HistEventData, HistoryEvent, EventInfo, ActivityCancellationType, RetryState, ActivityStatus, Job,
  ValidScheduleLa, LocalActivityExecutionResult, CompleteLocalActivityData, LocalActivityMarkerData,
}
use sdk_core.Machines.{
  WfMachinesError, nondeterminism, fatal, MachineResponse, push_wf_job, issue_new_command,
  queue_local_activity, update_wf_time, abandon_local_activity, issue_fake_local_activity_marker,
  request_cancel_local_activity, proto_command, Responses, WfMachine, process_machine_commands,
  invalid_transition_error,
}
use sdk_core.Machines.Activity.{activity_fail_info}

-- Every state has a transition, so none is final.
unfoldable pub is_final : State → Bool
is_final s = false

abbrev pub LocalActivityFsm : StateMachine
LocalActivityFsm = record {
  State = State;
  SharedState = SharedState;
  Event = Event;
  Command = LocalActivityCommand;
  Error = WfMachinesError;
  transition = transition;
  is_final = is_final;
}

abbrev pub LocalActivityMachine : Type 0
LocalActivityMachine = Machine LocalActivityFsm

module _ (json : MarkerJson) where
  unfoldable pub adapt_response :
      LocalActivityMachine → LocalActivityCommand → Option EventInfo → Responses
  unfolding resolved_responses
  adapt_response m (request_activity_execution act) info = ok (queue_local_activity act ∷ [])
  adapt_response m (resolved dat) info = ok (resolved_responses json m.shared_state dat)
  adapt_response m fake_marker info =
      ok (issue_fake_local_activity_marker m.shared_state.attrs.seq ∷ [])
  adapt_response m request_cancel info =
      ok (request_cancel_local_activity m.shared_state.attrs.seq ∷ [])

  marker_event : Option CompleteLocalActivityData → Outcome WfMachinesError Event
  marker_event none = err nondeterminism
  marker_event (some d) = ok (marker_recorded d)

  event_of_type : EventType → HistoryEvent → Outcome WfMachinesError Event
  unfolding marker_event into_local_activity_marker_details
  event_of_type EventType.marker_recorded e =
      marker_event (into_local_activity_marker_details json e)
  event_of_type _ e = err nondeterminism

  -- `TryFrom<HistEventData> for LocalActivityMachineEvents`.
  unfoldable pub event_of_history : HistEventData → Outcome WfMachinesError Event
  unfolding event_of_type
  event_of_history d = event_of_type d.event.event_type d.event

-- `TryFrom<CommandType> for LocalActivityMachineEvents`.
unfoldable pub event_of_command : CommandType → Option Event
event_of_command CommandType.record_marker = some command_record_marker
event_of_command _ = none

abbrev pub local_activity : MarkerJson → WfMachine
local_activity json = record {
  fsm = LocalActivityFsm;
  into_error = λ e. e;
  event_of_history = event_of_history json;
  event_of_command = event_of_command;
  adapt_response = adapt_response json;
}

-- `marker_should_get_special_handling`, where `panicked` is the panic of `state`.
special_handling : Option State → Outcome WfMachinesError Bool
special_handling none = panicked
special_handling (some (result_notified _)) = ok false
special_handling (some (waiting_marker_event _)) = ok true
special_handling (some waiting_marker_event_pre_resolved) = ok true
special_handling (some _) = err fatal

unfoldable pub marker_should_get_special_handling :
    LocalActivityMachine → Outcome WfMachinesError Bool
unfolding special_handling
marker_should_get_special_handling m = special_handling m.state

is_waiting : State → Bool
is_waiting (waiting_marker_event _) = true
is_waiting _ = false

-- `will_accept_resolve_marker`, where `none` is the panic of `state`.
unfoldable pub will_accept_resolve_marker : LocalActivityMachine → Option Bool
unfolding is_waiting
will_accept_resolve_marker m = Option.map is_waiting m.state

cancel_event : ActivityCancellationType → Event
cancel_event ActivityCancellationType.try_cancel =
    no_wait_cancel ActivityCancellationType.try_cancel
cancel_event ActivityCancellationType.abandon = no_wait_cancel ActivityCancellationType.abandon
cancel_event ActivityCancellationType.wait_cancellation_completed = cancel

module _ (json : MarkerJson) where
  abbrev pub Answer : Type 0
  Answer = LocalActivityMachine × Responses

  -- All commands of one event, adapted.
  pub adapted :
      LocalActivityMachine × Outcome (MachineError WfMachinesError) (List LocalActivityCommand)
      → Answer
  adapted (m, ok cs) = (m, process_machine_commands (local_activity json) m cs none)
  adapted (m, err MachineError.invalid_transition) = (m, invalid_transition_error m.state fatal)
  adapted (m, err (underlying e)) = (m, err e)
  adapted (m, panicked) = (m, panicked)

  -- `encountered_non_replay_wft`. Only one command comes of it.
  on_non_replay : Option State → LocalActivityMachine → Answer
  unfolding adapted on_event
  on_non_replay none m = (m, panicked)
  on_non_replay (some (waiting_marker_event _)) m =
      adapted (on_event LocalActivityFsm m started_non_replay_wft)
  on_non_replay (some _) m = (m, ok [])

  unfoldable pub encountered_non_replay_wft : LocalActivityMachine → Answer
  unfolding on_non_replay
  encountered_non_replay_wft m = on_non_replay m.state m

  -- `_try_resolve`.
  resolve_by : LocalActivityMachine → ResolveDat → (from_marker : Bool) → Answer
  unfolding adapted on_event
  resolve_by m dat from_marker = adapted (
      on_event LocalActivityFsm m
        (if from_marker then handle_known_result dat else handle_result dat))

  unfoldable pub try_resolve_with_dat : LocalActivityMachine → ResolveDat → Answer
  unfolding resolve_by
  try_resolve_with_dat m dat = resolve_by m dat true

  unfoldable pub try_resolve :
      LocalActivityMachine
      → LocalActivityExecutionResult
      → (runtime attempt : ℕ) (backoff original_schedule_time : Option ℕ) → Answer
  unfolding resolve_by
  try_resolve m result runtime attempt backoff original_schedule_time =
      resolve_by m
        (record {
          result = result;
          complete_time = Option.map (λ t. t + runtime) m.shared_state.wf_time_when_started;
          attempt = attempt;
          backoff = backoff;
          original_schedule_time = original_schedule_time;
        })
        false

  -- `LocalActivityMachine::cancel`. Its conversion of an error of `adapt_response` into one of the
  -- machine is `underlying`.
  pub cancelled_responses :
      LocalActivityMachine × Outcome (MachineError WfMachinesError) (List LocalActivityCommand)
      → LocalActivityMachine × Outcome (MachineError WfMachinesError) (List MachineResponse)
  cancelled_responses (m, r) = (
    m,
    r >>= λ cs.
        sdk_core.Prelude.map_err underlying
          (process_machine_commands (local_activity json) m cs none),
  )

  unfoldable pub cancel_local_activity :
      LocalActivityMachine
      → LocalActivityMachine × Outcome (MachineError WfMachinesError) (List MachineResponse)
  unfolding cancelled_responses cancel_event on_event
  cancel_local_activity m =
      cancelled_responses
        (on_event LocalActivityFsm m (cancel_event m.shared_state.attrs.cancellation_type))
