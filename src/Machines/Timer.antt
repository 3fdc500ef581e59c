-- ===== src/Machines/Timer.antt =====
-- core/src/worker/workflow/machines/timer_state_machine.rs: the state machine of a timer.
pub mod Resolution
pub mod Cancel
use sdk_core.Prelude.{
  ℕ, Bool, true, false, Option, none, some, List, [], ◌∷◌, if◌then◌else◌, Outcome, ok, err,
  panicked, to_string, text_eq, ◌>>=◌,
}
use sdk_core.Fsm.{
  StateMachine, Machine, MachineError, TransitionResult, default, from_parts, on_event,
}
use sdk_core.Proto.{
  CommandType, CommandAttributes, EventType, HistEventData, HistoryEvent, Attributes, EventInfo,
  TimerFiredEventAttributes, StartTimer, start_timer_attributes, cancel_timer_attributes, Job,
}
use sdk_core.Machines.{
  WfMachinesError, nondeterminism, fatal, MachineResponse, push_wf_job, issue_new_command,
  proto_command, Responses, WfMachine,
}

pub data State : Type 0 where
  created start_command_created start_command_recorded cancel_timer_command_created
        cancel_timer_command_sent canceled fired :
      State

pub data Event : Type 0 where
  schedule command_start_timer command_cancel_timer cancel timer_canceled : Event
  timer_started : (event_id : ℕ) → Event
  timer_fired : TimerFiredEventAttributes → Event

pub data TimerMachineCommand : Type 0 where
  complete : TimerMachineCommand
  issue_cancel_cmd : CommandAttributes → TimerMachineCommand

pub record SharedState : Type 0 where
  pub attrs : StartTimer
  pub cancelled_before_sent : Bool

abbrev pub Transition : Type 0
Transition = TransitionResult TimerMachineCommand State WfMachinesError

abbrev pub Arm : Type 0
Arm = Option (SharedState × Transition)

-- `StartCommandCreated::on_cancel`.
cancel_unsent : SharedState → SharedState × Transition
cancel_unsent dat = (record dat { cancelled_before_sent = true }, default canceled)

-- `StartCommandRecorded::on_timer_fired`.
on_timer_fired : SharedState → TimerFiredEventAttributes → SharedState × Transition
on_timer_fired dat fired_attrs =
    if text_eq (to_string dat.attrs.seq) fired_attrs.timer_id
    then (dat, TransitionResult.ok (complete ∷ []) fired)
    else (dat, TransitionResult.err nondeterminism)

-- `StartCommandRecorded::on_cancel`.
cancel_recorded : SharedState → SharedState × Transition
cancel_recorded dat = (
  dat,
  TransitionResult.ok
      (issue_cancel_cmd (cancel_timer_attributes (record { seq = dat.attrs.seq })) ∷ [])
      cancel_timer_command_created,
)

-- The table of `fsm!`.
unfoldable pub transition : State → SharedState → Event → Arm
unfolding cancel_unsent on_timer_fired cancel_recorded
transition created dat schedule = some (dat, default start_command_created)
transition start_command_created dat command_start_timer = some (dat, default start_command_created)
transition start_command_created dat (timer_started id) = some (dat, default start_command_recorded)
transition start_command_created dat cancel = some (cancel_unsent dat)
transition start_command_recorded dat (timer_fired a) = some (on_timer_fired dat a)
transition start_command_recorded dat cancel = some (cancel_recorded dat)
transition cancel_timer_command_created dat cancel =
    some (dat, default cancel_timer_command_created)
transition cancel_timer_command_created dat command_cancel_timer =
    some (dat, default cancel_timer_command_sent)
transition cancel_timer_command_sent dat timer_canceled = some (dat, default canceled)
transition canceled dat cancel = some (dat, default canceled)
transition fired dat cancel = some (dat, default fired)
transition _ dat _ = none

-- No state but these two is without a transition, and both have one: a `Cancel` onto themselves.
unfoldable pub is_final : State → Bool
is_final s = false

abbrev pub TimerFsm : StateMachine
TimerFsm = record {
  State = State;
  SharedState = SharedState;
  Event = Event;
  Command = TimerMachineCommand;
  Error = WfMachinesError;
  transition = transition;
  is_final = is_final;
}

abbrev pub TimerMachine : Type 0
TimerMachine = Machine TimerFsm

timer_fired_event : Option Attributes → Outcome WfMachinesError Event
timer_fired_event (some (Attributes.timer_fired a)) = ok (timer_fired a)
timer_fired_event _ = err fatal

event_of_type : EventType → HistoryEvent → Outcome WfMachinesError Event
event_of_type EventType.timer_started e = ok (timer_started e.event_id)
event_of_type EventType.timer_canceled e = ok timer_canceled
event_of_type EventType.timer_fired e = timer_fired_event e.attributes
event_of_type _ e = err nondeterminism

-- `TryFrom<HistEventData> for TimerMachineEvents`.
unfoldable pub event_of_history : HistEventData → Outcome WfMachinesError Event
unfolding event_of_type timer_fired_event
event_of_history d = event_of_type d.event.event_type d.event

-- `TryFrom<CommandType> for TimerMachineEvents`.
unfoldable pub event_of_command : CommandType → Option Event
event_of_command CommandType.start_timer = some command_start_timer
event_of_command CommandType.cancel_timer = some command_cancel_timer
event_of_command _ = none

unfoldable pub adapt_response : TimerMachine → TimerMachineCommand → Option EventInfo → Responses
adapt_response m complete info = ok (push_wf_job (Job.fire_timer m.shared_state.attrs.seq) ∷ [])
adapt_response m (issue_cancel_cmd c) info = ok (issue_new_command (proto_command c) ∷ [])

abbrev pub timer : WfMachine
timer = record {
  fsm = TimerFsm;
  into_error = λ e. e;
  event_of_history = event_of_history;
  event_of_command = event_of_command;
  adapt_response = adapt_response;
}

-- `TimerMachine::new_scheduled`: the machine and the command for the server.
unfoldable pub new_scheduled : StartTimer → Option (TimerMachine × CommandAttributes)
new_scheduled attribs =
    let s : TimerMachine =
      from_parts TimerFsm created (record { attrs = attribs; cancelled_before_sent = false }) in
    let (s', r) = on_event TimerFsm s schedule in
    elim r [
      | ok _ ↦ some (s', start_timer_attributes s'.shared_state.attrs)
      | err _ ↦ none
      | panicked ↦ none
    ]

-- The `match` of `cancel` on the last command. `panicked` is the `panic!` of its last arm.
cancel_responses :
    List TimerMachineCommand → Outcome (MachineError WfMachinesError) (List MachineResponse)
cancel_responses [] = ok []
cancel_responses (issue_cancel_cmd c ∷ []) = ok (issue_new_command (proto_command c) ∷ [])
cancel_responses (complete ∷ []) = panicked
cancel_responses (_ ∷ c ∷ cs) = cancel_responses (c ∷ cs)

-- `TimerMachine::cancel`.
unfoldable pub cancel_timer :
    TimerMachine → TimerMachine × Outcome (MachineError WfMachinesError) (List MachineResponse)
unfolding cancel_responses
cancel_timer m = let (m', r) = on_event TimerFsm m cancel in (m', r >>= cancel_responses)

unfoldable pub was_cancelled_before_sent_to_server : TimerMachine → Bool
was_cancelled_before_sent_to_server m = m.shared_state.cancelled_before_sent
