-- ===== src/Machines/Patch/Table.antt =====
-- The table of `fsm!` in patch_state_machine.rs, the conversions of its events, and what the other
-- machines of a workflow ask it.
use sdk_core.Prelude.{
  Bool, true, false, if◌then◌else◌, Option, none, some, Text, text_eq, Outcome, ok, err, panicked,
}
use sdk_core.Fsm.{StateMachine, Machine, TransitionResult, default}
use sdk_core.Proto.{CommandType, HistEventData, EventInfo}
use sdk_core.Machines.{WfMachinesError, nondeterminism, Responses, WfMachine}
use sdk_core.Machines.Patch.Markers.{PatchJson, get_patch_marker_details}

pub data State : Type 0 where
  executing replaying marker_command_created marker_command_created_replaying notified
        marker_command_recorded :
      State

-- It has no variant.
pub data PatchCommand : Type 0 where

pub data Event : Type 0 where
  schedule command_record_marker : Event
  marker_recorded : (id : Text) → Event

pub record SharedState : Type 0 where
  pub patch_id : Text

-- `Notified::on_marker_recorded`.
on_marker_recorded : SharedState → Text → TransitionResult PatchCommand State WfMachinesError
unfolding text_eq
on_marker_recorded dat id =
    if text_eq id dat.patch_id
    then default marker_command_recorded
    else TransitionResult.err nondeterminism

-- The table of `fsm!`.
unfoldable pub transition :
    State
    → SharedState
    → Event
    → Option (SharedState × TransitionResult PatchCommand State WfMachinesError)
unfolding on_marker_recorded
transition executing dat schedule = some (dat, default marker_command_created)
transition replaying dat schedule = some (dat, default marker_command_created_replaying)
transition marker_command_created dat command_record_marker = some (dat, default notified)
transition marker_command_created_replaying dat command_record_marker = some (dat, default notified)
transition notified dat (marker_recorded id) = some (dat, on_marker_recorded dat id)
transition _ dat _ = none

unfoldable pub is_final : State → Bool
is_final marker_command_recorded = true
is_final _ = false

abbrev pub PatchFsm : StateMachine
PatchFsm = record {
  State = State;
  SharedState = SharedState;
  Event = Event;
  Command = PatchCommand;
  Error = WfMachinesError;
  transition = transition;
  is_final = is_final;
}

abbrev pub PatchMachine : Type 0
PatchMachine = Machine PatchFsm

-- `TryFrom<CommandType>`.
unfoldable pub event_of_command : CommandType → Option Event
event_of_command CommandType.record_marker = some command_record_marker
event_of_command _ = none

-- It panics, but there is no command to call it with.
unfoldable pub adapt_response : PatchMachine → PatchCommand → Option EventInfo → Responses
adapt_response m c info = panicked

-- `matches_patch`.
unfoldable pub matches_patch : PatchMachine → Text → Bool
unfolding text_eq
matches_patch m id = text_eq m.shared_state.patch_id id

module _ (json : PatchJson) where
  -- `TryFrom<HistEventData>`.
  unfoldable pub event_of_history : HistEventData → Outcome WfMachinesError Event
  event_of_history d = elim (get_patch_marker_details json d.event) [
    | some (id, deprecated) ↦ ok (marker_recorded id)
    | none ↦ err nondeterminism
  ]

  abbrev pub patch : WfMachine
  patch = record {
    fsm = PatchFsm;
    into_error = λ e. e;
    event_of_history = event_of_history;
    event_of_command = event_of_command;
    adapt_response = adapt_response;
  }
