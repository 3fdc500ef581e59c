-- ===== src/Machines/UpsertSearchAttributes.antt =====
-- core/src/worker/workflow/machines/upsert_search_attributes_state_machine.rs: the machine that changes the
-- search attributes of a workflow.
use sdk_core.Prelude.{
  Bool, true, false, not, ◌&&◌, if◌then◌else◌, Option, none, some, List, [], ◌∷◌, Text, codes,
  text_eq, Outcome, ok, err,
}
use sdk_core.Fsm.{StateMachine, Machine, TransitionResult, default, from_parts}
use sdk_core.Flags.{InternalFlags, try_use, upsert_search_attribute_on_patch}
use sdk_core.Proto.{Payload, CommandType, CommandAttributes, HistEventData, Attributes, EventInfo}
use sdk_core.Machines.{WfMachinesError, nondeterminism, Responses, WfMachine}

pub data State : Type 0 where
  created command_issued done : State

-- It has no variant.
pub data UpsertSearchAttributesMachineCommand : Type 0 where

pub data Event : Type 0 where
  command_scheduled command_recorded : Event

-- The table of `fsm!`.
table :
    State
    → Event
    → Option (TransitionResult UpsertSearchAttributesMachineCommand State WfMachinesError)
table created command_scheduled = some (default command_issued)
table command_issued command_recorded = some (default done)
table _ _ = none

unfoldable pub transition :
    State
    → Unit {0}
    → Event
    → Option
        (Unit {0} × TransitionResult UpsertSearchAttributesMachineCommand State WfMachinesError)
unfolding table
transition s dat e = elim (table s e) [ none ↦ none | some r ↦ some (dat, r) ]

unfoldable pub is_final : State → Bool
is_final done = true
is_final _ = false

abbrev pub UpsertSearchAttributesFsm : StateMachine
UpsertSearchAttributesFsm = record {
  State = State;
  SharedState = Unit {0};
  Event = Event;
  Command = UpsertSearchAttributesMachineCommand;
  Error = WfMachinesError;
  transition = transition;
  is_final = is_final;
}

abbrev pub UpsertSearchAttributesMachine : Type 0
UpsertSearchAttributesMachine = Machine UpsertSearchAttributesFsm

-- `TryFrom<HistEventData>` looks at the attributes, not at the type of the event.
event_of_attributes : Option Attributes → Outcome WfMachinesError Event
event_of_attributes (some (Attributes.upsert_workflow_search_attributes _)) = ok command_recorded
event_of_attributes _ = err nondeterminism

unfoldable pub event_of_history : HistEventData → Outcome WfMachinesError Event
unfolding event_of_attributes
event_of_history d = event_of_attributes d.event.attributes

-- `TryFrom<CommandType>`.
unfoldable pub event_of_command : CommandType → Option Event
event_of_command CommandType.upsert_workflow_search_attributes = some command_scheduled
event_of_command _ = none

unfoldable pub adapt_response :
    UpsertSearchAttributesMachine
    → UpsertSearchAttributesMachineCommand
    → Option EventInfo
    → Responses
adapt_response m c info = err nondeterminism

abbrev pub upsert_search_attributes_machine : WfMachine
upsert_search_attributes_machine = record {
  fsm = UpsertSearchAttributesFsm;
  into_error = λ e. e;
  event_of_history = event_of_history;
  event_of_command = event_of_command;
  adapt_response = adapt_response;
}

-- The `indexed_fields` of a `SearchAttributes`.
abbrev pub SearchAttributes : Type 0
SearchAttributes = List (Text × Payload)

-- `VERSION_SEARCH_ATTR_KEY` of patch_state_machine.rs.
abbrev pub version_search_attr_key : Text
version_search_attr_key = codes "TemporalChangeVersion"

unfoldable pub contains_key : Text → SearchAttributes → Bool
contains_key k [] = false
contains_key k ((j, v) ∷ m) = if text_eq j k then true else contains_key k m

unfoldable pub create_new : SearchAttributes → CommandAttributes × UpsertSearchAttributesMachine
create_new sa_map = (
  CommandAttributes.upsert_workflow_search_attributes (some sa_map),
  from_parts UpsertSearchAttributesFsm created tt,
)

-- `upsert_search_attrs`, with the flags since it may note the use of one.
unfoldable pub upsert_search_attrs :
    SearchAttributes
    → InternalFlags
    → (replaying : Bool) → InternalFlags × CommandAttributes × UpsertSearchAttributesMachine
unfolding create_new contains_key
upsert_search_attrs attribs flags replaying =
    let (flags', has_flag) = try_use flags upsert_search_attribute_on_patch (not replaying) in
    let new =
      create_new
        (if has_flag && contains_key version_search_attr_key attribs then [] else attribs) in
    (flags', new.0, new.1)

unfoldable pub upsert_search_attrs_internal :
    Option SearchAttributes → CommandAttributes × UpsertSearchAttributesMachine
unfolding create_new
upsert_search_attrs_internal none = create_new []
upsert_search_attrs_internal (some attribs) = create_new attribs
