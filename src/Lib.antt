-- ===== src/Lib.antt =====
-- Temporal Core SDK (the repository's root; paths below are from there): the state machines that
-- replay a workflow's history.
--
-- Parts, and the files that model them.
--
-- fsm/rustfsm_trait/src/lib.rs and fsm/rustfsm_procmacro/src/lib.rs (Fsm.antt, laws in Fsm/Run.antt):
-- the transducers that `fsm!` generates. A machine is an optional state and a shared state. The
-- table and its handlers are one function `transition`, which is `none` where the table has no
-- arm. `on_event` takes the state out and puts one back only if the handler accepts.
--
-- core/src/worker/workflow/machines/mod.rs (Machines.antt, Machines/Inputs.antt): what is added to a
-- generated machine to take commands and history events (`handle_command`, `handle_event`) and to
-- turn its commands into responses for the workflow. `WfMachine` is the interface that each machine
-- below fills. `Inputs.run_inputs` is a run of history events, commands and cancellations.
--
-- core/src/worker/workflow/machines/ has a file for each machine, and so has Machines/:
-- timer_state_machine.rs (Machines/Timer.antt), activity_state_machine.rs (Machines/Activity.antt,
-- its handlers in Machines/Activity/Handlers.antt), child_workflow_state_machine.rs
-- (Machines/ChildWorkflow.antt, with Handlers and Events), signal_external_state_machine.rs
-- (Machines/SignalExternal.antt, with Creation), cancel_external_state_machine.rs
-- (Machines/CancelExternal.antt), workflow_task_state_machine.rs (Machines/WorkflowTask.antt),
-- local_activity_state_machine.rs (Machines/LocalActivity.antt: the table in Handlers, the markers of
-- sdk-core-protos in Markers, `adapt_response` in Resolving, `new_local_activity` in Creation),
-- patch_state_machine.rs (Machines/Patch.antt: Table, Markers, and `has_change` in Creation) and
-- update_state_machine.rs (Machines/Update.antt: its creation in Init, and in Incoming the requests of
-- core/src/protosext/protocol_messages.rs). Those that end a workflow are in Machines/Endings;
-- modify_workflow_properties_state_machine.rs and upsert_search_attributes_state_machine.rs have the
-- files Machines/ModifyProperties.antt and Machines/UpsertSearchAttributes.antt. What these six have in
-- common is the interface `OneShot` of Machines/OneShot.antt, which Machines/OneShot/Kinds.antt fills for
-- each.
-- The data types are those of the source; `transition` is the table of `fsm!` with the handlers;
-- `event_of_history` and `event_of_command` are the two `TryFrom`; `adapt_response` is the method
-- of that name; `cancel_timer`, `cancel_activity`, `cancel_child` and `cancel_signal` are the
-- `cancel` of their machines, and so is `cancel_local_activity`. In the update machine, the table is
-- `table`, and `handle_response` is how lang's answer to an update gets to it.
--
-- core/src/worker/workflow/machines/workflow_machines.rs (Machines/Matching.antt and First): how the
-- owner of all machines finds the command, and so the machine, that a command event is for. `consume` is
-- the loop of `handle_command_event` up to where the machine is fed; Machines/AnyMachine.antt is the enum
-- `Machines`, without the machines of Nexus operations; the slot map of machines is a function.
--
-- core/src/worker/workflow/machines/workflow_machines/local_acts.rs (LocalActs.antt): the queue of
-- local activities that the machines fill and the worker drains. Sets and maps are lists.
--
-- core/src/worker/workflow/history_update.rs (History.antt, History/Pages.antt and children): pages
-- of history cut into the sequences of events that the machines above are fed with, one workflow
-- task at a time. `scan` is the loop of `find_end_index_of_next_wft_seq`, `visit` its body, and
-- `count_wfts` the loop of `from_events`, which is `none` where an index is out of range.
-- History/Paginator.antt is the paginator; the server
-- it fetches from is the list of its answers, and the loop `extract` has as fuel one turn for each
-- answer and one more.
--
-- core/src/internal_flags.rs (Flags.antt, Flags/Laws.antt): the flags that a workflow may use. The
-- cell that all machines of a workflow share is a field of each machine's shared state; its owner
-- copies it in before a call and out after.
--
-- core/src/abstractions.rs (Permits.antt and children): the permits for tasks. `Dealer` is
-- `MeteredPermitDealer`, `Closable` is `ClosableMeteredPermitDealer`; the counters wrap as a `usize`
-- does. Permits/Bounds.antt lets several tasks acquire at once; Permits/Serial.antt makes whole calls
-- one after another; Permits/Threads.antt and Permits/Races.antt interleave the atomic steps of the
-- calls of several threads, counting the threads that stand at each step. The slot supplier's answers are
-- arguments.
--
-- core/src/retry_logic.rs (Retry.antt, Retry/Decision.antt): whether and when a local activity is tried
-- again. The interface `Numbers` stands for the floating-point numbers and the conversions of durations.
--
-- sdk-core-protos (Proto.antt and children): the messages exchanged with lang and the server, with
-- the fields that the modelled code reads.
--
-- Conventions. A text is the list of its bytes. Event ids, sequence numbers and times are natural
-- numbers; where code computes with machine integers so that they can wrap (the attempts of a local
-- activity, the counters of permits), the wrap is written out. `Outcome` is a `Result` with
-- one more case for code that unwinds (`panic!`, `unreachable!`, `unwrap`). Error messages, logging
-- and metrics are left out. `dbg_panic!` is what it is in a release build: it logs.
--
-- Loops run over lists; three are on fuel. The decimal print of a number (Prelude/Texts.antt) has fuel
-- n + 1, which is enough by `value-digits`. The loop of `from_events` has fuel for each event and one
-- more, which is enough since every turn leaves at least one event behind. The loop of
-- `extract_next_update` uses up an answer with every turn but the last.
--
-- Parameters. The JSON of a local activity's marker (`MarkerJson`), that of patches (`PatchJson`) and
-- prost's encoding of an update's messages (`encode`, `unpack`) are functions that may fail; nothing is
-- assumed of them but what a theorem names.
--
-- Not modelled: the gRPC client, pollers, telemetry and the prototype SDK, which are input and output
-- around the machines; the machines of Nexus operations; the rest of the workflow machines
-- that own all machines; how a paginator is created from a poll; the run
-- cache and the managed runs; slot suppliers; the manager that executes local activities.
pub mod Prelude
pub mod Fsm
pub mod Proto
pub mod Flags
pub mod History
pub mod LocalActs
pub mod Machines
pub mod Permits
pub mod Retry
mod Tests
