-- ===== src/Tests/UpdateTests.antt =====
-- update_state_machine.rs on a concrete update.
use sdk_core.Prelude.{none, some, [], ◌++◌, Option, Text, codes, refl}
use sdk_core.Fsm.{on_event, from_parts}
use sdk_core.Proto.{CommandType, Request, UpdateResponse}
use sdk_core.Machines.{process_machine_commands, finish, handle_command}
use sdk_core.Machines.Update.{
  UpdateMsg, UpdateFsm, SharedState, completed_immediately_accept_created, accepted, transition,
  adapt_response, handle_response, event_of_command,
}
use sdk_core.Machines.Update.Messages.{IsTranscript, acceptance_of, completion_of}
use sdk_core.Machines.Update.Answers.{Run, new, next, step, responds, command, update-IsTranscript}

abbrev encode : UpdateMsg → Option Text
encode _ = some []

abbrev request : Request
request = record { meta = none; input = none }

abbrev dat : SharedState
dat = record {
  message_id = codes "m";
  instance_id = codes "i";
  event_seq_id = 2;
  meta = record { update_id = codes "u"; identity = [] };
}

completed_run :
    Run encode request dat
      (from_parts UpdateFsm completed_immediately_accept_created dat)
      (acceptance_of dat [] ++ completion_of dat [])
unfolding step on_event transition adapt_response handle_response process_machine_commands finish
    handle_command event_of_command
completed_run =
    next (command CommandType.protocol_message)
      (next (responds (some (UpdateResponse.completed (record { metadata = []; body = [] }))))
        (next (responds (some UpdateResponse.accepted)) (new refl) refl) refl)
      refl

update-IsTranscript_example :
    IsTranscript dat
      (acceptance_of dat [] ++ completion_of dat [])
      (from_parts UpdateFsm completed_immediately_accept_created dat)
update-IsTranscript_example = update-IsTranscript encode completed_run
