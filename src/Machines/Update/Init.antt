-- ===== src/Machines/Update/Init.antt =====
-- How an update starts: `UpdateRequest` of core/src/protosext/protocol_messages.rs, and
-- `UpdateMachine::init` of update_state_machine.rs.
use mathlib.Core.Option
use sdk_core.Prelude.{ℕ, Bool, not, Option, none, some, [], Text, Outcome, ok, err}
use sdk_core.Fsm.{from_parts}
use sdk_core.Proto.{Job, Meta, Request, DoUpdate}
use sdk_core.Proto.Updates
use sdk_core.Machines.{MachineResponse, push_wf_job}
use sdk_core.Machines.Update.{request_initiated, UpdateFsm, UpdateMachine}

-- `UpdateRequest::try_from`: the two fields that its methods unwrap are there.
unfoldable pub update_request : Request → Outcome (Unit {0}) Request
update_request r = elim r.input [
  | none ↦ err tt
  | some _ ↦ elim r.meta [ none ↦ err tt | some _ ↦ ok r ]
]

do_update_of : (instance_id : Text) → (replaying : Bool) → Updates.Input → Meta → DoUpdate
do_update_of instance_id replaying i meta = record {
  id = meta.update_id;
  protocol_instance_id = instance_id;
  name = i.name;
  input = Option.get_or i.args [];
  headers = Option.get_or i.header [];
  meta = some meta;
  run_validator = not replaying;
}

-- `UpdateMachine::init`. `none` is the panic of an accessor of `UpdateRequest`.
unfoldable pub init :
    (message_id instance_id : Text)
    → ℕ
    → Request
    → (replaying : Bool) → Option (UpdateMachine × MachineResponse)
unfolding do_update_of
init message_id instance_id event_seq_id request replaying = elim request.meta [
  | none ↦ none
  | some meta ↦ elim request.input [
    | none ↦ none
    | some i ↦ some (
      from_parts UpdateFsm (request_initiated request) (record {
        message_id = message_id;
        instance_id = instance_id;
        event_seq_id = event_seq_id;
        meta = meta;
      }),
      push_wf_job (Job.do_update (do_update_of instance_id replaying i meta)),
    )
  ]
]
