-- ===== src/Machines/Update/Stages.antt =====
-- An update as lang and the server see it, and that the machine of update_state_machine.rs
-- implements it: a request is accepted or rejected once, and an accepted one completes once.
use sdk_core.Prelude.{Option, none, some, Outcome, ok, err, ◌≡◌}
use sdk_core.Proto.{UpdateResponse}
use sdk_core.Machines.{WfMachinesError, nondeterminism, Responses}
use sdk_core.Machines.Update.{
  State, request_initiated, accepted, accept_command_created, accept_command_recorded, completed,
  completed_command_created, completed_command_recorded, rejected, completed_immediately,
  completed_immediately_accept_created, completed_immediately_complete_created, UpdateMachine,
}

pub data Stage : Type 0 where
  requested running refused done : Stage

abbrev pub stage_of : State → Stage
stage_of (request_initiated _) = requested
stage_of accepted = running
stage_of accept_command_created = running
stage_of accept_command_recorded = running
stage_of rejected = refused
stage_of completed = done
stage_of completed_command_created = done
stage_of completed_command_recorded = done
stage_of completed_immediately = done
stage_of completed_immediately_accept_created = done
stage_of completed_immediately_complete_created = done

-- What an answer of lang makes of an update. A rejection of an accepted update completes it, with a
-- failure.
abbrev pub advance : Stage → UpdateResponse → Option Stage
advance requested UpdateResponse.accepted = some running
advance requested (UpdateResponse.rejected _) = some refused
advance running (UpdateResponse.rejected _) = some done
advance running (UpdateResponse.completed _) = some done
advance _ _ = none

abbrev pub StageIn : Option State → Stage → Type 0
StageIn none t = ⊥
StageIn (some s) t = stage_of s ≡ t

abbrev pub Succeeds : {A : Type 0} → Outcome WfMachinesError A → Type 0
Succeeds (ok _) = Unit {0}
Succeeds _ = ⊥

-- What the machine `m` does where the update goes to the given stage, or to none.
abbrev pub Follows : UpdateMachine → Option Stage → UpdateMachine × Responses → Type 0
Follows m none (n, rs) = (n ≡ m) × (rs ≡ err nondeterminism)
Follows m (some t) (n, rs) = (n.shared_state ≡ m.shared_state) × StageIn n.state t × Succeeds rs
