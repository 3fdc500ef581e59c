-- ===== src/Machines/LocalActivity/Creation.antt =====
-- `new_local_activity` of local_activity_state_machine.rs.
use sdk_core.Prelude.{
  ℕ, Bool, true, false, Option, none, some, List, [], ◌∷◌, Outcome, ok, err, panicked, ◌>>=◌,
}
use mathlib.Core.Option
use sdk_core.Fsm.{from_parts, on_event}
use sdk_core.Flags.{InternalFlags}
use sdk_core.Proto.{ValidScheduleLa}
use sdk_core.Machines.{WfMachinesError, nondeterminism, MachineResponse, Responses}
use sdk_core.Machines.LocalActivity.{
  MarkerJson, ResolveDat, State, executing, replaying, replaying_pre_resolved, schedule,
  LocalActivityCommand, LocalActivityFsm, LocalActivityMachine, adapt_response,
}

-- The state that `new_local_activity` starts in.
initial_state : (replaying : Bool) → Option ResolveDat → Outcome WfMachinesError State
initial_state true (some dat) = ok (replaying_pre_resolved dat)
initial_state true none = ok replaying
initial_state false (some _) = err nondeterminism
initial_state false none = ok executing

-- `get_or_insert` of the schedule time.
with_schedule_time : ValidScheduleLa → ℕ → ValidScheduleLa
with_schedule_time attrs now = record attrs {
  original_schedule_time = some (Option.get_or attrs.original_schedule_time now);
}

last_command : List LocalActivityCommand → Option LocalActivityCommand
last_command [] = none
last_command (c ∷ []) = some c
last_command (_ ∷ c ∷ cs) = last_command (c ∷ cs)

module _ (json : MarkerJson) where
  -- `res.pop()`, and the responses of what it gives.
  scheduled_responses : LocalActivityMachine → Option LocalActivityCommand → Responses
  unfolding adapt_response
  scheduled_responses m none = ok []
  scheduled_responses m (some c) = elim (adapt_response json m c none) [
    | ok rs ↦ ok rs
    | err _ ↦ panicked
    | panicked ↦ panicked
  ]

  unfoldable pub new_local_activity :
      ValidScheduleLa
      → (replaying_when_invoked : Bool) → Option ResolveDat
      → (wf_time : Option ℕ) → InternalFlags
      → (now : ℕ) → Outcome WfMachinesError (LocalActivityMachine × List MachineResponse)
  unfolding initial_state with_schedule_time last_command scheduled_responses on_event
  new_local_activity attrs replaying_when_invoked maybe_pre_resolved wf_time flags now = do
    s ← initial_state replaying_when_invoked maybe_pre_resolved
    let scheduled =
        on_event LocalActivityFsm
          (from_parts LocalActivityFsm s (record {
            attrs = with_schedule_time attrs now;
            replaying_when_invoked = replaying_when_invoked;
            wf_time_when_started = wf_time;
            internal_flags = flags;
          }))
          schedule
    cs ← elim scheduled.1 [ ok cs ↦ ok cs | err _ ↦ panicked | panicked ↦ panicked ]
    rs ← scheduled_responses scheduled.0 (last_command cs)
    ok (scheduled.0, rs)
