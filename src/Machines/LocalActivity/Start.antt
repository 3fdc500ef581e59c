-- ===== src/Machines/LocalActivity/Start.antt =====
-- What a new local activity asks for (`new_local_activity` of local_activity_state_machine.rs).
use sdk_core.Prelude.{
  ℕ, Bool, true, false, Option, none, some, List, if◌then◌else◌, ok, ok-injective, subst, ◌≡◌,
  arith,
}
use mathlib.Core.Option
use sdk_core.Fsm.{on_event}
use sdk_core.Flags.{InternalFlags}
use sdk_core.Proto.{ValidScheduleLa}
use sdk_core.Machines.{MachineResponse, queue_local_activity, issue_fake_local_activity_marker}
use sdk_core.Machines.LocalActivity.{
  MarkerJson, ResolveDat, SharedState, LocalActivityMachine, transition, adapt_response,
  resolved_responses,
}
use sdk_core.Machines.LocalActivity.Creation.{new_local_activity}
use sdk_core.Machines.LocalActivity.Tells.{tally}

abbrev pub is_fake : MachineResponse → Bool
is_fake (issue_fake_local_activity_marker _) = true
is_fake _ = false

abbrev pub is_queued : MachineResponse → Bool
is_queued (queue_local_activity _) = true
is_queued _ = false

resolved_asks :
    (json : MarkerJson) (dat : SharedState) (r : ResolveDat)
    → (tally is_fake (resolved_responses json dat r) ≡ 0)
      × (tally is_queued (resolved_responses json dat r) ≡ 0)
unfolding resolved_responses
resolved_asks json dat r = ground arith

-- Wherever a new local activity is created without an error, its responses queue it for execution
-- once if the workflow is not replaying, and never if it is; and no fake marker is among them, also
-- where the activity is created as resolved by a marker ahead in the history.
pub new_local_activity_asks :
    (json : MarkerJson) (attrs : ValidScheduleLa) (replays : Bool) (pre : Option ResolveDat)
    (wf_time : Option ℕ) (flags : InternalFlags) (now : ℕ) (m : LocalActivityMachine)
    (rs : List MachineResponse)
    → new_local_activity json attrs replays pre wf_time flags now ≡ ok (m, rs)
    → (tally is_queued rs ≡ (if replays then 0 else 1)) × (tally is_fake rs ≡ 0)
unfolding new_local_activity on_event transition adapt_response
new_local_activity_asks json attrs true none wf_time flags now m rs h = ground arith
new_local_activity_asks json attrs false none wf_time flags now m rs h = ground arith
new_local_activity_asks json attrs false (some r) wf_time flags now m rs h = cc
new_local_activity_asks json attrs true (some r) wf_time flags now m rs h =
    let (fake, queued) =
      resolved_asks json
        (record {
          attrs = record attrs {
            original_schedule_time = some (Option.get_or attrs.original_schedule_time now);
          };
          replaying_when_invoked = true;
          wf_time_when_started = wf_time;
          internal_flags = flags;
        })
        r in
    subst (λ p. (tally is_queued p.1 ≡ 0) × (tally is_fake p.1 ≡ 0)) (ok-injective h) (queued, fake)
