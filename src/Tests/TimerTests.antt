-- ===== src/Tests/TimerTests.antt =====
-- timer_state_machine.rs on concrete timers.
use sdk_core.Prelude.{
  true, false, none, some, List, [], ◌∷◌, ok, err, codes, to_string, ◌≡◌, ◌≢◌, ◌⊎◌, refl,
}
use sdk_core.Fsm.{from_parts, on_event}
use sdk_core.Fsm.Run.{run}
use sdk_core.Proto.{StartTimer}
use sdk_core.Machines.Timer.{
  Event, TimerFsm, SharedState, fired, command_start_timer, timer_started, timer_fired, cancel,
  complete, transition, new_scheduled,
}
use sdk_core.Machines.Timer.Resolution.{scheduled, IsResolved, run-IsResolved}

abbrev ten : StartTimer
ten = record { seq = 10; start_to_fire_timeout = some 5 }

abbrev dat : SharedState
dat = record { attrs = ten; cancelled_before_sent = false }

-- The machine after scheduling is the one that the theorems start from.
new_scheduled_test :
    new_scheduled ten ≡ some (scheduled ten, sdk_core.Proto.start_timer_attributes ten)
unfolding new_scheduled on_event transition
new_scheduled_test = refl

abbrev life : List Event
life =
    command_start_timer
    ∷ timer_started 5
    ∷ timer_fired (record { timer_id = codes "10"; started_event_id = 5 })
    ∷ cancel
    ∷ []

life_runs : run TimerFsm (scheduled ten) life ≡ ok (from_parts TimerFsm fired dat, complete ∷ [])
unfolding run on_event transition to_string sdk_core.Prelude.text_eq
life_runs = refl

run-IsResolved_example : IsResolved ten (complete ∷ []) (from_parts TimerFsm fired dat)
run-IsResolved_example = run-IsResolved ten life _ _ life_runs
