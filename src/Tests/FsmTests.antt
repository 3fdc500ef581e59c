-- ===== src/Tests/FsmTests.antt =====
-- fsm/rustfsm_trait/src/lib.rs at a concrete machine: the timer.
use sdk_core.Prelude.{false, none}
use sdk_core.Fsm.{from_parts, on_event}
use sdk_core.Fsm.Run.{Ends, on_event-Ends}
use sdk_core.Machines.Timer.{TimerFsm, TimerMachine, SharedState, fired, cancel}

abbrev dat : SharedState
dat = record {
  attrs = record { seq = 7; start_to_fire_timeout = none };
  cancelled_before_sent = false;
}

abbrev lost : TimerMachine
lost = record { state = none; shared_state = dat }

on_event-Ends_example :
    Ends TimerFsm fired dat cancel (on_event TimerFsm (from_parts TimerFsm fired dat) cancel)
on_event-Ends_example = on_event-Ends TimerFsm fired dat cancel
