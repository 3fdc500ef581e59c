-- ===== src/Machines/Activity/Abandon.antt =====
-- Activities that lang abandoned, and cancellations that come again (activity_state_machine.rs).
use sdk_core.Prelude.{
  Bool, true, false, Option, none, some, List, [], ok, err, ◌≡◌, if◌then◌else◌, arith,
}
use sdk_core.Fsm.{invalid_transition, from_parts, on_event}
use sdk_core.Proto.{
  ActivityCancellationType, EventType, HistEventData, Attributes, ActivityTaskFailedEventAttributes,
  ActivityTaskTimedOutEventAttributes, ActivityTaskCompletedEventAttributes,
}
use sdk_core.Machines.{fatal, handle_event, MachineResponse}
use sdk_core.Machines.Activity.{
  created, State, started, scheduled_event_recorded, SharedState, transition, ActivityFsm,
  ActivityMachine, activity, event_of_history, cancel_activity,
}

-- An activity that runs and is abandoned is left in `canceled`.
pub abandoned : SharedState → ActivityMachine
unfolding cancel_activity on_event transition
abandoned dat = (cancel_activity (from_parts ActivityFsm started dat)).0

-- An event of the given type and attributes, otherwise as `d`.
abbrev pub reporting : HistEventData → EventType → Attributes → HistEventData
reporting d t a = record d { event = record (d.event) { event_type = t; attributes = some a } }

-- A running activity that was abandoned: if it completes all the same, its result is dropped and
-- the machine stays as it is; but if it fails or times out, the event is a fatal error.
pub abandoned_outcomes :
    (dat : SharedState) (d : HistEventData) (c : ActivityTaskCompletedEventAttributes)
    (f : ActivityTaskFailedEventAttributes) (t : ActivityTaskTimedOutEventAttributes)
    → dat.cancellation_type ≡ ActivityCancellationType.abandon
    → (handle_event activity
          (abandoned dat)
          (reporting d EventType.activity_task_completed (Attributes.activity_task_completed c))
        ≡ (abandoned dat, ok []))
      × (handle_event activity
            (abandoned dat)
            (reporting d EventType.activity_task_failed (Attributes.activity_task_failed f))
          ≡ (abandoned dat, err fatal))
      × (handle_event activity
            (abandoned dat)
            (reporting d EventType.activity_task_timed_out (Attributes.activity_task_timed_out t))
          ≡ (abandoned dat, err fatal))
unfolding abandoned handle_event event_of_history on_event transition cancel_activity
abandoned_outcomes dat d c f t h = (ground arith, ground arith, ground arith)

-- Whether cancelling an activity asks the server and then waits for it: it was scheduled or started,
-- and is not of the abandoning type.
abbrev pub asks_server : Option State → ActivityCancellationType → Bool
asks_server (some _) ActivityCancellationType.abandon = false
asks_server (some scheduled_event_recorded) _ = true
asks_server (some started) _ = true
asks_server _ _ = false

-- What a second cancellation does, by what the first one did.
pub SecondCancel : ActivityMachine → Type 0
SecondCancel m =
    let m' = (cancel_activity m).0 in
    cancel_activity m' ≡ (
      m',
      if asks_server m.state m.shared_state.cancellation_type
          then err invalid_transition
          else ok [],
    )

cancel_twice :
    (s : Option State) (dat : SharedState) (rs : List MachineResponse)
    → let m : ActivityMachine = record { state = s; shared_state = dat } in
      (cancel_activity m).1 ≡ ok rs → SecondCancel m
unfolding SecondCancel cancel_activity on_event transition
cancel_twice none dat rs h = cc
cancel_twice (some created) dat rs h = ground arith
cancel_twice (some s) dat rs h = ground arith

-- Cancelling again right after an accepted cancellation leaves the machine as it is. It is refused as
-- an invalid transition if the first one asked the server to cancel, that is, if the activity was
-- scheduled or started and is not of the abandoning type; and it is ignored in every other case.
pub cancel_activity_twice :
    (m : ActivityMachine) (rs : List MachineResponse)
    → (cancel_activity m).1 ≡ ok rs
    → SecondCancel m
cancel_activity_twice m rs h = cancel_twice m.state m.shared_state rs h
