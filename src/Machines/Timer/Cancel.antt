-- ===== src/Machines/Timer/Cancel.antt =====
-- Cancelling a timer (timer_state_machine.rs, `cancel`).
use sdk_core.Prelude.{true, Option, none, some, List, [], ◌∷◌, ok, err, ◌≡◌, refl, ◌⊎◌, inl, inr}
use sdk_core.Fsm.{on_event, invalid_transition, from_parts}
use sdk_core.Proto.{cancel_timer_attributes}
use sdk_core.Machines.{issue_new_command, proto_command, MachineResponse}
use sdk_core.Machines.Timer.{
  State, created, start_command_created, start_command_recorded, cancel_timer_command_created,
  cancel_timer_command_sent, canceled, fired, SharedState, TimerFsm, TimerMachine, transition,
  cancel_timer,
}

abbrev pub cancel_response : SharedState → MachineResponse
cancel_response dat =
    issue_new_command (proto_command (cancel_timer_attributes (record { seq = dat.attrs.seq })))

-- The whole of `cancel` on a machine that holds a state. Unsent, the timer is cancelled in place and
-- marked so; recorded, one command cancels it; once cancelled or fired, or with its cancellation
-- under way, nothing changes and nothing is issued; a timer that is not yet scheduled, or whose
-- cancellation waits for its event, refuses and stays as it was. It never panics.
pub cancel_timer_cases :
    (s : State) (dat : SharedState)
    → let r = cancel_timer (from_parts TimerFsm s dat) in
      ((s ≡ start_command_created)
        × (r ≡ (from_parts TimerFsm canceled (record dat { cancelled_before_sent = true }), ok [])))
      ⊎ ((s ≡ start_command_recorded)
          × (r ≡ (
            from_parts TimerFsm cancel_timer_command_created dat,
            ok (cancel_response dat ∷ []),
          )))
      ⊎ (((s ≡ cancel_timer_command_created) ⊎ (s ≡ canceled) ⊎ (s ≡ fired))
          × (r ≡ (from_parts TimerFsm s dat, ok [])))
      ⊎ (((s ≡ created) ⊎ (s ≡ cancel_timer_command_sent))
          × (r ≡ (from_parts TimerFsm s dat, err invalid_transition)))
unfolding cancel_timer transition on_event
cancel_timer_cases created dat = inr (inr (inr (inl refl, refl)))
cancel_timer_cases start_command_created dat = inl (refl, refl)
cancel_timer_cases start_command_recorded dat = inr (inl (refl, refl))
cancel_timer_cases cancel_timer_command_created dat = inr (inr (inl (inl refl, refl)))
cancel_timer_cases cancel_timer_command_sent dat = inr (inr (inr (inr refl, refl)))
cancel_timer_cases canceled dat = inr (inr (inl (inr (inl refl), refl)))
cancel_timer_cases fired dat = inr (inr (inl (inr (inr refl), refl)))

cancel_twice :
    (s : Option State) (dat : SharedState) (rs : List MachineResponse)
    → let m : TimerMachine = record { state = s; shared_state = dat } in
      (cancel_timer m).1 ≡ ok rs → cancel_timer (cancel_timer m).0 ≡ ((cancel_timer m).0, ok [])
unfolding cancel_timer transition on_event
cancel_twice none dat rs h = cc
cancel_twice (some created) dat rs h = cc
cancel_twice (some cancel_timer_command_sent) dat rs h = cc
cancel_twice (some _) dat rs h = refl

-- Cancelling again, right after a cancellation that was accepted, changes nothing and issues nothing.
pub cancel_timer_twice :
    (m : TimerMachine) (rs : List MachineResponse)
    → (cancel_timer m).1 ≡ ok rs
    → cancel_timer (cancel_timer m).0 ≡ ((cancel_timer m).0, ok [])
cancel_timer_twice m rs h = cancel_twice m.state m.shared_state rs h
