-- ===== src/Machines/LocalActivity/Moves.antt =====
-- How often lang has been told the result of a local activity in each state of its machine
-- (local_activity_state_machine.rs), and that every event keeps count.
use sdk_core.Prelude.{
  ℕ, ◌+◌, Bool, true, false, Option, none, some, List, ◌++◌, if◌then◌else◌, ok, err, panicked,
  map_err, map_err-eq-ok, subst, ◌≡◌, refl, arith, ◌∙◌,
}
use sdk_core.Fsm.{Handled, MachineError, underlying, on_event}
use sdk_core.Proto.{EventInfo}
use sdk_core.Machines.{
  WfMachinesError, fatal, wf_machines_error, MachineResponse, finish, process_machine_commands,
}
use sdk_core.Machines.Inputs.{invalid-ne-ok}
use sdk_core.Machines.LocalActivity.{
  MarkerJson, State, executing, replaying, request_sent, marker_command_recorded,
  waiting_marker_event_pre_resolved, replaying_pre_resolved, marker_command_created,
  result_notified, waiting_marker_event, Event, schedule, started_non_replay_wft,
  handle_known_result, SharedState, LocalActivityCommand, transition, LocalActivityFsm,
  LocalActivityMachine, local_activity, adapted, cancelled_responses,
}
use sdk_core.Machines.LocalActivity.Tells.{
  Tells, Tells-append, Tells-eq, recorded, resolutions, commands-Tells,
}

-- How often lang has been told in each state.
abbrev pub told : State → ℕ
told executing = 0
told replaying = 0
told (replaying_pre_resolved _) = 0
told request_sent = 0
told (waiting_marker_event already_resolved) = if already_resolved then 1 else 0
told (marker_command_created _) = 1
told (result_notified _) = 1
told waiting_marker_event_pre_resolved = 1
told marker_command_recorded = 1

-- Whether the machine counts as replaying in each state. The first three are left at once.
abbrev pub Phase : State → Bool → Type 0
Phase executing r = ⊥
Phase replaying r = ⊥
Phase (replaying_pre_resolved _) r = ⊥
Phase request_sent r = r ≡ false
Phase (marker_command_created _) r = r ≡ false
Phase (result_notified _) r = r ≡ false
Phase (waiting_marker_event _) r = r ≡ true
Phase waiting_marker_event_pre_resolved r = r ≡ true
Phase marker_command_recorded r = Unit {0}

abbrev pub PhaseIn : Option State → Bool → Type 0
PhaseIn none r = ⊥
PhaseIn (some s) r = Phase s r

abbrev pub told_in : Option State → ℕ
told_in none = 0
told_in (some s) = told s

-- The machine holds a state, and lang has been told as often as the state says, and `again` times
-- more.
pub record IsTold (seq again : ℕ) (out : List MachineResponse) (m : LocalActivityMachine)
    : Type 0 where
  pub same_seq : m.shared_state.attrs.seq ≡ seq
  pub phase : PhaseIn m.state m.shared_state.replaying_when_invoked
  pub tells :
      Tells seq
        (again + told_in m.state)
        (recorded m.shared_state.replaying_when_invoked (told_in m.state))
        out

-- Nothing but its creation schedules the machine.
abbrev pub IsLater : Event → Type 0
IsLater schedule = ⊥
IsLater e = Unit {0}

-- The events that have lang told once more than the state says: a result from a marker, or the end of
-- the replay, in a machine that waits for its marker event though a marker has resolved it already.
abbrev pub repeats : Option State → Event → ℕ
repeats (some (waiting_marker_event true)) (handle_known_result _) = 1
repeats (some (waiting_marker_event true)) started_non_replay_wft = 1
repeats s e = 0

-- An event that yields commands with `n` results tells lang `n` times more.
pub record Moves (s : State) (dat : SharedState) (e : Event) (m : LocalActivityMachine) (n : ℕ)
    : Type 0 where
  pub same_seq : m.shared_state.attrs.seq ≡ dat.attrs.seq
  pub phase : PhaseIn m.state m.shared_state.replaying_when_invoked
  pub counts : told s + n ≡ repeats (some s) e + told_in m.state
  pub marks :
      recorded dat.replaying_when_invoked (told s)
        + recorded m.shared_state.replaying_when_invoked n
      ≡ recorded m.shared_state.replaying_when_invoked (told_in m.state)

pub event-Moves :
    (s : State) (dat : SharedState) (e : Event) (cs : List LocalActivityCommand)
    → let m : LocalActivityMachine = record { state = some s; shared_state = dat } in
      Phase s dat.replaying_when_invoked
      → IsLater e
      → (on_event LocalActivityFsm m e).1 ≡ ok cs
      → Moves s dat e (on_event LocalActivityFsm m e).0 (resolutions cs)
unfolding on_event transition
event-Moves request_sent dat e cs p x h = ground arith
event-Moves (marker_command_created t) dat e cs p x h = ground arith
event-Moves (result_notified t) dat e cs p x h = ground arith
event-Moves (waiting_marker_event true) dat e cs p x h = ground arith
event-Moves (waiting_marker_event false) dat e cs p x h = ground arith
event-Moves s dat e cs p x h = ground arith

module _ (json : MarkerJson) (seq again : ℕ) (out : List MachineResponse) (s : State)
    (dat : SharedState) (e : Event) where
  abbrev pub before : LocalActivityMachine
  before = record { state = some s; shared_state = dat }

  abbrev pub Moved : Handled LocalActivityFsm → Type 0
  Moved r = (cs : List LocalActivityCommand) → r.1 ≡ ok cs → Moves s dat e r.0 (resolutions cs)

  moved-IsTold :
      (m : LocalActivityMachine) (cs : List LocalActivityCommand) (info : Option EventInfo)
      (rs : List MachineResponse)
      → Moves s dat e m (resolutions cs)
      → IsTold seq again out before
      → process_machine_commands (local_activity json) m cs info ≡ ok rs
      → IsTold seq (again + repeats (some s) e) (out ++ rs) m
  moved-IsTold m cs info rs mv h p = record {
    same_seq = mv.same_seq ∙ h.same_seq;
    phase = mv.phase;
    tells = Tells-eq (omega (arith, mv.counts)) mv.marks (
        Tells-append h.tells (
          subst
            (λ q.
              Tells q (resolutions cs)
                (recorded m.shared_state.replaying_when_invoked (resolutions cs)) rs)
            (mv.same_seq ∙ h.same_seq) (commands-Tells json m cs info rs p)));
  }

  pub finish-IsTold :
      (v : WfMachinesError) (info : Option EventInfo) (r : Handled LocalActivityFsm)
      (rs : List MachineResponse)
      → Moved r
      → IsTold seq again out before
      → (finish (local_activity json) v info r).1 ≡ ok rs
      → IsTold seq
          (again + repeats (some s) e)
          (out ++ rs)
          (finish (local_activity json) v info r).0
  unfolding finish
  finish-IsTold v info (m, ok cs) rs mv h p = moved-IsTold m cs info rs (mv cs refl) h p
  finish-IsTold v info (m, err MachineError.invalid_transition) rs mv h p =
      absurd (invalid-ne-ok m.state v rs p)
  finish-IsTold v info (m, err (underlying x)) rs mv h p = cc
  finish-IsTold v info (m, panicked) rs mv h p = cc

  pub adapted-IsTold :
      (r : Handled LocalActivityFsm) (rs : List MachineResponse)
      → Moved r
      → IsTold seq again out before
      → (adapted json r).1 ≡ ok rs
      → IsTold seq (again + repeats (some s) e) (out ++ rs) (adapted json r).0
  unfolding adapted
  adapted-IsTold (m, ok cs) rs mv h p = moved-IsTold m cs none rs (mv cs refl) h p
  adapted-IsTold (m, err MachineError.invalid_transition) rs mv h p =
      absurd (invalid-ne-ok m.state fatal rs p)
  adapted-IsTold (m, err (underlying x)) rs mv h p = cc
  adapted-IsTold (m, panicked) rs mv h p = cc

  pub cancelled-IsTold :
      (r : Handled LocalActivityFsm) (rs : List MachineResponse)
      → Moved r
      → IsTold seq again out before
      → map_err wf_machines_error (cancelled_responses json r).1 ≡ ok rs
      → IsTold seq (again + repeats (some s) e) (out ++ rs) (cancelled_responses json r).0
  unfolding cancelled_responses
  cancelled-IsTold (m, ok cs) rs mv h p =
      moved-IsTold m cs none rs (mv cs refl) h
        (map_err-eq-ok underlying _ (map_err-eq-ok wf_machines_error _ p))
  cancelled-IsTold (m, err x) rs mv h p = cc
  cancelled-IsTold (m, panicked) rs mv h p = cc
