-- ===== src/Machines/Activity/Resolution.antt =====
-- How often lang hears that an activity is resolved (activity_state_machine.rs), over every run of
-- history events, commands and cancellations.
use sdk_core.Prelude.{
  ℕ, ◌+◌, ◌≤◌, Bool, true, false, Option, none, some, List, [], ◌∷◌, ◌++◌, ok, ◌≡◌, refl, arith,
  map_err,
}
use sdk_core.Fsm.{from_parts, on_event}
use sdk_core.Flags.{InternalFlags}
use sdk_core.Proto.{
  ActivityCancellationType, ScheduleActivity, CommandType, HistEventData, EventInfo, Job,
}
use sdk_core.Machines.{WfMachinesError, wf_machines_error, MachineResponse, push_wf_job, finish}
use sdk_core.Machines.Inputs.{Input, run_inputs, accepted_inv}
use sdk_core.Machines.Activity.{
  State, created, schedule_command_created, scheduled_event_recorded, started,
  scheduled_activity_cancel_command_created, scheduled_activity_cancel_event_recorded,
  started_activity_cancel_command_created, started_activity_cancel_event_recorded, completed,
  failed, timed_out, canceled, Event, schedule, cancel, abandon, SharedState, transition,
  ActivityFsm, ActivityMachine, activity, event_of_history, event_of_command, initial_state,
  adapt_response, cancel_activity,
}

-- The `ResolveActivity` jobs among the responses.
abbrev resolves : MachineResponse → ℕ
resolves (push_wf_job (Job.resolve_activity _)) = 1
resolves _ = 0

unfoldable pub resolutions : List MachineResponse → ℕ
resolutions [] = 0
resolutions (r ∷ rs) = resolves r + resolutions rs

resolutions-append :
    (rs ss : List MachineResponse) → resolutions (rs ++ ss) ≡ resolutions rs + resolutions ss
unfolding resolutions
resolutions-append [] ss = omega arith
resolutions-append (r ∷ rs) ss = omega (arith, resolutions-append rs ss)

abbrev pub BeforeAnswer : ActivityCancellationType → ℕ → Type 0
BeforeAnswer ActivityCancellationType.try_cancel n = n ≡ 1
BeforeAnswer ActivityCancellationType.wait_cancellation_completed n = n ≡ 0
BeforeAnswer ActivityCancellationType.abandon n = ⊥

-- How often lang has been told, by the cancellation type and the state.
abbrev pub Told : ActivityCancellationType → State → ℕ → Type 0
Told t created n = ⊥
Told t schedule_command_created n = n ≡ 0
Told t scheduled_event_recorded n = n ≡ 0
Told t started n = n ≡ 0
Told t scheduled_activity_cancel_command_created n = BeforeAnswer t n
Told t scheduled_activity_cancel_event_recorded n = BeforeAnswer t n
Told t started_activity_cancel_command_created n = BeforeAnswer t n
Told t started_activity_cancel_event_recorded n = BeforeAnswer t n
Told t completed n = n ≡ 1
Told t failed n = n ≡ 1
Told t timed_out n = n ≡ 1
Told t canceled n = n ≡ 1

abbrev pub ToldIn : ActivityCancellationType → Option State → ℕ → Type 0
ToldIn t none n = ⊥
ToldIn t (some s) n = Told t s n

pub record IsTold (out : List MachineResponse) (m : ActivityMachine) : Type 0 where
  pub told : ToldIn m.shared_state.cancellation_type m.state (resolutions out)

-- The events that the history and commands can bring.
abbrev is_external : Event → Bool
is_external schedule = false
is_external cancel = false
is_external abandon = false
is_external _ = true

history-is_external :
    (d : HistEventData) (e : Event) → event_of_history d ≡ ok e → is_external e ≡ true
unfolding event_of_history
history-is_external d e h = ground arith

command-is_external :
    (c : CommandType) (e : Event) → event_of_command c ≡ some e → is_external e ≡ true
unfolding event_of_command
command-is_external c e h = ground arith

event-IsTold :
    (on_invalid : WfMachinesError) (info : Option EventInfo) (out : List MachineResponse)
    (s : Option State) (dat : SharedState) (e : Event) (rs : List MachineResponse)
    → let m : ActivityMachine = record { state = s; shared_state = dat } in
      is_external e ≡ true
      → IsTold out m
      → (finish activity on_invalid info (on_event ActivityFsm m e)).1 ≡ ok rs
      → IsTold (out ++ rs) (finish activity on_invalid info (on_event ActivityFsm m e)).0
unfolding finish on_event transition resolutions adapt_response
event-IsTold on_invalid info out none dat e rs x h r = absurd h.told
event-IsTold on_invalid info out (some created) dat e rs x h r = absurd h.told
event-IsTold on_invalid info out (some s) dat e rs x h r = ground (arith, resolutions-append out rs)

cancel-IsTold :
    (out : List MachineResponse) (s : Option State) (dat : SharedState) (rs : List MachineResponse)
    → let m : ActivityMachine = record { state = s; shared_state = dat } in
      IsTold out m
      → map_err wf_machines_error (cancel_activity m).1 ≡ ok rs
      → IsTold (out ++ rs) (cancel_activity m).0
unfolding cancel_activity on_event transition resolutions
cancel-IsTold out none dat rs h r = absurd h.told
cancel-IsTold out (some created) dat rs h r = absurd h.told
cancel-IsTold out (some s) dat rs h r = ground (arith, resolutions-append out rs)

-- The machine that `new_scheduled` returns.
abbrev pub scheduled : ScheduleActivity → InternalFlags → ActivityMachine
scheduled attrs flags = from_parts ActivityFsm schedule_command_created (initial_state attrs flags)

-- Whatever history events, commands and cancellations a new activity takes, as long as each is
-- accepted, the number of `ResolveActivity` jobs for lang is the one that its state and cancellation
-- type tell: none before a cancellation or an outcome, one once it has ended, and, while the server
-- has yet to answer a cancellation, one if lang was not to wait for the answer and none if it was.
pub run_inputs-IsTold :
    (attrs : ScheduleActivity) (flags : InternalFlags) (is : List Input) (m : ActivityMachine)
    (rs : List MachineResponse)
    → run_inputs activity (λ _. cancel_activity) (scheduled attrs flags) is ≡ ok (m, rs)
    → IsTold rs m
unfolding resolutions
run_inputs-IsTold attrs flags is m rs r =
    accepted_inv activity (λ e. is_external e ≡ true) IsTold
      (λ v info out n e ds x h a. event-IsTold v info out n.state n.shared_state e ds x h a)
      (λ _. cancel_activity) history-is_external command-is_external
      (λ _ out n ds h a. cancel-IsTold out n.state n.shared_state ds h a) (scheduled attrs flags) is
      m rs (record { told = refl }) r

Told-le : (t : ActivityCancellationType) (s : State) (n : ℕ) → Told t s n → n ≤ 1
Told-le t s n h = ground arith

-- So lang is told at most once that an activity is resolved.
pub resolutions-le-one :
    (attrs : ScheduleActivity) (flags : InternalFlags) (is : List Input) (m : ActivityMachine)
    (rs : List MachineResponse)
    → run_inputs activity (λ _. cancel_activity) (scheduled attrs flags) is ≡ ok (m, rs)
    → resolutions rs ≤ 1
resolutions-le-one attrs flags is m rs r = go m.state (run_inputs-IsTold attrs flags is m rs r).told
  where
    go :
        (s : Option State)
        → ToldIn m.shared_state.cancellation_type s (resolutions rs)
        → resolutions rs ≤ 1
    go none h = absurd h
    go (some s) h = Told-le m.shared_state.cancellation_type s (resolutions rs) h
