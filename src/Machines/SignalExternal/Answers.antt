-- ===== src/Machines/SignalExternal/Answers.antt =====
-- What lang hears of a signal to another workflow (signal_external_state_machine.rs), over every run
-- of history events, commands and cancellations.
use mathlib.Core.List.{append-nil}
use sdk_core.Prelude.{
  ℕ, Bool, true, false, ◌==◌, Option, none, some, List, [], ◌∷◌, ◌++◌, ok, err, ◌≡◌, ◌≢◌, ◌⊎◌, refl,
  arith, map_err,
}
use sdk_core.Fsm.{from_parts, on_event, invalid_transition}
use sdk_core.Proto.{CommandType, HistEventData, EventInfo, Job}
use sdk_core.Machines.{WfMachinesError, wf_machines_error, MachineResponse, push_wf_job, finish}
use sdk_core.Machines.Inputs.{Input, run_inputs, accepted_inv}
use sdk_core.Machines.SignalExternal.{
  State, created, signal_external_command_created, signal_external_command_recorded, cancelled,
  signaled, failed, Event, schedule, cancel, SharedState, transition, SignalExternalFsm,
  SignalExternalMachine, signal_external, event_of_history, event_of_command, adapt_response,
  cancel_signal,
}

-- Whether the responses are one job that resolves the signal `seq`, with a failure or without.
abbrev pub is_answer : (seq : ℕ) → (fails : Bool) → List MachineResponse → Bool
is_answer seq true (push_wf_job (Job.resolve_signal_external_workflow n (some f)) ∷ []) = n == seq
is_answer seq false (push_wf_job (Job.resolve_signal_external_workflow n none) ∷ []) = n == seq
is_answer seq fails _ = false

abbrev pub Answered : ℕ → State → List MachineResponse → Type 0
Answered seq created out = ⊥
Answered seq signal_external_command_created out = out ≡ []
Answered seq signal_external_command_recorded out = out ≡ []
Answered seq cancelled out = is_answer seq true out ≡ true
Answered seq signaled out = is_answer seq false out ≡ true
Answered seq failed out = is_answer seq true out ≡ true

abbrev pub AnsweredIn : ℕ → Option State → List MachineResponse → Type 0
AnsweredIn seq none out = ⊥
AnsweredIn seq (some s) out = Answered seq s out

pub record IsAnswered (seq : ℕ) (out : List MachineResponse) (m : SignalExternalMachine)
    : Type 0 where
  pub same_seq : m.shared_state.seq ≡ seq
  pub answered : AnsweredIn seq m.state out

-- The events that the history and commands can bring.
abbrev is_external : Event → Bool
is_external schedule = false
is_external cancel = false
is_external _ = true

history-is_external :
    (d : HistEventData) (e : Event) → event_of_history d ≡ ok e → is_external e ≡ true
unfolding event_of_history
history-is_external d e h = ground arith

command-is_external :
    (c : CommandType) (e : Event) → event_of_command c ≡ some e → is_external e ≡ true
unfolding event_of_command
command-is_external c e h = ground arith

event-IsAnswered :
    (seq : ℕ) (on_invalid : WfMachinesError) (info : Option EventInfo) (out : List MachineResponse)
    (s : Option State) (dat : SharedState) (e : Event) (rs : List MachineResponse)
    → let m : SignalExternalMachine = record { state = s; shared_state = dat } in
      is_external e ≡ true
      → IsAnswered seq out m
      → (finish signal_external on_invalid info (on_event SignalExternalFsm m e)).1 ≡ ok rs
      → IsAnswered seq
          (out ++ rs)
          (finish signal_external on_invalid info (on_event SignalExternalFsm m e)).0
unfolding finish on_event transition adapt_response
event-IsAnswered seq on_invalid info out none dat e rs x h r = absurd h.answered
event-IsAnswered seq on_invalid info out (some created) dat e rs x h r = absurd h.answered
event-IsAnswered seq on_invalid info out (some s) dat e rs x h r = ground (arith, append-nil out)

cancel-IsAnswered :
    (seq : ℕ) (out : List MachineResponse) (s : Option State) (dat : SharedState)
    (rs : List MachineResponse)
    → let m : SignalExternalMachine = record { state = s; shared_state = dat } in
      IsAnswered seq out m
      → map_err wf_machines_error (cancel_signal m).1 ≡ ok rs
      → IsAnswered seq (out ++ rs) (cancel_signal m).0
unfolding cancel_signal on_event transition
cancel-IsAnswered seq out none dat rs h r = absurd h.answered
cancel-IsAnswered seq out (some created) dat rs h r = absurd h.answered
cancel-IsAnswered seq out (some s) dat rs h r = ground (arith, append-nil out)

-- The machine that `new_external_signal` returns.
abbrev pub scheduled : ℕ → SignalExternalMachine
scheduled seq = from_parts SignalExternalFsm signal_external_command_created (record { seq = seq })

-- Whatever history events, commands and cancellations a new signal takes, as long as each is accepted,
-- lang hears nothing until it resolves, and then it is answered once, under its own sequence number:
-- without a failure if the signal was delivered, with one if it failed or was cancelled.
pub signal-IsAnswered :
    (seq : ℕ) (is : List Input) (m : SignalExternalMachine) (rs : List MachineResponse)
    → run_inputs signal_external (λ _. cancel_signal) (scheduled seq) is ≡ ok (m, rs)
    → IsAnswered seq rs m
signal-IsAnswered seq is m rs r =
    accepted_inv signal_external (λ e. is_external e ≡ true) (IsAnswered seq)
      (λ v info out n e ds x h a. event-IsAnswered seq v info out n.state n.shared_state e ds x h a)
      (λ _. cancel_signal) history-is_external command-is_external
      (λ _ out n ds h a. cancel-IsAnswered seq out n.state n.shared_state ds h a) (scheduled seq) is
      m rs (record { same_seq = refl; answered = refl }) r

abbrev pub is_resolved : State → Bool
is_resolved cancelled = true
is_resolved signaled = true
is_resolved failed = true
is_resolved _ = false

-- A cancellation after the signal resolved is ignored if it was cancelled or delivered, but it is an
-- invalid transition, on the same machine, if it failed.
pub cancel_resolved :
    (s : State) (dat : SharedState)
    → is_resolved s ≡ true
    → let m = from_parts SignalExternalFsm s dat in
      ((s ≢ failed) × (cancel_signal m ≡ (m, ok [])))
      ⊎ ((s ≡ failed) × (cancel_signal m ≡ (m, err invalid_transition)))
unfolding cancel_signal on_event transition
cancel_resolved s dat h = ground arith
