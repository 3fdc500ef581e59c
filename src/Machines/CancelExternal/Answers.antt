-- ===== src/Machines/CancelExternal/Answers.antt =====
-- What lang hears of its request to cancel another workflow (cancel_external_state_machine.rs), over
-- every run of history events and commands.
use mathlib.Core.List.{append-nil}
use sdk_core.Prelude.{
  ℕ, Bool, true, false, ◌==◌, Option, none, some, List, [], ◌∷◌, ◌++◌, Text, Outcome, ok, err, ◌≡◌,
  refl, arith,
}
use sdk_core.Fsm.{MachineError, invalid_transition, from_parts, on_event}
use sdk_core.Proto.{CommandType, HistEventData, EventInfo, Job}
use sdk_core.Machines.{WfMachinesError, MachineResponse, push_wf_job, finish}
use sdk_core.Machines.Inputs.{Input, run_inputs, accepted_inv}
use sdk_core.Machines.CancelExternal.{
  State, created, request_cancel_external_command_created, request_cancel_external_command_recorded,
  cancel_requested, request_cancel_failed, Event, schedule, SharedState, transition,
  CancelExternalFsm, CancelExternalMachine, cancel_external, event_of_history, event_of_command,
  adapt_response,
}

-- Lang cannot cancel this machine: no command of its names one.
abbrev pub no_cancel :
    Text
    → CancelExternalMachine
    → CancelExternalMachine × Outcome (MachineError WfMachinesError) (List MachineResponse)
no_cancel reason m = (m, err invalid_transition)

-- Whether the responses are one job that resolves the request `seq`, with a failure or without.
abbrev pub is_answer : (seq : ℕ) → (fails : Bool) → List MachineResponse → Bool
is_answer seq true (push_wf_job (Job.resolve_request_cancel_external_workflow n (some f)) ∷ []) =
    n == seq
is_answer seq false (push_wf_job (Job.resolve_request_cancel_external_workflow n none) ∷ []) =
    n == seq
is_answer seq fails _ = false

abbrev pub Answered : ℕ → State → List MachineResponse → Type 0
Answered seq created out = ⊥
Answered seq request_cancel_external_command_created out = out ≡ []
Answered seq request_cancel_external_command_recorded out = out ≡ []
Answered seq cancel_requested out = is_answer seq false out ≡ true
Answered seq request_cancel_failed out = is_answer seq true out ≡ true

abbrev pub AnsweredIn : ℕ → Option State → List MachineResponse → Type 0
AnsweredIn seq none out = ⊥
AnsweredIn seq (some s) out = Answered seq s out

pub record IsAnswered (seq : ℕ) (out : List MachineResponse) (m : CancelExternalMachine)
    : Type 0 where
  pub same_seq : m.shared_state.seq ≡ seq
  pub answered : AnsweredIn seq m.state out

-- The events that the history and commands can bring.
abbrev is_external : Event → Bool
is_external schedule = false
is_external _ = true

history-is_external :
    (d : HistEventData) (e : Event) → event_of_history d ≡ ok e → is_external e ≡ true
unfolding event_of_history
history-is_external d e h = ground arith

command-is_external :
    (c : CommandType) (e : Event) → event_of_command c ≡ some e → is_external e ≡ true
unfolding event_of_command
command-is_external c e h = ground arith

event-IsAnswered :
    (seq : ℕ) (on_invalid : WfMachinesError) (info : Option EventInfo) (out : List MachineResponse)
    (s : Option State) (dat : SharedState) (e : Event) (rs : List MachineResponse)
    → let m : CancelExternalMachine = record { state = s; shared_state = dat } in
      is_external e ≡ true
      → IsAnswered seq out m
      → (finish cancel_external on_invalid info (on_event CancelExternalFsm m e)).1 ≡ ok rs
      → IsAnswered seq
          (out ++ rs)
          (finish cancel_external on_invalid info (on_event CancelExternalFsm m e)).0
unfolding finish on_event transition adapt_response
event-IsAnswered seq on_invalid info out none dat e rs x h r = absurd h.answered
event-IsAnswered seq on_invalid info out (some created) dat e rs x h r = absurd h.answered
event-IsAnswered seq on_invalid info out (some s) dat e rs x h r = ground (arith, append-nil out)

-- The machine that `new_external_cancel` returns.
abbrev pub scheduled : ℕ → CancelExternalMachine
scheduled seq =
    from_parts CancelExternalFsm request_cancel_external_command_created (record { seq = seq })

-- Whatever history events and commands a new request takes, as long as each is accepted, lang hears
-- nothing until it resolves, and then it is answered once, under its own sequence number: without a
-- failure if the server took the request on, with one if it did not.
pub cancel_external-IsAnswered :
    (seq : ℕ) (is : List Input) (m : CancelExternalMachine) (rs : List MachineResponse)
    → run_inputs cancel_external no_cancel (scheduled seq) is ≡ ok (m, rs)
    → IsAnswered seq rs m
cancel_external-IsAnswered seq is m rs r =
    accepted_inv cancel_external (λ e. is_external e ≡ true) (IsAnswered seq)
      (λ v info out n e ds x h a. event-IsAnswered seq v info out n.state n.shared_state e ds x h a)
      no_cancel history-is_external command-is_external (λ _ out n ds h a. cc) (scheduled seq) is m
      rs (record { same_seq = refl; answered = refl }) r
