-- ===== src/Machines/ChildWorkflow/Answers.antt =====
-- How often lang hears that a child workflow started and that it ended
-- (child_workflow_state_machine.rs), over every run of history events, commands and cancellations.
use sdk_core.Prelude.{
  ℕ, ◌+◌, Bool, true, false, Option, none, some, List, [], ◌∷◌, ◌++◌, Text, ok, ◌≡◌, refl, arith,
  map_err,
}
use sdk_core.Fsm.{from_parts, on_event}
use sdk_core.Flags.{InternalFlags}
use sdk_core.Proto.{StartChildWorkflowExecution, CommandType, HistEventData, EventInfo, Job}
use sdk_core.Machines.{WfMachinesError, wf_machines_error, MachineResponse, push_wf_job, finish}
use sdk_core.Machines.Inputs.{Input, run_inputs, accepted_inv}
use sdk_core.Machines.ChildWorkflow.{
  State, created, start_command_created, start_event_recorded, start_failed, started, completed,
  failed, timed_out, terminated, cancelled, Event, schedule, cancel, SharedState, transition,
  ChildWorkflowFsm, ChildWorkflowMachine, child_workflow, event_of_history, event_of_command,
  initial_state, adapt_response, cancel_child,
}

abbrev starts : MachineResponse → ℕ
starts (push_wf_job (Job.resolve_child_workflow_execution_start _ _)) = 1
starts _ = 0

abbrev ends : MachineResponse → ℕ
ends (push_wf_job (Job.resolve_child_workflow_execution _ _)) = 1
ends _ = 0

unfoldable pub start_answers : List MachineResponse → ℕ
start_answers [] = 0
start_answers (r ∷ rs) = starts r + start_answers rs

unfoldable pub end_answers : List MachineResponse → ℕ
end_answers [] = 0
end_answers (r ∷ rs) = ends r + end_answers rs

start_answers-append :
    (rs ss : List MachineResponse) → start_answers (rs ++ ss) ≡ start_answers rs + start_answers ss
unfolding start_answers
start_answers-append [] ss = omega arith
start_answers-append (r ∷ rs) ss = omega (arith, start_answers-append rs ss)

end_answers-append :
    (rs ss : List MachineResponse) → end_answers (rs ++ ss) ≡ end_answers rs + end_answers ss
unfolding end_answers
end_answers-append [] ss = omega arith
end_answers-append (r ∷ rs) ss = omega (arith, end_answers-append rs ss)

-- The answers given about the start and about the end, by the state and by whether the child was
-- cancelled unsent.
abbrev pub Answers : State → (unsent : Bool) → (s e : ℕ) → Type 0
Answers created unsent s e = ⊥
Answers start_command_created unsent s e = (unsent ≡ false) × (s ≡ 0) × (e ≡ 0)
Answers start_event_recorded unsent s e = (unsent ≡ false) × (s ≡ 0) × (e ≡ 0)
Answers start_failed unsent s e = (unsent ≡ false) × (s ≡ 1) × (e ≡ 0)
Answers started unsent s e = (unsent ≡ false) × (s ≡ 1) × (e ≡ 0)
Answers completed unsent s e = (unsent ≡ false) × (s ≡ 1) × (e ≡ 1)
Answers failed unsent s e = (unsent ≡ false) × (s ≡ 1) × (e ≡ 1)
Answers timed_out unsent s e = (unsent ≡ false) × (s ≡ 1) × (e ≡ 1)
Answers terminated unsent s e = (unsent ≡ false) × (s ≡ 1) × (e ≡ 1)
Answers (cancelled seen) false s e = (s ≡ 1) × (e ≡ 1)
Answers (cancelled seen) true s e = (s ≡ 1) × (e ≡ 0)

abbrev pub AnswersIn : Option State → Bool → ℕ → ℕ → Type 0
AnswersIn none unsent s e = ⊥
AnswersIn (some state) unsent s e = Answers state unsent s e

pub record IsAnswered (out : List MachineResponse) (m : ChildWorkflowMachine) : Type 0 where
  pub answers :
      AnswersIn m.state m.shared_state.cancelled_before_sent (start_answers out) (end_answers out)

-- The events that the history and commands can bring.
abbrev is_external : Event → Bool
is_external schedule = false
is_external (cancel _) = false
is_external _ = true

history-is_external :
    (d : HistEventData) (e : Event) → event_of_history d ≡ ok e → is_external e ≡ true
unfolding event_of_history
history-is_external d e h = ground arith

command-is_external :
    (c : CommandType) (e : Event) → event_of_command c ≡ some e → is_external e ≡ true
unfolding event_of_command
command-is_external c e h = ground arith

event-IsAnswered :
    (on_invalid : WfMachinesError) (info : Option EventInfo) (out : List MachineResponse)
    (s : Option State) (dat : SharedState) (e : Event) (rs : List MachineResponse)
    → let m : ChildWorkflowMachine = record { state = s; shared_state = dat } in
      is_external e ≡ true
      → IsAnswered out m
      → (finish child_workflow on_invalid info (on_event ChildWorkflowFsm m e)).1 ≡ ok rs
      → IsAnswered
          (out ++ rs)
          (finish child_workflow on_invalid info (on_event ChildWorkflowFsm m e)).0
unfolding finish on_event transition start_answers end_answers adapt_response
event-IsAnswered on_invalid info out none dat e rs x h r = absurd h.answers
event-IsAnswered on_invalid info out (some created) dat e rs x h r = absurd h.answers
event-IsAnswered on_invalid info out (some s) dat e rs x h r =
    ground (arith, start_answers-append out rs, end_answers-append out rs)

cancel-IsAnswered :
    (reason : Text) (out : List MachineResponse) (s : Option State) (dat : SharedState)
    (rs : List MachineResponse)
    → let m : ChildWorkflowMachine = record { state = s; shared_state = dat } in
      IsAnswered out m
      → map_err wf_machines_error (cancel_child reason m).1 ≡ ok rs
      → IsAnswered (out ++ rs) (cancel_child reason m).0
unfolding cancel_child on_event transition start_answers end_answers
cancel-IsAnswered reason out none dat rs h r = absurd h.answers
cancel-IsAnswered reason out (some created) dat rs h r = absurd h.answers
cancel-IsAnswered reason out (some s) dat rs h r =
    ground (arith, start_answers-append out rs, end_answers-append out rs)

-- The machine that `new_scheduled` returns.
abbrev pub scheduled : StartChildWorkflowExecution → InternalFlags → ChildWorkflowMachine
scheduled attribs flags =
    from_parts ChildWorkflowFsm start_command_created (initial_state attribs flags)

-- Whatever history events, commands and cancellations a new child workflow takes, as long as each is
-- accepted, the state tells how often lang was answered about the start and about the end: not at all
-- before the child started or failed to start; once about the start, and not about the end, while it
-- runs, if it failed to start, or if it was cancelled unsent; and once about each if it ended or was
-- cancelled later.
pub run_inputs-IsAnswered :
    (attribs : StartChildWorkflowExecution) (flags : InternalFlags) (is : List Input)
    (m : ChildWorkflowMachine) (rs : List MachineResponse)
    → run_inputs child_workflow cancel_child (scheduled attribs flags) is ≡ ok (m, rs)
    → IsAnswered rs m
unfolding start_answers end_answers
run_inputs-IsAnswered attribs flags is m rs r =
    accepted_inv child_workflow (λ e. is_external e ≡ true) IsAnswered
      (λ v info out n e ds x h a. event-IsAnswered v info out n.state n.shared_state e ds x h a)
      cancel_child history-is_external command-is_external
      (λ reason out n ds h a. cancel-IsAnswered reason out n.state n.shared_state ds h a)
      (scheduled attribs flags) is m rs (record { answers = (refl, refl, refl) }) r
