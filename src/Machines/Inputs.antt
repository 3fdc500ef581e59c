-- ===== src/Machines/Inputs.antt =====
-- What reaches a state machine, in the order of its arrival: events of the history and commands that
-- went out (both by machines/mod.rs), and cancellations by lang (`cancel_machine!` of
-- machines/workflow_machines.rs). A failure ends the run, as it evicts the workflow.
use mathlib.Core.List.{append-nil, append_assoc}
use sdk_core.Prelude.{
  Option, none, some, List, [], ◌∷◌, ◌++◌, Text, Outcome, ok, err, panicked, ◌>>=◌, >>=-eq-ok,
  ok-injective, map_err, ◌≢◌, ◌≡◌, refl, subst,
}
use sdk_core.Fsm.{Machine, MachineError, on_event}
use sdk_core.Proto.{CommandType, HistEventData, EventInfo}
use sdk_core.Machines.{
  WfMachinesError, fatal, nondeterminism, wf_machines_error, MachineResponse, Responses, WfMachine,
  finish, invalid_transition_error, event_info, handle_command, handle_event,
}

pub data Input : Type 0 where
  history : HistEventData → Input
  command : CommandType → Input
  cancels : (reason : Text) → Input

-- A refused event is no success.
pub invalid-ne-ok :
    {A : Type 0} (o : Option A) (v : WfMachinesError) (rs : List MachineResponse)
    → invalid_transition_error o v ≢ ok rs
invalid-ne-ok none v rs h = cc
invalid-ne-ok (some _) v rs h = cc

module _ (w : WfMachine)
    (cancel : Text
      → Machine w.fsm
      → Machine w.fsm × Outcome (MachineError WfMachinesError) (List MachineResponse)) where
  unfoldable pub step : Machine w.fsm → Input → Machine w.fsm × Responses
  step m (history d) = handle_event w m d
  step m (command c) = handle_command w m c
  step m (cancels reason) = let (m', r) = cancel reason m in (m', map_err wf_machines_error r)

  unfoldable pub run_inputs :
      Machine w.fsm → List Input → Outcome WfMachinesError (Machine w.fsm × List MachineResponse)
  run_inputs m [] = ok (m, [])
  run_inputs m (i ∷ is) = do
    let stepped = step m i
    rs ← stepped.1
    rest ← run_inputs stepped.0 is
    ok (rest.0, rs ++ rest.1)

  pub run_inputs_inv {ℓ} :
      (P : List MachineResponse → Machine w.fsm → Type ℓ)
      → ((out : List MachineResponse) (m : Machine w.fsm) (i : Input) (rs : List MachineResponse)
          → P out m
          → (step m i).1 ≡ ok rs
          → P (out ++ rs) (step m i).0)
      → (is : List Input) (out : List MachineResponse) (m n : Machine w.fsm)
        (rs : List MachineResponse)
      → P out m
      → run_inputs m is ≡ ok (n, rs)
      → P (out ++ rs) n
  unfolding run_inputs
  run_inputs_inv P keep [] out m n rs h r =
      subst (λ p. P (out ++ p.1) p.0) (ok-injective r) (rw append-nil h)
  run_inputs_inv P keep (i ∷ is) out m n rs h r =
      let (rs₁, accepted, r') = >>=-eq-ok (step m i).1 _ r in
      let (rest, r₂, last) = >>=-eq-ok (run_inputs (step m i).0 is) _ r' in
      subst (λ p. P (out ++ p.1) p.0) (ok-injective last)
        (rw (← append_assoc) (
          run_inputs_inv P keep is (out ++ rs₁) (step m i).0 rest.0 rest.1
            (keep out m i rs₁ h accepted) r₂))

-- An input of either kind is an event of the machine, or it is refused: a relation that the events
-- keep is kept by both.
module _ {ℓ κ} (w : WfMachine) (Allowed : w.fsm.Event → Type κ)
    (P : List MachineResponse → Machine w.fsm → Type ℓ)
    (keep : (on_invalid : WfMachinesError) (info : Option EventInfo) (out : List MachineResponse)
        (m : Machine w.fsm) (e : w.fsm.Event) (rs : List MachineResponse)
      → Allowed e
      → P out m
      → (finish w on_invalid info (on_event w.fsm m e)).1 ≡ ok rs
      → P (out ++ rs) (finish w on_invalid info (on_event w.fsm m e)).0) where
  pub handle_event_inv :
      ((d : HistEventData) (e : w.fsm.Event) → w.event_of_history d ≡ ok e → Allowed e)
      → (out : List MachineResponse) (m : Machine w.fsm) (d : HistEventData)
        (rs : List MachineResponse)
      → P out m
      → (handle_event w m d).1 ≡ ok rs
      → P (out ++ rs) (handle_event w m d).0
  unfolding handle_event
  handle_event_inv allowed out m d rs h r = go (w.event_of_history d) refl r
    where
      go :
          (o : Outcome WfMachinesError w.fsm.Event)
          → w.event_of_history d ≡ o
          → (handle_event w m d).1 ≡ ok rs
          → P (out ++ rs) (handle_event w m d).0
      go (ok e) found r' =
          rw (found, handle_event)
            (keep fatal (some (event_info d)) out m e rs (allowed d e found) h
              (rw (found, handle_event) at r'))
      go (err x) found r' =
          let r'' : ◌≡◌ {A = Responses} (err x) (ok rs) = rw (found, handle_event) at r' in cc
      go panicked found r' =
          let r'' : ◌≡◌ {A = Responses} panicked (ok rs) = rw (found, handle_event) at r' in cc

  pub handle_command_inv :
      ((c : CommandType) (e : w.fsm.Event) → w.event_of_command c ≡ some e → Allowed e)
      → (out : List MachineResponse) (m : Machine w.fsm) (c : CommandType)
        (rs : List MachineResponse)
      → P out m
      → (handle_command w m c).1 ≡ ok rs
      → P (out ++ rs) (handle_command w m c).0
  unfolding handle_command
  handle_command_inv allowed out m c rs h r = go (w.event_of_command c) refl r
    where
      go :
          (o : Option w.fsm.Event)
          → w.event_of_command c ≡ o
          → (handle_command w m c).1 ≡ ok rs
          → P (out ++ rs) (handle_command w m c).0
      go (some e) found r' =
          rw (found, handle_command)
            (keep nondeterminism none out m e rs (allowed c e found) h
              (rw (found, handle_command) at r'))
      go none found r' =
          let r'' : ◌≡◌ {A = Responses} (err nondeterminism) (ok rs) =
            rw (found, handle_command) at r' in
          cc

  -- So is it by every input, and by every accepted run, if the cancellations keep it too.
  module _
      (cancel : Text
        → Machine w.fsm
        → Machine w.fsm × Outcome (MachineError WfMachinesError) (List MachineResponse))
      (of_history : (d : HistEventData) (e : w.fsm.Event) → w.event_of_history d ≡ ok e → Allowed e)
      (of_command : (c : CommandType) (e : w.fsm.Event) → w.event_of_command c ≡ some e → Allowed e)
      (keep_cancel : (reason : Text) (out : List MachineResponse) (m : Machine w.fsm)
          (rs : List MachineResponse)
        → P out m
        → map_err wf_machines_error (cancel reason m).1 ≡ ok rs
        → P (out ++ rs) (cancel reason m).0) where
    step_inv :
        (out : List MachineResponse) (m : Machine w.fsm) (i : Input) (rs : List MachineResponse)
        → P out m
        → (step w cancel m i).1 ≡ ok rs
        → P (out ++ rs) (step w cancel m i).0
    unfolding step
    step_inv out m (history d) rs h r = handle_event_inv of_history out m d rs h r
    step_inv out m (command c) rs h r = handle_command_inv of_command out m c rs h r
    step_inv out m (cancels reason) rs h r = keep_cancel reason out m rs h r

    pub accepted_inv :
        (start : Machine w.fsm) (is : List Input) (m : Machine w.fsm) (rs : List MachineResponse)
        → P [] start
        → run_inputs w cancel start is ≡ ok (m, rs)
        → P rs m
    accepted_inv start is m rs h r = run_inputs_inv w cancel P step_inv is [] start m rs h r
