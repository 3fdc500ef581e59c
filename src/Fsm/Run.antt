-- ===== src/Fsm/Run.antt =====
-- Feeding events to a generated machine (fsm/rustfsm_procmacro/src/lib.rs, `on_event`), until one
-- fails.
use mathlib.Core.List.{append-nil, append_assoc}
use sdk_core.Prelude.{
  none, some, List, [], err, panicked, some, inl, inr, arith, Option-cases, none, ◌∷◌, ◌++◌,
  Outcome, ok, err, panicked, ◌>>=◌, >>=-eq-ok, ok-injective, subst, ◌≡◌, inl, inr, arith,
}
use sdk_core.Fsm.{
  from_parts, put_back, on_taken, dispatch, into_cmd_result, Handled, StateMachine, Machine,
  MachineError, TransitionResult, on_event,
}

-- A machine whose handler did not end in a state.
abbrev pub lost_state : (sm : StateMachine) → sm.SharedState → Machine sm
lost_state sm shared = record { state = none; shared_state = shared }

module _ (sm : StateMachine) where
  -- All events in turn, with the commands in order. A failed event ends the run.
  unfoldable pub run :
      Machine sm → List sm.Event → Outcome (MachineError sm.Error) (Machine sm × List sm.Command)
  run m [] = ok (m, [])
  run m (e ∷ es) = do
    let handled = on_event sm m e
    cs ← handled.1
    rest ← run handled.0 es
    ok (rest.0, cs ++ rest.1)

  -- A relation of the machine, the commands so far and the machine reached, which every accepted
  -- event extends, holds at the end of an accepted run.
  pub run_inv {ℓ} :
      (P : List sm.Command → Machine sm → Type ℓ)
      → ((out : List sm.Command) (m : Machine sm) (e : sm.Event) (cs : List sm.Command)
          → P out m
          → (on_event sm m e).1 ≡ ok cs
          → P (out ++ cs) (on_event sm m e).0)
      → (es : List sm.Event) (out : List sm.Command) (m n : Machine sm) (cs : List sm.Command)
      → P out m
      → run m es ≡ ok (n, cs)
      → P (out ++ cs) n
  unfolding run
  run_inv P keep [] out m n cs h r =
      subst (λ p. P (out ++ p.1) p.0) (ok-injective r) (rw append-nil h)
  run_inv P keep (e ∷ es) out m n cs h r =
      let (cs₁, accepted, r') = >>=-eq-ok (on_event sm m e).1 _ r in
      let (rest, r₂, last) = >>=-eq-ok (run (on_event sm m e).0 es) _ r' in
      subst (λ p. P (out ++ p.1) p.0) (ok-injective last)
        (rw (← append_assoc) (
          run_inv P keep es (out ++ cs₁) (on_event sm m e).0 rest.0 rest.1
            (keep out m e cs₁ h accepted) r₂))

  -- What comes of one event on a machine in a state, by what the table says of them: it has no arm,
  -- and the machine is left as it was; or its handler ends in a state, which is put back; or the
  -- handler itself finds the transition invalid, fails or unwinds, and the machine has no state left.
  pub data Ends (s : sm.State) (shared : sm.SharedState) (e : sm.Event) : Handled sm → Type 0 where
    accepted :
        (shared' : sm.SharedState) (s' : sm.State) (cs : List sm.Command)
        → sm.transition s shared e ≡ some (shared', TransitionResult.ok cs s')
        → Ends s shared e (from_parts sm s' shared', ok cs)
    refused :
        sm.transition s shared e ≡ none
        → Ends s shared e (from_parts sm s shared, err MachineError.invalid_transition)
    rejected :
        (shared' : sm.SharedState)
        → sm.transition s shared e ≡ some (shared', TransitionResult.invalid_transition)
        → Ends s shared e (lost_state sm shared', err MachineError.invalid_transition)
    failed :
        (shared' : sm.SharedState) (error : sm.Error)
        → sm.transition s shared e ≡ some (shared', TransitionResult.err error)
        → Ends s shared e (lost_state sm shared', err (MachineError.underlying error))
    unwound :
        (shared' : sm.SharedState)
        → sm.transition s shared e ≡ some (shared', TransitionResult.panics)
        → Ends s shared e (lost_state sm shared', panicked)

  put_back-Ends :
      (s : sm.State) (shared : sm.SharedState) (e : sm.Event) (shared' : sm.SharedState)
      (res : TransitionResult sm.Command sm.State sm.Error)
      → sm.transition s shared e ≡ some (shared', res)
      → Ends s shared e (put_back sm shared' (into_cmd_result res))
  unfolding put_back into_cmd_result
  put_back-Ends s shared e shared' TransitionResult.invalid_transition found =
      rejected shared' found
  put_back-Ends s shared e shared' (TransitionResult.ok cs s') found = accepted shared' s' cs found
  put_back-Ends s shared e shared' (TransitionResult.err error) found = failed shared' error found
  put_back-Ends s shared e shared' TransitionResult.panics found = unwound shared' found

  on_taken-Ends :
      (s : sm.State) (shared : sm.SharedState) (e : sm.Event)
      → Ends s shared e (on_taken sm (some s) shared e)
  unfolding on_taken
  on_taken-Ends s shared e = elim (Option-cases (sm.transition s shared e)) [
    | inl missing ↦ rw (missing, on_taken, dispatch) (refused missing)
    | inr ((shared', res), found) ↦
        rw (found, on_taken, dispatch) (put_back-Ends s shared e shared' res found)
  ]

  -- An event on a machine that holds a state is refused as an invalid transition, with the machine
  -- as it was, where the table has no arm for it. Where it has one, the machine has the handler's
  -- data, with the handler's state and commands if it succeeds; otherwise it has no state left, and
  -- the error is the handler's.
  pub on_event-Ends :
      (s : sm.State) (shared : sm.SharedState) (e : sm.Event)
      → Ends s shared e (on_event sm (from_parts sm s shared) e)
  unfolding on_event
  on_event-Ends s shared e = on_taken-Ends s shared e

  -- A machine that has lost its state refuses every event and stays as it is.
  pub on_event_lost :
      (m : Machine sm) (e : sm.Event)
      → m.state ≡ none
      → on_event sm m e ≡ (m, err MachineError.invalid_transition)
  unfolding on_event
  on_event_lost m e lost = ground arith
