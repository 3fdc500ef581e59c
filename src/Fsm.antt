-- ===== src/Fsm.antt =====
-- fsm/rustfsm_trait/src/lib.rs (the `StateMachine` trait, its results) and the `on_event` that
-- fsm/rustfsm_procmacro/src/lib.rs generates from a transition table.
pub mod Run
use mathlib.Core.Option
use sdk_core.Prelude.{Bool, Option, none, some, List, [], Outcome, panicked}

pub data MachineError {ℓ} (E : Type ℓ) : Type ℓ where
  invalid_transition : MachineError E
  underlying : E → MachineError E

-- `panics` is not a variant of the source: it stands for a handler that unwinds.
pub data TransitionResult (Command State E : Type 0) : Type 0 where
  invalid_transition : TransitionResult Command State E
  ok : List Command → State → TransitionResult Command State E
  err : E → TransitionResult Command State E
  panics : TransitionResult Command State E

-- `TransitionResult::default` and `from`: no commands, and the default value of the state.
abbrev pub default : {C S E : Type 0} → S → TransitionResult C S E
default s = TransitionResult.ok [] s

-- `TransitionResult::commands`.
abbrev pub commands : {C S E : Type 0} → List C → S → TransitionResult C S E
commands cs s = TransitionResult.ok cs s

unfoldable pub into_cmd_result :
    {C S E : Type 0} → TransitionResult C S E → Outcome (MachineError E) (List C × S)
into_cmd_result (TransitionResult.ok cs s) = Outcome.ok (cs, s)
into_cmd_result TransitionResult.invalid_transition = Outcome.err MachineError.invalid_transition
into_cmd_result (TransitionResult.err e) = Outcome.err (underlying e)
into_cmd_result TransitionResult.panics = panicked

-- What `fsm!` is given and what it derives: the types, the table of transitions with their handlers,
-- and the states that no transition leaves. `transition` is `none` where the table has no arm.
pub record StateMachine : Type 1 where
  pub State : Type 0
  pub SharedState : Type 0
  pub Event : Type 0
  pub Command : Type 0
  pub Error : Type 0
  pub transition :
      State → SharedState → Event → Option (SharedState × TransitionResult Command State Error)
  pub is_final : State → Bool

-- The generated struct. `state` is `none` while an event is handled, and after a handler failed.
pub record Machine (sm : StateMachine) : Type 0 where
  pub state : Option sm.State
  pub shared_state : sm.SharedState

abbrev pub from_parts : (sm : StateMachine) → sm.State → sm.SharedState → Machine sm
from_parts sm s shared = record { state = some s; shared_state = shared }

module _ (sm : StateMachine) where
  abbrev pub Handled : Type 0
  Handled = Machine sm × Outcome (MachineError sm.Error) (List sm.Command)

  -- The transform of a handler's result: only `Ok` puts a state back.
  put_back : sm.SharedState → Outcome (MachineError sm.Error) (List sm.Command × sm.State) → Handled
  put_back shared (Outcome.ok (cs, s)) =
      (record { state = some s; shared_state = shared }, Outcome.ok cs)
  put_back shared (Outcome.err e) = (record { state = none; shared_state = shared }, Outcome.err e)
  put_back shared panicked = (record { state = none; shared_state = shared }, panicked)

  dispatch :
      sm.State
      → sm.SharedState
      → Option (sm.SharedState × TransitionResult sm.Command sm.State sm.Error)
      → Handled
  unfolding put_back into_cmd_result
  dispatch s shared none = (
    record { state = some s; shared_state = shared },
    Outcome.err MachineError.invalid_transition,
  )
  dispatch s shared (some (shared', res)) = put_back shared' (into_cmd_result res)

  -- `match taken_state`.
  on_taken : Option sm.State → sm.SharedState → sm.Event → Handled
  unfolding dispatch
  on_taken none shared e =
      (record { state = none; shared_state = shared }, Outcome.err MachineError.invalid_transition)
  on_taken (some s) shared e = dispatch s shared (sm.transition s shared e)

  unfoldable pub on_event : Machine sm → sm.Event → Handled
  unfolding on_taken
  on_event m e = on_taken m.state m.shared_state e

  -- `self.state.as_ref().unwrap().is_final()`, where `none` is the panic of `unwrap`.
  unfoldable pub has_reached_final_state : Machine sm → Option Bool
  has_reached_final_state m = Option.map sm.is_final m.state
