-- ===== src/Machines/Timer/Resolution.antt =====
-- How a timer resolves (timer_state_machine.rs), over every run of accepted events.
use sdk_core.Prelude.{
  ℕ, ◌⊎◌, ◌≢◌, inl, inr, err, sym, ap, Bool-cases, to_string, to_string-injective, text_eq,
  text_eq→eq, text_eq_refl, refl, Bool, true, false, Option, none, some, List, [], ◌∷◌, ◌++◌, ok,
  ◌≡◌, ◌⊎◌, arith,
}
use sdk_core.Fsm.{from_parts, on_event, underlying}
use sdk_core.Fsm.Run.{run, run_inv}
use sdk_core.Proto.{StartTimer, cancel_timer_attributes}
use sdk_core.Machines.{nondeterminism}
use sdk_core.Machines.Timer.{
  timer_fired, State, created, start_command_created, start_command_recorded,
  cancel_timer_command_created, cancel_timer_command_sent, canceled, fired, Event,
  TimerMachineCommand, complete, issue_cancel_cmd, SharedState, TimerFsm, TimerMachine, transition,
}

-- The machine that `new_scheduled` returns.
abbrev pub scheduled : StartTimer → TimerMachine
scheduled attrs =
    from_parts TimerFsm start_command_created
      (record { attrs = attrs; cancelled_before_sent = false })

abbrev cancels : StartTimer → List TimerMachineCommand
cancels attrs = issue_cancel_cmd (cancel_timer_attributes (record { seq = attrs.seq })) ∷ []

-- What a timer may have issued, and whether it was cancelled unsent, by the state it is in.
abbrev pub Issued : StartTimer → State → List TimerMachineCommand → Bool → Type 0
Issued attrs created out unsent = ⊥
Issued attrs start_command_created out unsent = (out ≡ []) × (unsent ≡ false)
Issued attrs start_command_recorded out unsent = (out ≡ []) × (unsent ≡ false)
Issued attrs cancel_timer_command_created out unsent = (out ≡ cancels attrs) × (unsent ≡ false)
Issued attrs cancel_timer_command_sent out unsent = (out ≡ cancels attrs) × (unsent ≡ false)
Issued attrs canceled out unsent =
    ((out ≡ []) × (unsent ≡ true)) ⊎ ((out ≡ cancels attrs) × (unsent ≡ false))
Issued attrs fired out unsent = (out ≡ complete ∷ []) × (unsent ≡ false)

abbrev IssuedIn : StartTimer → Option State → List TimerMachineCommand → Bool → Type 0
IssuedIn attrs none out unsent = ⊥
IssuedIn attrs (some s) out unsent = Issued attrs s out unsent

pub record IsResolved (attrs : StartTimer) (out : List TimerMachineCommand) (m : TimerMachine)
    : Type 0 where
  pub same_attrs : m.shared_state.attrs ≡ attrs
  pub issued : IssuedIn attrs m.state out m.shared_state.cancelled_before_sent

step-IsResolved :
    (attrs : StartTimer) (out : List TimerMachineCommand) (s : Option State) (dat : SharedState)
    (e : Event) (cs : List TimerMachineCommand)
    → let m : TimerMachine = record { state = s; shared_state = dat } in
      IsResolved attrs out m
      → (on_event TimerFsm m e).1 ≡ ok cs
      → IsResolved attrs (out ++ cs) (on_event TimerFsm m e).0
unfolding on_event transition
step-IsResolved attrs out none dat e cs h a = absurd h.issued
step-IsResolved attrs out (some created) dat e cs h a = absurd h.issued
step-IsResolved attrs out (some s) dat e cs h a = ground arith

-- In every accepted run from a new timer, the commands issued are those that its state allows: none
-- before it resolves; one cancellation of its own id once it was cancelled after its start was
-- recorded; none if it was cancelled before that, and then the flag says so; one completion, and no
-- cancellation, once it fired.
pub run-IsResolved :
    (attrs : StartTimer) (es : List Event) (m : TimerMachine) (cs : List TimerMachineCommand)
    → run TimerFsm (scheduled attrs) es ≡ ok (m, cs)
    → IsResolved attrs cs m
run-IsResolved attrs es m cs r =
    run_inv TimerFsm (IsResolved attrs)
      (λ out n e ds h a. step-IsResolved attrs out n.state n.shared_state e ds h a) es []
      (scheduled attrs) m cs (record { same_attrs = refl; issued = (refl, refl) }) r

-- A timer whose start is recorded fires on an event that names timer `k` exactly if `k` is its own
-- sequence number; for any other number the event is a nondeterminism error.
pub timer_fired-seq :
    (dat : SharedState) (k started : ℕ)
    → let m = from_parts TimerFsm start_command_recorded dat in
      let e = timer_fired (record { timer_id = to_string k; started_event_id = started }) in
      ((k ≡ dat.attrs.seq)
        × (on_event TimerFsm m e ≡ (from_parts TimerFsm fired dat, ok (complete ∷ []))))
      ⊎ ((k ≢ dat.attrs.seq) × ((on_event TimerFsm m e).1 ≡ err (underlying nondeterminism)))
unfolding on_event transition
timer_fired-seq dat k started =
    elim (Bool-cases (text_eq (to_string dat.attrs.seq) (to_string k))) [
      | inl same ↦ inl (sym (to_string-injective _ _ (text_eq→eq _ _ same)), ground arith)
      | inr other ↦
          inr (λ e. ground (arith, text_eq_refl (to_string k), ap to_string e), ground arith)
    ]
