-- ===== src/Machines/LocalActivity/Resolution.antt =====
-- How often lang is told the result of a local activity (local_activity_state_machine.rs), over all
-- that can reach its machine: history events, commands, cancellations, results of its execution,
-- results that a marker ahead in the history is known to hold, and the end of the replay.
use mathlib.Core.List.{append-nil}
use mathlib.Core.Option
use sdk_core.Prelude.{
  ap, ok-injective, ◌+◌, subst, ℕ, ◌+◌, Bool, true, false, Option, none, some, List, ◌++◌, ok,
  ok-injective, map_err, subst, ◌≡◌, refl, arith,
}
use mathlib.Core.List.{append-nil}
use sdk_core.Fsm.{on_event}
use sdk_core.Flags.{InternalFlags}
use sdk_core.Proto.{
  CommandType, HistEventData, EventInfo, ActivityCancellationType, ValidScheduleLa,
  LocalActivityExecutionResult,
}
use sdk_core.Machines.{
  WfMachinesError, wf_machines_error, MachineResponse, Responses, finish, handle_event,
  handle_command,
}
use sdk_core.Machines.Inputs.{handle_event_inv, handle_command_inv}
use sdk_core.Machines.LocalActivity.{
  MarkerJson, ResolveDat, State, waiting_marker_event, Event, command_record_marker,
  started_non_replay_wft, handle_result, handle_known_result, marker_recorded, SharedState,
  transition, LocalActivityFsm, LocalActivityMachine, local_activity, event_of_history,
  event_of_command, cancel_event, adapted, try_resolve, try_resolve_with_dat,
  encountered_non_replay_wft, cancel_local_activity,
}
use sdk_core.Machines.LocalActivity.Tells.{resolved-Tells}
use sdk_core.Machines.LocalActivity.Creation.{new_local_activity}
use sdk_core.Machines.LocalActivity.Moves.{
  IsTold, IsLater, repeats, event-Moves, finish-IsTold, adapted-IsTold, cancelled-IsTold,
}

pub data Input : Type 0 where
  history : HistEventData → Input
  command : CommandType → Input
  cancels : Input
  executed :
      LocalActivityExecutionResult
      → (runtime attempt : ℕ) (backoff original_schedule_time : Option ℕ) → Input
  known : ResolveDat → Input
  replay_ends : Input

-- The inputs that have lang told once more than the state says.
abbrev pub repeats_in : Option State → Input → ℕ
repeats_in s (known dat) = repeats s (handle_known_result dat)
repeats_in s replay_ends = repeats s started_non_replay_wft
repeats_in s i = 0

abbrev is_external : Event → Bool
is_external (marker_recorded d) = true
is_external command_record_marker = true
is_external _ = false

command-is_external :
    (c : CommandType) (e : Event) → event_of_command c ≡ some e → is_external e ≡ true
unfolding event_of_command
command-is_external c e h = ground arith

external-IsLater : (e : Event) → is_external e ≡ true → IsLater e
external-IsLater (marker_recorded d) h = tt
external-IsLater command_record_marker h = tt
external-IsLater e h = cc

external-repeats : (s : Option State) (e : Event) → is_external e ≡ true → repeats s e ≡ 0
external-repeats s e h = ground arith

cancel-IsLater : (t : ActivityCancellationType) → IsLater (cancel_event t)
unfolding cancel_event
cancel-IsLater ActivityCancellationType.try_cancel = tt
cancel-IsLater ActivityCancellationType.abandon = tt
cancel-IsLater ActivityCancellationType.wait_cancellation_completed = tt

cancel-repeats : (s : Option State) (t : ActivityCancellationType) → repeats s (cancel_event t) ≡ 0
unfolding cancel_event
cancel-repeats s t = ground arith

result-repeats : (s : Option State) (r : ResolveDat) → repeats s (handle_result r) ≡ 0
result-repeats s r = ground arith

add_zero : (n : ℕ) → n ≡ n + 0
add_zero n = omega arith

module _ (json : MarkerJson) where
  history-is_external :
      (d : HistEventData) (e : Event) → event_of_history json d ≡ ok e → is_external e ≡ true
  unfolding event_of_history
  history-is_external d e h = ground arith

  unfoldable pub step : LocalActivityMachine → Input → LocalActivityMachine × Responses
  step m (history d) = handle_event (local_activity json) m d
  step m (command c) = handle_command (local_activity json) m c
  step m cancels = let (m', r) = cancel_local_activity json m in (m', map_err wf_machines_error r)
  step m (executed result runtime attempt backoff original_schedule_time) =
      try_resolve json m result runtime attempt backoff original_schedule_time
  step m (known dat) = try_resolve_with_dat json m dat
  step m replay_ends = encountered_non_replay_wft json m

  external-IsTold :
      (seq again : ℕ) (v : WfMachinesError) (info : Option EventInfo) (out : List MachineResponse)
      (s : Option State) (dat : SharedState) (e : Event) (rs : List MachineResponse)
      → let m : LocalActivityMachine = record { state = s; shared_state = dat } in
        is_external e ≡ true
        → IsTold seq again out m
        → (finish (local_activity json) v info (on_event LocalActivityFsm m e)).1 ≡ ok rs
        → IsTold seq again
            (out ++ rs)
            (finish (local_activity json) v info (on_event LocalActivityFsm m e)).0
  external-IsTold seq again v info out none dat e rs x h r = absurd h.phase
  external-IsTold seq again v info out (some s) dat e rs x h r =
      let m : LocalActivityMachine = record { state = some s; shared_state = dat } in
      subst
        (λ k.
          IsTold seq k (out ++ rs)
            (finish (local_activity json) v info (on_event LocalActivityFsm m e)).0)
        (omega (arith, external-repeats (some s) e x))
        (finish-IsTold json seq again out s dat e v info (on_event LocalActivityFsm m e) rs
          (λ cs. event-Moves s dat e cs h.phase (external-IsLater e x)) h r)

  step-IsTold :
      (seq again : ℕ) (out : List MachineResponse) (s : Option State) (dat : SharedState)
      (i : Input) (rs : List MachineResponse)
      → let m : LocalActivityMachine = record { state = s; shared_state = dat } in
        IsTold seq again out m
        → (step m i).1 ≡ ok rs
        → IsTold seq (again + repeats_in s i) (out ++ rs) (step m i).0
  unfolding step try_resolve try_resolve_with_dat encountered_non_replay_wft cancel_local_activity
  step-IsTold seq again out none dat i rs h r = absurd h.phase
  step-IsTold seq again out s dat (history d) rs h r =
      let m : LocalActivityMachine = record { state = s; shared_state = dat } in
      subst (λ k. IsTold seq k (out ++ rs) (step m (history d)).0) (add_zero again)
        (handle_event_inv (local_activity json) (λ e. is_external e ≡ true) (IsTold seq again)
          (λ v info out n e ds y g a.
            external-IsTold seq again v info out n.state n.shared_state e ds y g a)
          history-is_external out m d rs h r)
  step-IsTold seq again out s dat (command c) rs h r =
      let m : LocalActivityMachine = record { state = s; shared_state = dat } in
      subst (λ k. IsTold seq k (out ++ rs) (step m (command c)).0) (add_zero again)
        (handle_command_inv (local_activity json) (λ e. is_external e ≡ true) (IsTold seq again)
          (λ v info out n e ds y g a.
            external-IsTold seq again v info out n.state n.shared_state e ds y g a)
          command-is_external out m c rs h r)
  step-IsTold seq again out (some s) dat cancels rs h r =
      let m : LocalActivityMachine = record { state = some s; shared_state = dat } in
      let e = cancel_event dat.attrs.cancellation_type in
      subst (λ k. IsTold seq (again + k) (out ++ rs) (step m cancels).0)
        (cancel-repeats (some s) dat.attrs.cancellation_type)
        (cancelled-IsTold json seq again out s dat e (on_event LocalActivityFsm m e) rs
          (λ cs. event-Moves s dat e cs h.phase (cancel-IsLater dat.attrs.cancellation_type)) h r)
  step-IsTold seq again out (some s) dat (executed result runtime attempt b t) rs h r =
      let m : LocalActivityMachine = record { state = some s; shared_state = dat } in
      let e = handle_result (record {
        result = result;
        complete_time = Option.map (λ u. u + runtime) dat.wf_time_when_started;
        attempt = attempt;
        backoff = b;
        original_schedule_time = t;
      }) in
      subst
        (λ k. IsTold seq (again + k) (out ++ rs) (adapted json (on_event LocalActivityFsm m e)).0)
        (result-repeats (some s) _)
        (adapted-IsTold json seq again out s dat e (on_event LocalActivityFsm m e) rs
          (λ cs. event-Moves s dat e cs h.phase tt) h r)
  step-IsTold seq again out (some s) dat (known d) rs h r =
      let m : LocalActivityMachine = record { state = some s; shared_state = dat } in
      let e = handle_known_result d in
      adapted-IsTold json seq again out s dat e (on_event LocalActivityFsm m e) rs
        (λ cs. event-Moves s dat e cs h.phase tt) h r
  step-IsTold seq again out (some (waiting_marker_event done)) dat replay_ends rs h r =
      let s = waiting_marker_event done in
      let m : LocalActivityMachine = record { state = some s; shared_state = dat } in
      adapted-IsTold json seq again out s dat started_non_replay_wft
        (on_event LocalActivityFsm m started_non_replay_wft) rs
        (λ cs. event-Moves s dat started_non_replay_wft cs h.phase tt) h r
  step-IsTold seq again out (some s) dat replay_ends rs h r =
      subst (λ k. IsTold seq k (out ++ rs) (record { state = some s; shared_state = dat }))
        (add_zero again)
        (subst (λ q. IsTold seq again (out ++ q) (record { state = some s; shared_state = dat }))
          (ok-injective r) (rw append-nil h))

  -- A new machine and what it has answered after any inputs that it accepts. The number counts those
  -- of them that have lang told once more than the state says.
  pub data Run (attrs : ValidScheduleLa)
      : LocalActivityMachine → ℕ → List MachineResponse → Type 0 where
    new :
        (replaying_when_invoked : Bool) (pre : Option ResolveDat) (wf_time : Option ℕ)
        (flags : InternalFlags) (now : ℕ) {m : LocalActivityMachine} {rs : List MachineResponse}
        → new_local_activity json attrs replaying_when_invoked pre wf_time flags now ≡ ok (m, rs)
        → Run attrs m 0 rs
    next :
        (i : Input) {m n : LocalActivityMachine} {again : ℕ} {out rs : List MachineResponse}
        → Run attrs m again out
        → step m i ≡ (n, ok rs)
        → Run attrs n (again + repeats_in m.state i) (out ++ rs)

  new-IsTold :
      (attrs : ValidScheduleLa) (replaying_when_invoked : Bool) (pre : Option ResolveDat)
      (wf_time : Option ℕ) (flags : InternalFlags) (now : ℕ) (m : LocalActivityMachine)
      (rs : List MachineResponse)
      → new_local_activity json attrs replaying_when_invoked pre wf_time flags now ≡ ok (m, rs)
      → IsTold attrs.seq 0 rs m
  unfolding new_local_activity on_event transition
  new-IsTold attrs true none wf_time flags now m rs h = ground arith
  new-IsTold attrs true (some dat) wf_time flags now m rs h =
      subst (λ p. IsTold attrs.seq 0 p.1 p.0) (ok-injective h)
        (record {
          same_seq = refl;
          phase = refl;
          tells =
              resolved-Tells json
                (record {
                  attrs = record attrs {
                    original_schedule_time = some (Option.get_or attrs.original_schedule_time now);
                  };
                  replaying_when_invoked = true;
                  wf_time_when_started = wf_time;
                  internal_flags = flags;
                })
                dat;
        })
  new-IsTold attrs false none wf_time flags now m rs h = ground arith
  new-IsTold attrs false (some dat) wf_time flags now m rs h = cc

  -- However a new local activity goes, as long as it accepts each input, lang is told its result as
  -- often as the state says: never while the execution or a marker is awaited, and once from then on;
  -- and once more for each input that reached it when a marker had resolved it already and it still
  -- waited for its marker event, where that input is another result from a marker or the end of the
  -- replay. Lang is told under the activity's own number and with no other job. The server gets no
  -- marker for it if the machine counts as replaying, and else as many as the state says.
  pub local_activity-IsTold :
      {attrs : ValidScheduleLa} {m : LocalActivityMachine} {again : ℕ} {out : List MachineResponse}
      → Run attrs m again out
      → IsTold attrs.seq again out m
  local_activity-IsTold {attrs} (new replays pre wf_time flags now {m} {rs} h) =
      new-IsTold attrs replays pre wf_time flags now m rs h
  local_activity-IsTold {attrs} (next i {m} {n} {again} {out} {rs} run stepped) =
      subst (IsTold attrs.seq (again + repeats_in m.state i) (out ++ rs)) (ap (λ p. p.0) stepped) (
        step-IsTold attrs.seq again out m.state m.shared_state i rs (local_activity-IsTold run)
          (ap (λ p. p.1) stepped))
