-- ===== src/Machines/Update/Answers.antt =====
-- The messages that an update sends to the server (update_state_machine.rs), over all answers of
-- lang, history events and commands.
use sdk_core.Prelude.{
  Option, none, some, List, [], ◌++◌, Text, ok, err, panicked, subst, ap, ◌≡◌, refl, sym, arith,
}
use sdk_core.Fsm.{Handled, MachineError, underlying, from_parts, on_event}
use sdk_core.Proto.{CommandType, HistEventData, EventInfo, Request, UpdateResponse}
use sdk_core.Machines.{
  WfMachinesError, nondeterminism, MachineResponse, Responses, process_machine_commands, finish,
  handle_event, handle_command,
}
use sdk_core.Machines.Inputs.{invalid-ne-ok, handle_event_inv, handle_command_inv}
use sdk_core.Machines.Update.{
  State, request_initiated, Event, accept, reject, complete, SharedState, UpdateMachineCommand,
  UpdateFsm, UpdateMachine, UpdateMsg, transition, handle_response, update, answered,
}
use sdk_core.Machines.Update.Stages.{stage_of}
use sdk_core.Machines.Update.Messages.{
  Transcript, TranscriptIn, IsTranscript, SpeaksIn, Speaks-Transcript,
}

event-Speaks :
    (s : State) (dat : SharedState) (e : Event) (cs : List UpdateMachineCommand)
    → let m : UpdateMachine = record { state = some s; shared_state = dat } in
      (on_event UpdateFsm m e).1 ≡ ok cs
      → ((on_event UpdateFsm m e).0.shared_state ≡ dat)
        × SpeaksIn (stage_of s) cs (on_event UpdateFsm m e).0.state
unfolding on_event transition
event-Speaks s dat accept cs h = ground arith
event-Speaks s dat (reject f) cs h = ground arith
event-Speaks s dat (complete p) cs h = ground arith
event-Speaks s dat e cs h = ground arith

module _ (encode : UpdateMsg → Option Text) where
  -- A handled event carries the transcript on, whatever the handler of its errors is.
  module _ (dat : SharedState) (out : List MachineResponse) (s : State) where
    abbrev Spoken : Handled UpdateFsm → Type 0
    Spoken r =
        (cs : List UpdateMachineCommand)
        → r.1 ≡ ok cs
        → (r.0.shared_state ≡ dat) × SpeaksIn (stage_of s) cs r.0.state

    spoken-sent :
        (o : Option State) (dat' : SharedState) (cs : List UpdateMachineCommand)
        (info : Option EventInfo) (rs : List MachineResponse)
        → let m : UpdateMachine = record { state = o; shared_state = dat' } in
          dat' ≡ dat
          → SpeaksIn (stage_of s) cs o
          → Transcript dat (stage_of s) out
          → process_machine_commands (update encode) m cs info ≡ ok rs
          → TranscriptIn dat o (out ++ rs)
    spoken-sent none dat' cs info rs same speaks t h = absurd speaks
    spoken-sent (some s') dat' cs info rs same speaks t h =
        subst (λ d. Transcript d (stage_of s') (out ++ rs)) same
          (Speaks-Transcript encode (record { state = some s'; shared_state = dat' }) (stage_of s)
            (stage_of s') cs info out rs (subst (λ d. Transcript d (stage_of s) out) (sym same) t)
            speaks h)

    spoken-IsTranscript :
        (m : UpdateMachine) (cs : List UpdateMachineCommand) (info : Option EventInfo)
        (rs : List MachineResponse)
        → (m.shared_state ≡ dat) × SpeaksIn (stage_of s) cs m.state
        → Transcript dat (stage_of s) out
        → process_machine_commands (update encode) m cs info ≡ ok rs
        → IsTranscript dat (out ++ rs) m
    spoken-IsTranscript m cs info rs (same, speaks) t h = record {
      same = same;
      sent = spoken-sent m.state m.shared_state cs info rs same speaks t h;
    }

    finish-IsTranscript :
        (v : WfMachinesError) (info : Option EventInfo) (r : Handled UpdateFsm)
        (rs : List MachineResponse)
        → Spoken r
        → Transcript dat (stage_of s) out
        → (finish (update encode) v info r).1 ≡ ok rs
        → IsTranscript dat (out ++ rs) (finish (update encode) v info r).0
    unfolding finish
    finish-IsTranscript v info (m, ok cs) rs sp t h =
        spoken-IsTranscript m cs info rs (sp cs refl) t h
    finish-IsTranscript v info (m, err MachineError.invalid_transition) rs sp t h =
        absurd (invalid-ne-ok m.state v rs h)
    finish-IsTranscript v info (m, err (underlying e)) rs sp t h = cc
    finish-IsTranscript v info (m, panicked) rs sp t h = cc

    answered-IsTranscript :
        (r : Handled UpdateFsm) (rs : List MachineResponse)
        → Spoken r
        → Transcript dat (stage_of s) out
        → (answered encode r).1 ≡ ok rs
        → IsTranscript dat (out ++ rs) (answered encode r).0
    unfolding answered
    answered-IsTranscript (m, ok cs) rs sp t h = spoken-IsTranscript m cs none rs (sp cs refl) t h
    answered-IsTranscript (m, err MachineError.invalid_transition) rs sp t h =
        absurd (invalid-ne-ok m.state nondeterminism rs h)
    answered-IsTranscript (m, err (underlying e)) rs sp t h = cc
    answered-IsTranscript (m, panicked) rs sp t h = cc

  event-IsTranscript :
      (dat : SharedState) (v : WfMachinesError) (info : Option EventInfo)
      (out : List MachineResponse) (o : Option State) (dat' : SharedState) (e : Event)
      (rs : List MachineResponse)
      → let m : UpdateMachine = record { state = o; shared_state = dat' } in
        IsTranscript dat out m
        → (finish (update encode) v info (on_event UpdateFsm m e)).1 ≡ ok rs
        → IsTranscript dat (out ++ rs) (finish (update encode) v info (on_event UpdateFsm m e)).0
  event-IsTranscript dat v info out none dat' e rs t h = absurd t.sent
  event-IsTranscript dat v info out (some s) dat' e rs t h =
      let m : UpdateMachine = record { state = some s; shared_state = dat' } in
      subst
        (λ d. IsTranscript d (out ++ rs) (finish (update encode) v info (on_event UpdateFsm m e)).0)
        t.same
        (finish-IsTranscript dat' out s v info
          (on_event UpdateFsm (record { state = some s; shared_state = dat' }) e) rs
          (λ cs. event-Speaks s dat' e cs)
          (subst (λ d. Transcript d (stage_of s) out) (sym t.same) t.sent) h)

  reply-IsTranscript :
      (dat : SharedState) (out : List MachineResponse) (s : State) (dat' : SharedState) (e : Event)
      (rs : List MachineResponse)
      → let m : UpdateMachine = record { state = some s; shared_state = dat' } in
        IsTranscript dat out m
        → (answered encode (on_event UpdateFsm m e)).1 ≡ ok rs
        → IsTranscript dat (out ++ rs) (answered encode (on_event UpdateFsm m e)).0
  reply-IsTranscript dat out s dat' e rs t h =
      let m : UpdateMachine = record { state = some s; shared_state = dat' } in
      subst (λ d. IsTranscript d (out ++ rs) (answered encode (on_event UpdateFsm m e)).0) t.same
        (answered-IsTranscript dat' out s (on_event UpdateFsm m e) rs
          (λ cs. event-Speaks s dat' e cs)
          (subst (λ d. Transcript d (stage_of s) out) (sym t.same) t.sent) h)

  answer-IsTranscript :
      (dat : SharedState) (out : List MachineResponse) (o : Option State) (dat' : SharedState)
      (resp : Option UpdateResponse) (rs : List MachineResponse)
      → let m : UpdateMachine = record { state = o; shared_state = dat' } in
        IsTranscript dat out m
        → (handle_response encode m resp).1 ≡ ok rs
        → IsTranscript dat (out ++ rs) (handle_response encode m resp).0
  unfolding handle_response
  answer-IsTranscript dat out none dat' resp rs t h = absurd t.sent
  answer-IsTranscript dat out (some s) dat' none rs t h = cc
  answer-IsTranscript dat out (some s) dat' (some UpdateResponse.accepted) rs t h =
      reply-IsTranscript dat out s dat' accept rs t h
  answer-IsTranscript dat out (some s) dat' (some (UpdateResponse.rejected f)) rs t h =
      reply-IsTranscript dat out s dat' (reject f) rs t h
  answer-IsTranscript dat out (some s) dat' (some (UpdateResponse.completed p)) rs t h =
      reply-IsTranscript dat out s dat' (complete p) rs t h

pub data Input : Type 0 where
  history : HistEventData → Input
  command : CommandType → Input
  responds : Option UpdateResponse → Input

module _ (encode : UpdateMsg → Option Text) where
  unfoldable pub step : UpdateMachine → Input → UpdateMachine × Responses
  step m (history d) = handle_event (update encode) m d
  step m (command c) = handle_command (update encode) m c
  step m (responds resp) = handle_response encode m resp

  -- A new update and what it has sent, after inputs that its machine accepts.
  pub data Run (request : Request) (dat : SharedState)
      : UpdateMachine → List MachineResponse → Type 0 where
    new :
        {m : UpdateMachine}
        → m ≡ from_parts UpdateFsm (request_initiated request) dat
        → Run request dat m []
    next :
        (i : Input) {m n : UpdateMachine} {out rs : List MachineResponse}
        → Run request dat m out
        → step m i ≡ (n, ok rs)
        → Run request dat n (out ++ rs)

  step-IsTranscript :
      (dat : SharedState) (out : List MachineResponse) (m : UpdateMachine) (i : Input)
      (rs : List MachineResponse)
      → IsTranscript dat out m
      → (step m i).1 ≡ ok rs
      → IsTranscript dat (out ++ rs) (step m i).0
  unfolding step
  step-IsTranscript dat out m (history d) rs t h =
      handle_event_inv (update encode) (λ _. Unit {0}) (IsTranscript dat)
        (λ v info out n e ds _ g a.
          event-IsTranscript encode dat v info out n.state n.shared_state e ds g a)
        (λ _ _ _. tt) out m d rs t h
  step-IsTranscript dat out m (command c) rs t h =
      handle_command_inv (update encode) (λ _. Unit {0}) (IsTranscript dat)
        (λ v info out n e ds _ g a.
          event-IsTranscript encode dat v info out n.state n.shared_state e ds g a)
        (λ _ _ _. tt) out m c rs t h
  step-IsTranscript dat out m (responds resp) rs t h =
      answer-IsTranscript encode dat out m.state m.shared_state resp rs t h

  -- Whatever answers of lang, history events and commands a new update takes, as long as each is
  -- accepted, what it has sent to the server is settled by its stage: nothing while lang has not
  -- answered; one rejection and no command; one acceptance with its command; or one acceptance and
  -- one response, each with its command. All are under the update's own ids.
  pub update-IsTranscript :
      {request : Request} {dat : SharedState} {m : UpdateMachine} {out : List MachineResponse}
      → Run request dat m out
      → IsTranscript dat out m
  update-IsTranscript {request} {dat} (new e) = rw e (record { same = refl; sent = refl })
  update-IsTranscript {request} {dat} (next i {m} {n} {out} {rs} run stepped) =
      subst (IsTranscript dat (out ++ rs)) (ap (λ p. p.0) stepped)
        (step-IsTranscript dat out m i rs (update-IsTranscript run) (ap (λ p. p.1) stepped))
