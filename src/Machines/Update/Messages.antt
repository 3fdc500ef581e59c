-- ===== src/Machines/Update/Messages.antt =====
-- The messages that the commands of an update's machine become (update_state_machine.rs).
use mathlib.Core.List.{append-nil}
use sdk_core.Prelude.{
  Option, none, some, List, [], ◌∷◌, ◌++◌, Text, codes, Outcome, ok, err, >>=-eq-ok, ok-injective,
  subst, ap, ◌≡◌, sym, ◌∙◌, Option-cases, inl, inr,
}
use sdk_core.Proto.{CommandAttributes, EventInfo}
use sdk_core.Machines.{
  WfMachinesError, fatal, MachineResponse, issue_new_command, issue_new_message, proto_command,
  process_machine_commands,
}
use sdk_core.Machines.Update.{
  State, SharedState, UpdateMachineCommand, accept_request, reject_request, complete_update,
  fail_update, UpdateMachine, UpdateMsg, adapt_response, update, build_msg, build_command_msg,
  type_url,
}
use sdk_core.Machines.Update.Stages.{Stage, requested, running, refused, done, stage_of}

-- A message under the update's own id and a suffix, with a body of the given kind.
abbrev pub said : SharedState → (suffix kind value : Text) → MachineResponse
said dat suffix kind value = issue_new_message (record {
  id = dat.message_id ++ suffix;
  protocol_instance_id = dat.instance_id;
  body = some (record {
    type_url = codes "type.googleapis.com/temporal.api.update.v1." ++ kind;
    value = value;
  });
})

-- The command that puts that message into the order of commands.
abbrev pub ordered : SharedState → (suffix : Text) → MachineResponse
ordered dat suffix =
    issue_new_command
      (proto_command (CommandAttributes.protocol_message (dat.message_id ++ suffix)))

abbrev pub acceptance_of : SharedState → Text → List MachineResponse
acceptance_of dat v =
    said dat (codes "/accept") (codes "Acceptance") v ∷ ordered dat (codes "/accept") ∷ []

abbrev pub completion_of : SharedState → Text → List MachineResponse
completion_of dat v =
    said dat (codes "/complete") (codes "Response") v ∷ ordered dat (codes "/complete") ∷ []

-- All that an update has sent in each stage.
abbrev pub Transcript : SharedState → Stage → List MachineResponse → Type 0
Transcript dat requested out = out ≡ []
Transcript dat running out = (v : Text) × (out ≡ acceptance_of dat v)
Transcript dat refused out =
    (v : Text) × (out ≡ said dat (codes "/reject") (codes "Rejection") v ∷ [])
Transcript dat done out = (v w : Text) × (out ≡ acceptance_of dat v ++ completion_of dat w)

abbrev pub TranscriptIn : SharedState → Option State → List MachineResponse → Type 0
TranscriptIn dat none out = ⊥
TranscriptIn dat (some s) out = Transcript dat (stage_of s) out

pub record IsTranscript (dat : SharedState) (out : List MachineResponse) (m : UpdateMachine)
    : Type 0 where
  pub same : m.shared_state ≡ dat
  pub sent : TranscriptIn dat m.state out

-- The commands that take an update from one stage to another.
abbrev pub SpeaksOne : Stage → UpdateMachineCommand → Stage → Type 0
SpeaksOne requested (accept_request r) running = Unit {0}
SpeaksOne requested (reject_request r f) refused = Unit {0}
SpeaksOne running (complete_update p) done = Unit {0}
SpeaksOne running (fail_update f) done = Unit {0}
SpeaksOne _ _ _ = ⊥

abbrev pub Speaks : Stage → List UpdateMachineCommand → Stage → Type 0
Speaks a [] b = a ≡ b
Speaks a (c ∷ []) b = SpeaksOne a c b
Speaks a (_ ∷ _ ∷ _) b = ⊥

abbrev pub SpeaksIn : Stage → List UpdateMachineCommand → Option State → Type 0
SpeaksIn a cs none = ⊥
SpeaksIn a cs (some s) = Speaks a cs (stage_of s)

module _ (encode : UpdateMsg → Option Text) where
  build_msg-says :
      (dat : SharedState) (id : Text) (msg : UpdateMsg) {r : MachineResponse}
      → build_msg encode dat id msg ≡ ok r
      → (v : Text) × (r
          ≡ issue_new_message (record {
            id = id;
            protocol_instance_id = dat.instance_id;
            body = some (record { type_url = type_url msg; value = v });
          }))
  unfolding build_msg
  build_msg-says dat id msg {r} h = elim (Option-cases (encode msg)) [
    | inl e ↦
        let h' : ◌≡◌ {A = Outcome WfMachinesError MachineResponse} (err fatal) (ok r) =
          rw (e, build_msg) at h in
        cc
    | inr (v, e) ↦ (v, sym (ok-injective (rw (e, build_msg) at h)))
  ]

  abbrev Sends : SharedState → UpdateMachineCommand → List MachineResponse → Type 0
  Sends dat (accept_request r) rs = (v : Text) × (rs ≡ acceptance_of dat v)
  Sends dat (reject_request r f) rs =
      (v : Text) × (rs ≡ said dat (codes "/reject") (codes "Rejection") v ∷ [])
  Sends dat (complete_update p) rs = (v : Text) × (rs ≡ completion_of dat v)
  Sends dat (fail_update f) rs = (v : Text) × (rs ≡ completion_of dat v)

  adapt-Sends :
      (m : UpdateMachine) (c : UpdateMachineCommand) (info : Option EventInfo)
      (rs : List MachineResponse)
      → adapt_response encode m c info ≡ ok rs
      → Sends m.shared_state c rs
  unfolding adapt_response build_command_msg type_url
  adapt-Sends m (accept_request r) info rs h =
      let (x, built, last) = >>=-eq-ok (build_msg encode m.shared_state _ _) _ h in
      let (v, e) = build_msg-says m.shared_state _ _ built in
      (v, sym (ok-injective last) ∙ ap (λ y. y ∷ ordered m.shared_state (codes "/accept") ∷ []) e)
  adapt-Sends m (reject_request r f) info rs h =
      let (x, built, last) = >>=-eq-ok (build_msg encode m.shared_state _ _) _ h in
      let (v, e) = build_msg-says m.shared_state _ _ built in
      (v, sym (ok-injective last) ∙ ap (λ y. y ∷ []) e)
  adapt-Sends m (complete_update p) info rs h =
      let (x, built, last) = >>=-eq-ok (build_msg encode m.shared_state _ _) _ h in
      let (v, e) = build_msg-says m.shared_state _ _ built in
      (v, sym (ok-injective last) ∙ ap (λ y. y ∷ ordered m.shared_state (codes "/complete") ∷ []) e)
  adapt-Sends m (fail_update f) info rs h =
      let (x, built, last) = >>=-eq-ok (build_msg encode m.shared_state _ _) _ h in
      let (v, e) = build_msg-says m.shared_state _ _ built in
      (v, sym (ok-injective last) ∙ ap (λ y. y ∷ ordered m.shared_state (codes "/complete") ∷ []) e)

  one-Sends :
      (m : UpdateMachine) (c : UpdateMachineCommand) (info : Option EventInfo)
      (rs : List MachineResponse)
      → process_machine_commands (update encode) m (c ∷ []) info ≡ ok rs
      → Sends m.shared_state c rs
  unfolding process_machine_commands
  one-Sends m c info rs h =
      let (first, adapted, last) = >>=-eq-ok (adapt_response encode m c info) _ h in
      adapt-Sends m c info rs (adapted ∙ ap ok (sym (append-nil first)) ∙ last)

  one-Transcript :
      (dat : SharedState) (a : Stage) (c : UpdateMachineCommand) (b : Stage)
      (out rs : List MachineResponse)
      → Transcript dat a out
      → SpeaksOne a c b
      → Sends dat c rs
      → Transcript dat b (out ++ rs)
  one-Transcript dat requested (accept_request r) running out rs t e (v, eq) = (v, rw t eq)
  one-Transcript dat requested (reject_request r f) refused out rs t e (v, eq) = (v, rw t eq)
  one-Transcript dat running (complete_update p) done out rs (w, t) e (v, eq) = (w, v, rw (t, eq))
  one-Transcript dat running (fail_update f) done out rs (w, t) e (v, eq) = (w, v, rw (t, eq))
  one-Transcript dat a c b out rs t e s = absurd e

  -- The commands of one event carry the transcript on.
  pub Speaks-Transcript :
      (m : UpdateMachine) (a b : Stage) (cs : List UpdateMachineCommand) (info : Option EventInfo)
      (out rs : List MachineResponse)
      → Transcript m.shared_state a out
      → Speaks a cs b
      → process_machine_commands (update encode) m cs info ≡ ok rs
      → Transcript m.shared_state b (out ++ rs)
  unfolding process_machine_commands
  Speaks-Transcript m a b [] info out rs t e h =
      subst (λ q. Transcript m.shared_state b (out ++ q)) (ok-injective h)
        (rw append-nil (subst (λ c. Transcript m.shared_state c out) e t))
  Speaks-Transcript m a b (c ∷ []) info out rs t e h =
      one-Transcript m.shared_state a c b out rs t e (one-Sends m c info rs h)
  Speaks-Transcript m a b (c ∷ d ∷ cs) info out rs t e h = absurd e
