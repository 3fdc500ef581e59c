-- ===== src/Machines/LocalActivity/Tells.antt =====
-- What the responses of a local activity's machine (local_activity_state_machine.rs) tell: the jobs
-- for lang and the markers for the server.
use sdk_core.Prelude.{
  ℕ, suc, ◌+◌, Bool, true, false, Option, List, [], ◌∷◌, ◌++◌, ◌==◌, ◌&&◌, if◌then◌else◌, ok,
  >>=-eq-ok, ok-injective, subst, ap, ◌∙◌, ◌≡◌, refl, arith,
}
use sdk_core.Proto.{EventInfo, Job}
use sdk_core.Machines.{MachineResponse, push_wf_job, issue_new_command, process_machine_commands}
use sdk_core.Machines.LocalActivity.{
  MarkerJson, ResolveDat, SharedState, LocalActivityCommand, request_activity_execution, resolved,
  fake_marker, request_cancel, LocalActivityMachine, local_activity, adapt_response,
  resolved_responses,
}

abbrev pub tally : (MachineResponse → Bool) → List MachineResponse → ℕ
tally p [] = 0
tally p (r ∷ rs) = (if p r then 1 else 0) + tally p rs

pub tally-append :
    (p : MachineResponse → Bool) (rs ts : List MachineResponse)
    → tally p (rs ++ ts) ≡ tally p rs + tally p ts
tally-append p [] ts = omega arith
tally-append p (r ∷ rs) ts = omega (arith, tally-append p rs ts)

abbrev pub is_job : MachineResponse → Bool
is_job (push_wf_job _) = true
is_job _ = false

-- A job that resolves the local activity `seq`.
abbrev pub is_answer : ℕ → MachineResponse → Bool
is_answer seq (push_wf_job (Job.resolve_activity r)) = r.is_local && (r.seq == seq)
is_answer seq _ = false

abbrev pub is_marker : MachineResponse → Bool
is_marker (issue_new_command _) = true
is_marker _ = false

-- Lang is sent `n` jobs, each of which resolves the activity, and the server gets `k` markers.
pub record Tells (seq n k : ℕ) (out : List MachineResponse) : Type 0 where
  pub jobs : tally is_job out ≡ n
  pub answers : tally (is_answer seq) out ≡ n
  pub markers : tally is_marker out ≡ k

pub Tells-append :
    {seq m n j k : ℕ} {out rs : List MachineResponse}
    → Tells seq m j out
    → Tells seq n k rs
    → Tells seq (m + n) (j + k) (out ++ rs)
Tells-append {seq} {m} {n} {j} {k} {out} {rs} s t = record {
  jobs = omega (arith, tally-append is_job out rs, s.jobs, t.jobs);
  answers = omega (arith, tally-append (is_answer seq) out rs, s.answers, t.answers);
  markers = omega (arith, tally-append is_marker out rs, s.markers, t.markers);
}

pub Tells-eq :
    {seq m n j k : ℕ} {out : List MachineResponse}
    → m ≡ n
    → j ≡ k
    → Tells seq m j out
    → Tells seq n k out
Tells-eq e f t = record { jobs = t.jobs ∙ e; answers = t.answers ∙ e; markers = t.markers ∙ f }

-- A marker is recorded with each of the `n` results, unless the machine is replaying.
abbrev pub recorded : Bool → ℕ → ℕ
recorded replaying n = if replaying then 0 else n

recorded-add :
    (replaying : Bool) (m n : ℕ)
    → recorded replaying m + recorded replaying n ≡ recorded replaying (m + n)
recorded-add true m n = refl
recorded-add false m n = refl

abbrev pub resolutions : List LocalActivityCommand → ℕ
resolutions [] = 0
resolutions (resolved _ ∷ cs) = suc (resolutions cs)
resolutions (_ ∷ cs) = resolutions cs

resolutions-cons :
    (c : LocalActivityCommand) (cs : List LocalActivityCommand)
    → resolutions (c ∷ []) + resolutions cs ≡ resolutions (c ∷ cs)
resolutions-cons (resolved dat) cs = omega arith
resolutions-cons (request_activity_execution act) cs = omega arith
resolutions-cons fake_marker cs = omega arith
resolutions-cons request_cancel cs = omega arith

module _ (json : MarkerJson) where
  pub resolved-Tells :
      (dat : SharedState) (r : ResolveDat)
      → Tells dat.attrs.seq 1
          (recorded dat.replaying_when_invoked 1)
          (resolved_responses json dat r)
  unfolding resolved_responses
  resolved-Tells dat r = ground arith

  adapt-Tells :
      (m : LocalActivityMachine) (c : LocalActivityCommand) (info : Option EventInfo)
      (rs : List MachineResponse)
      → adapt_response json m c info ≡ ok rs
      → Tells m.shared_state.attrs.seq
          (resolutions (c ∷ []))
          (recorded m.shared_state.replaying_when_invoked (resolutions (c ∷ [])))
          rs
  unfolding adapt_response
  adapt-Tells m (request_activity_execution act) info rs h = ground arith
  adapt-Tells m (resolved dat) info rs h =
      subst (Tells _ 1 _) (ok-injective h) (resolved-Tells m.shared_state dat)
  adapt-Tells m fake_marker info rs h = ground arith
  adapt-Tells m request_cancel info rs h = ground arith

  -- Each `Resolved` among a machine's commands tells lang once, and no other command tells it.
  pub commands-Tells :
      (m : LocalActivityMachine) (cs : List LocalActivityCommand) (info : Option EventInfo)
      (rs : List MachineResponse)
      → process_machine_commands (local_activity json) m cs info ≡ ok rs
      → Tells m.shared_state.attrs.seq
          (resolutions cs)
          (recorded m.shared_state.replaying_when_invoked (resolutions cs))
          rs
  unfolding process_machine_commands
  commands-Tells m [] info rs h = ground arith
  commands-Tells m (c ∷ cs) info rs h =
      let (rs₁, adapted, h₁) = >>=-eq-ok (adapt_response json m c info) _ h in
      let (rs₂, processed, h₂) =
        >>=-eq-ok (process_machine_commands (local_activity json) m cs info) _ h₁ in
      subst (Tells _ _ _) (ok-injective h₂) (
        Tells-eq (resolutions-cons c cs)
          (recorded-add m.shared_state.replaying_when_invoked (resolutions (c ∷ []))
              (resolutions cs)
            ∙ ap (recorded m.shared_state.replaying_when_invoked) (resolutions-cons c cs))
          (Tells-append (adapt-Tells m c info rs₁ adapted)
            (commands-Tells m cs info rs₂ processed)))
