-- ===== src/Machines/OneShot/Kinds.antt =====
-- The six machines that put one command on record: those of Machines/Endings, of search attributes
-- and of properties.
use sdk_core.Prelude.{Bool, false, Option, some, List, [], Text, ok, subst, sym, ◌≡◌, refl, arith}
use sdk_core.Fsm.{Machine, from_parts, on_event}
use sdk_core.Flags.{InternalFlags}
use sdk_core.Proto.{Payload, Payloads, Failure, CommandAttributes}
use sdk_core.Machines.{MachineResponse, WfMachine, finish, handle_event, handle_command}
use sdk_core.Machines.Inputs.{Input, history, command, cancels, step, run_inputs}
use sdk_core.Machines.Endings.Complete
use sdk_core.Machines.Endings.Fail
use sdk_core.Machines.Endings.Cancel
use sdk_core.Machines.Endings.ContinueAsNew
use sdk_core.Machines.ModifyProperties
use sdk_core.Machines.UpsertSearchAttributes
use sdk_core.Machines.OneShot.{OneShot, no_cancel, is_history, LeadsIn, events, CountIn, run-once}

pub data Kind : Type 0 where
  complete fail cancel continue_as_new modify_properties upsert_search_attributes : Kind

abbrev pub machine_of : Kind → WfMachine
machine_of complete = Complete.complete_workflow_machine
machine_of fail = Fail.fail_workflow_machine
machine_of cancel = Cancel.cancel_workflow_machine
machine_of continue_as_new = ContinueAsNew.continue_as_new_machine
machine_of modify_properties = ModifyProperties.modify_workflow_properties_machine
machine_of upsert_search_attributes = UpsertSearchAttributes.upsert_search_attributes_machine

complete_leads :
    let w = Complete.complete_workflow_machine in
    (s : w.fsm.State) (i : Input) (rs : List MachineResponse)
    → (step w (no_cancel w) (from_parts w.fsm s tt) i).1 ≡ ok rs
    → (rs ≡ [])
      × LeadsIn w
          (is_history i)
          (w.fsm.is_final s)
          (step w (no_cancel w) (from_parts w.fsm s tt) i).0.state
unfolding step handle_event handle_command finish on_event Complete.transition Complete.is_final
    Complete.event_of_history Complete.event_of_command Complete.adapt_response
complete_leads s (history d) rs h = ground arith
complete_leads s (command c) rs h = ground arith
complete_leads s (cancels t) rs h = cc

fail_leads :
    let w = Fail.fail_workflow_machine in
    (s : w.fsm.State) (i : Input) (rs : List MachineResponse)
    → (step w (no_cancel w) (from_parts w.fsm s tt) i).1 ≡ ok rs
    → (rs ≡ [])
      × LeadsIn w
          (is_history i)
          (w.fsm.is_final s)
          (step w (no_cancel w) (from_parts w.fsm s tt) i).0.state
unfolding step handle_event handle_command finish on_event Fail.transition Fail.is_final
    Fail.event_of_history Fail.event_of_command Fail.adapt_response
fail_leads s (history d) rs h = ground arith
fail_leads s (command c) rs h = ground arith
fail_leads s (cancels t) rs h = cc

cancel_leads :
    let w = Cancel.cancel_workflow_machine in
    (s : w.fsm.State) (i : Input) (rs : List MachineResponse)
    → (step w (no_cancel w) (from_parts w.fsm s tt) i).1 ≡ ok rs
    → (rs ≡ [])
      × LeadsIn w
          (is_history i)
          (w.fsm.is_final s)
          (step w (no_cancel w) (from_parts w.fsm s tt) i).0.state
unfolding step handle_event handle_command finish on_event Cancel.transition Cancel.is_final
    Cancel.event_of_history Cancel.event_of_command Cancel.adapt_response
cancel_leads s (history d) rs h = ground arith
cancel_leads s (command c) rs h = ground arith
cancel_leads s (cancels t) rs h = cc

continue_as_new_leads :
    let w = ContinueAsNew.continue_as_new_machine in
    (s : w.fsm.State) (i : Input) (rs : List MachineResponse)
    → (step w (no_cancel w) (from_parts w.fsm s tt) i).1 ≡ ok rs
    → (rs ≡ [])
      × LeadsIn w
          (is_history i)
          (w.fsm.is_final s)
          (step w (no_cancel w) (from_parts w.fsm s tt) i).0.state
unfolding step handle_event handle_command finish on_event ContinueAsNew.transition
    ContinueAsNew.is_final ContinueAsNew.event_of_history ContinueAsNew.event_of_command
    ContinueAsNew.adapt_response
continue_as_new_leads s (history d) rs h = ground arith
continue_as_new_leads s (command c) rs h = ground arith
continue_as_new_leads s (cancels t) rs h = cc

modify_properties_leads :
    let w = ModifyProperties.modify_workflow_properties_machine in
    (s : w.fsm.State) (i : Input) (rs : List MachineResponse)
    → (step w (no_cancel w) (from_parts w.fsm s tt) i).1 ≡ ok rs
    → (rs ≡ [])
      × LeadsIn w
          (is_history i)
          (w.fsm.is_final s)
          (step w (no_cancel w) (from_parts w.fsm s tt) i).0.state
unfolding step handle_event handle_command finish on_event ModifyProperties.transition
    ModifyProperties.is_final ModifyProperties.event_of_history ModifyProperties.event_of_command
    ModifyProperties.adapt_response
modify_properties_leads s (history d) rs h = ground arith
modify_properties_leads s (command c) rs h = ground arith
modify_properties_leads s (cancels t) rs h = cc

upsert_search_attributes_leads :
    let w = UpsertSearchAttributes.upsert_search_attributes_machine in
    (s : w.fsm.State) (i : Input) (rs : List MachineResponse)
    → (step w (no_cancel w) (from_parts w.fsm s tt) i).1 ≡ ok rs
    → (rs ≡ [])
      × LeadsIn w
          (is_history i)
          (w.fsm.is_final s)
          (step w (no_cancel w) (from_parts w.fsm s tt) i).0.state
unfolding step handle_event handle_command finish on_event UpsertSearchAttributes.transition
    UpsertSearchAttributes.is_final UpsertSearchAttributes.event_of_history
    UpsertSearchAttributes.event_of_command UpsertSearchAttributes.adapt_response
upsert_search_attributes_leads s (history d) rs h = ground arith
upsert_search_attributes_leads s (command c) rs h = ground arith
upsert_search_attributes_leads s (cancels t) rs h = cc

leads_of :
    (k : Kind) (s : (machine_of k).fsm.State) (dat : (machine_of k).fsm.SharedState) (i : Input)
    (rs : List MachineResponse)
    → let w = machine_of k in
      (step w (no_cancel w) (from_parts w.fsm s dat) i).1 ≡ ok rs
      → (rs ≡ [])
        × LeadsIn w
            (is_history i)
            (w.fsm.is_final s)
            (step w (no_cancel w) (from_parts w.fsm s dat) i).0.state
leads_of complete s dat i rs h = complete_leads s i rs h
leads_of fail s dat i rs h = fail_leads s i rs h
leads_of cancel s dat i rs h = cancel_leads s i rs h
leads_of continue_as_new s dat i rs h = continue_as_new_leads s i rs h
leads_of modify_properties s dat i rs h = modify_properties_leads s i rs h
leads_of upsert_search_attributes s dat i rs h = upsert_search_attributes_leads s i rs h

abbrev one_shot : Kind → OneShot
one_shot k = record { machine = machine_of k; leads = leads_of k }

-- The machines that the source creates of each kind, with what lang or the core asks for.
abbrev pub Created : (k : Kind) → Machine (machine_of k).fsm → Type 0
Created complete m =
    (attribs : Option Payloads) × (c : CommandAttributes) × (Complete.complete_workflow attribs
      ≡ some (c, m))
Created fail m =
    (attribs : Option Failure) × (c : CommandAttributes) × (Fail.fail_workflow attribs
      ≡ some (c, m))
Created cancel m = (c : CommandAttributes) × (Cancel.cancel_workflow ≡ some (c, m))
Created continue_as_new m =
    (type : Text) × (compatible : Bool) × (c : CommandAttributes) × (ContinueAsNew.continue_as_new
        type compatible
      ≡ some (c, m))
Created modify_properties m =
    (memo : Option (List (Text × Payload))) × ((ModifyProperties.modify_workflow_properties memo).1
      ≡ m)
Created upsert_search_attributes m =
    (attribs : List (Text × Payload)) × (flags : InternalFlags) × (replaying : Bool)
    × ((UpsertSearchAttributes.upsert_search_attrs attribs flags replaying).2 ≡ m)

abbrev Starts : (k : Kind) → Machine (machine_of k).fsm → Type 0
Starts k m =
    (s : (machine_of k).fsm.State) × (dat : (machine_of k).fsm.SharedState) × ((machine_of
          k).fsm.is_final
        s
      ≡ false)
    × (m ≡ from_parts (machine_of k).fsm s dat)

Created-Starts : (k : Kind) (m : Machine (machine_of k).fsm) → Created k m → Starts k m
unfolding on_event Complete.complete_workflow Complete.transition Complete.is_final
    Fail.fail_workflow Fail.transition Fail.is_final Cancel.cancel_workflow Cancel.transition
    Cancel.is_final ContinueAsNew.continue_as_new ContinueAsNew.transition ContinueAsNew.is_final
    ModifyProperties.modify_workflow_properties ModifyProperties.is_final
    UpsertSearchAttributes.upsert_search_attrs UpsertSearchAttributes.is_final
Created-Starts complete m (a, c, e) = (Complete.complete_workflow_command_created, tt, refl, cc)
Created-Starts fail m (a, c, e) = (Fail.fail_workflow_command_created, tt, refl, cc)
Created-Starts cancel m (c, e) = (Cancel.cancel_workflow_command_created, tt, refl, cc)
Created-Starts continue_as_new m (t, b, c, e) =
    (ContinueAsNew.continue_as_new_workflow_command_created, tt, refl, cc)
Created-Starts modify_properties m (a, e) = (ModifyProperties.created, tt, refl, sym e)
Created-Starts upsert_search_attributes m (a, f, r, e) =
    (UpsertSearchAttributes.created, tt, refl, sym e)

-- A new machine that completes, fails, cancels or continues a workflow, or that changes its memo or
-- its search attributes, responds with nothing, whatever inputs it takes, as long as each is
-- accepted; and it takes at most one history event: one if it ends in its final state, and none
-- otherwise.
pub recorded_once :
    (k : Kind) (m n : Machine (machine_of k).fsm) (is : List Input) (rs : List MachineResponse)
    → Created k m
    → run_inputs (machine_of k) (no_cancel (machine_of k)) m is ≡ ok (n, rs)
    → (rs ≡ []) × CountIn (machine_of k) (events is) n.state
recorded_once k m n is rs c h =
    let (s, dat, fresh, start) = Created-Starts k m c in
    run-once (one_shot k) s dat is n rs fresh (
      subst (λ m'. run_inputs (machine_of k) (no_cancel (machine_of k)) m' is ≡ ok (n, rs)) start h)
