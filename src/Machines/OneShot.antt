-- ===== src/Machines/OneShot.antt =====
-- Machines that put one command on record and tell lang nothing: those that end a workflow and those
-- of search attributes and properties (core/src/worker/workflow/machines/). What they have in common
-- is an interface, and what a run of any of them does is proved from it.
pub mod Kinds
use mathlib.Core.List.{append-nil}
use sdk_core.Prelude.{
  ℕ, suc, ◌+◌, Bool, true, false, Option, none, some, List, [], ◌∷◌, ◌++◌, Text, Outcome, ok, err,
  ◌>>=◌, >>=-eq-ok, ok-injective, subst, ap, sym, ◌≡◌, refl, ◌∙◌, arith,
}
use sdk_core.Fsm.{Machine, MachineError, invalid_transition, has_reached_final_state, from_parts}
use sdk_core.Machines.{WfMachinesError, MachineResponse, WfMachine}
use sdk_core.Machines.Inputs.{Input, history, command, cancels, step, run_inputs}

-- Lang cannot cancel such a machine: no command of its names one.
abbrev pub no_cancel :
    (w : WfMachine)
    → Text
    → Machine w.fsm
    → Machine w.fsm × Outcome (MachineError WfMachinesError) (List MachineResponse)
no_cancel w reason m = (m, err invalid_transition)

abbrev pub is_history : Input → Bool
is_history (history d) = true
is_history _ = false

-- Where an accepted input leads: a history event puts the command on record, a command does not, and
-- neither is accepted once it is.
abbrev pub Leads : Bool → (recorded recorded' : Bool) → Type 0
Leads true recorded recorded' = (recorded ≡ false) × (recorded' ≡ true)
Leads false recorded recorded' = (recorded ≡ false) × (recorded' ≡ false)

abbrev pub LeadsIn : (w : WfMachine) → Bool → Bool → Option w.fsm.State → Type 0
LeadsIn w h recorded none = ⊥
LeadsIn w h recorded (some s) = Leads h recorded (w.fsm.is_final s)

-- The machine, and that each accepted input leads on without a response.
pub record OneShot : Type 1 where
  pub machine : WfMachine
  pub leads :
      (s : machine.fsm.State) (dat : machine.fsm.SharedState) (i : Input)
      (rs : List MachineResponse)
      → (step machine (no_cancel machine) (from_parts machine.fsm s dat) i).1 ≡ ok rs
      → (rs ≡ [])
        × LeadsIn machine
            (is_history i)
            (machine.fsm.is_final s)
            (step machine (no_cancel machine) (from_parts machine.fsm s dat) i).0.state

abbrev pub events : List Input → ℕ
events [] = 0
events (history d ∷ is) = suc (events is)
events (_ ∷ is) = events is

abbrev pub as_count : Bool → ℕ
as_count true = 1
as_count false = 0

abbrev pub CountIn : (w : WfMachine) → ℕ → Option w.fsm.State → Type 0
CountIn w n none = ⊥
CountIn w n (some s) = n ≡ as_count (w.fsm.is_final s)

module _ (k : OneShot) where
  open k use {machine, leads}

  Leads-count :
      (i : Input) (is : List Input) (r r' : Bool)
      → Leads (is_history i) r r'
      → as_count r' + events is ≡ as_count r + events (i ∷ is)
  Leads-count (history d) is r r' (p, q) = rw (p, q) (omega arith)
  Leads-count (command c) is r r' (p, q) = rw (p, q) refl
  Leads-count (cancels t) is r r' (p, q) = rw (p, q) refl

  next-count :
      (i : Input) (is : List Input) (r : Bool) (o : Option machine.fsm.State)
      → LeadsIn machine (is_history i) r o
      → (n : ℕ) × CountIn machine n o × (n + events is ≡ as_count r + events (i ∷ is))
  next-count i is r none l = absurd l
  next-count i is r (some s) l =
      (as_count (machine.fsm.is_final s), refl, Leads-count i is r (machine.fsm.is_final s) l)

  -- A run from a state with the command on record or not.
  run-counts :
      (is : List Input) (o : Option machine.fsm.State) (dat : machine.fsm.SharedState) (n : ℕ)
      (m : Machine machine.fsm) (rs : List MachineResponse)
      → CountIn machine n o
      → run_inputs machine (no_cancel machine) (record { state = o; shared_state = dat }) is
        ≡ ok (m, rs)
      → (rs ≡ []) × CountIn machine (n + events is) m.state
  unfolding run_inputs
  run-counts is none dat n m rs c h = absurd c
  run-counts [] (some s) dat n m rs c h =
      subst (λ p. (p.1 ≡ []) × CountIn machine (n + 0) p.0.state) (ok-injective h)
        (refl, rw c (omega arith))
  run-counts (i ∷ is) (some s) dat n m rs c h =
      let stepped = step machine (no_cancel machine) (from_parts machine.fsm s dat) i in
      let (rs₁, accepted, h₁) = >>=-eq-ok stepped.1 _ h in
      let (rest, ran, last) =
        >>=-eq-ok (run_inputs machine (no_cancel machine) stepped.0 is) _ h₁ in
      let (silent, led) = leads s dat i rs₁ accepted in
      let (n', c', sums) = next-count i is (machine.fsm.is_final s) stepped.0.state led in
      let (silent', counts) =
        run-counts is stepped.0.state stepped.0.shared_state n' rest.0 rest.1 c' ran in
      subst (λ p. (p.1 ≡ []) × CountIn machine (n + events (i ∷ is)) p.0.state) (ok-injective last)
        (
          ap (λ r. r ++ rest.1) silent ∙ silent',
          subst (λ k'. CountIn machine k' rest.0.state)
              (sums ∙ ap (λ k'. k' + events (i ∷ is)) (sym c)) counts,
        )

  -- Whatever inputs such a machine takes from a state in which its command is not on record, as long
  -- as each is accepted, it responds with nothing, and it takes at most one history event: one if it
  -- ends in its final state, and none otherwise.
  pub run-once :
      (s : machine.fsm.State) (dat : machine.fsm.SharedState) (is : List Input)
      (m : Machine machine.fsm) (rs : List MachineResponse)
      → machine.fsm.is_final s ≡ false
      → run_inputs machine (no_cancel machine) (from_parts machine.fsm s dat) is ≡ ok (m, rs)
      → (rs ≡ []) × CountIn machine (events is) m.state
  run-once s dat is m rs new h =
      let (silent, counts) = run-counts is (some s) dat 0 m rs (rw new refl) h in
      (
        silent,
        subst (λ n. CountIn machine n m.state)
            (let e : 0 + events is ≡ events is = omega arith in e) counts,
      )
