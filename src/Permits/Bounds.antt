-- ===== src/Permits/Bounds.antt =====
-- How many permits a `MeteredPermitDealer` (core/src/abstractions.rs) gives out, where several tasks
-- acquire at once: each tests the count, waits for the supplier, and only then adds its permit.
use sdk_core.Prelude.{
  zero, suc, ◌%◌, subst, lt→ltb, ℕ, suc, ◌+◌, ◌≤◌, ◌<◌, Bool, true, false, some, ◌≡◌, refl, arith,
}
use sdk_core.Permits.{
  Dealer, usize_mod, new, below_max, build_owned, try_acquire_owned, into_used, drop_owned,
}

-- A dealer, the tasks that wait for the supplier, and the permits held.
pub record System : Type 0 where
  pub dealer : Dealer
  pub waiting : ℕ
  pub unused : ℕ
  pub used : ℕ

-- At most `tasks` tasks acquire at once.
pub data Step (tasks : ℕ) (s : System) : System → Type 0 where
  tests :
      s.waiting < tasks
      → below_max s.dealer ≡ true
      → Step tasks s (record s { waiting = s.waiting + 1 })
  gives :
      {n : ℕ}
      → s.waiting ≡ suc n
      → Step tasks s
          (record s { dealer = build_owned s.dealer; waiting = n; unused = s.unused + 1 })
  refused : {n : ℕ} → s.waiting ≡ suc n → Step tasks s (record s { waiting = n })
  tries :
      (supplied : Bool) {d : Dealer}
      → s.waiting < tasks
      → try_acquire_owned s.dealer supplied ≡ (d, true)
      → Step tasks s (record s { dealer = d; unused = s.unused + 1 })
  uses :
      {n : ℕ}
      → s.unused ≡ suc n
      → Step tasks s (record s { dealer = into_used s.dealer true; unused = n; used = s.used + 1 })
  drops_unused :
      {n : ℕ}
      → s.unused ≡ suc n
      → Step tasks s (record s { dealer = drop_owned s.dealer true; unused = n })
  drops_used :
      {n : ℕ}
      → s.used ≡ suc n
      → Step tasks s (record s { dealer = drop_owned s.dealer false; used = n })

abbrev pub start : (max : ℕ) → System
start max = record { dealer = new (some max); waiting = 0; unused = 0; used = 0 }

pub data Reach (tasks max : ℕ) : System → Type 0 where
  here : Reach tasks max (start max)
  next : {s t : System} → Reach tasks max s → Step tasks s t → Reach tasks max t

pub record IsCounted (tasks max : ℕ) (s : System) : Type 0 where
  pub same_max : s.dealer.max_permits ≡ some max
  pub extant : s.dealer.extant_permits ≡ s.unused + s.used
  pub claimed : s.dealer.unused_claimants ≡ s.unused
  pub bounded : s.dealer.extant_permits + s.waiting + 1 ≤ max + tasks

Step-IsCounted :
    {tasks max : ℕ} {s t : System}
    → max + tasks < usize_mod
    → Step tasks s t
    → IsCounted tasks max s
    → IsCounted tasks max t
unfolding below_max build_owned try_acquire_owned into_used drop_owned
Step-IsCounted fits (tests room below) c = ground arith
Step-IsCounted fits (gives e) c = ground arith
Step-IsCounted fits (refused e) c = ground arith
Step-IsCounted fits (tries supplied room got) c = ground arith
Step-IsCounted fits (uses e) c = ground arith
Step-IsCounted fits (drops_unused e) c = ground arith
Step-IsCounted fits (drops_used e) c = ground arith

-- Where at most `tasks` tasks acquire at once, at least one, the dealer's two counters are the number
-- of permits held and of those not yet used, whatever order the tasks run in; and with those that
-- still wait for the supplier, there are fewer permits than the maximum and the tasks together. So
-- one task at a time never gets beyond the maximum. The maximum and the tasks fit into a `usize`.
pub Reach-IsCounted :
    {tasks max : ℕ} {s : System}
    → 0 < tasks
    → max + tasks < usize_mod
    → Reach tasks max s
    → IsCounted tasks max s
unfolding new
Reach-IsCounted some_task fits here = record {
  same_max = refl;
  extant = refl;
  claimed = refl;
  bounded = omega arith;
}
Reach-IsCounted some_task fits (next r st) =
    Step-IsCounted fits st (Reach-IsCounted some_task fits r)

-- A dealer that has given out `n` permits, none of them used, with `w` tasks that wait.
abbrev pub given : (max n w : ℕ) → System
given max n w = record {
  dealer = record { unused_claimants = n; extant_permits = n; max_permits = some max };
  waiting = w;
  unused = n;
  used = 0;
}

pub gives_one :
    {max n w : ℕ}
    → n + 1 < usize_mod
    → Reach 2 max (given max n (suc w))
    → Reach 2 max (given max (n + 1) w)
unfolding build_owned
gives_one {max} {n} {w} fits r =
    let e : (n + 1) % usize_mod ≡ n + 1 = omega arith in
    subst
      (λ k. Reach 2 max (record (given max (n + 1) w) {
        dealer = record { unused_claimants = k; extant_permits = k; max_permits = some max };
      }))
      e (next r (gives refl))

pub tests_one :
    {max n w : ℕ}
    → n < max
    → w < 2
    → Reach 2 max (given max n w)
    → Reach 2 max (given max n (w + 1))
unfolding below_max
tests_one {max} {n} {w} below room r = next r (tests room (lt→ltb n max below))

fill : (max n : ℕ) → n ≤ max → max < usize_mod → Reach 2 max (given max n 0)
unfolding new
fill max zero h fits = here
fill max (suc n) h fits =
    let e : n + 1 ≡ suc n = omega arith in
    subst (λ k. Reach 2 max (given max k 0)) e
      (gives_one (omega arith)
        (tests_one (omega arith) (omega arith) (fill max n (omega arith) fits)))

-- Two tasks that acquire at once can get one permit more than the maximum: both see the last free
-- permit before either has added its own.
pub overshoots :
    (max : ℕ)
    → 0 < max
    → max + 1 < usize_mod
    → (s : System) × Reach 2 max s × (s.dealer.extant_permits ≡ max + 1)
overshoots zero some_max fits = elim some_max [ ]
overshoots (suc max) some_max fits = (
  given (suc max) (max + 1 + 1) 0,
  gives_one (omega arith) (
      gives_one (omega arith) (
        tests_one (omega arith) (omega arith) (
          tests_one (omega arith) (omega arith) (fill (suc max) max (omega arith) (omega arith))))),
  omega arith,
)
