-- ===== src/Permits/Races.antt =====
-- Two races of the threads that use a `ClosableMeteredPermitDealer` (core/src/abstractions.rs): a close
-- against a thread in `try_acquire_owned`.
use sdk_core.Prelude.{ℕ, ◌+◌, ◌<◌, true, false, ◌≡◌, refl, arith}
use sdk_core.Permits.{usize_mod, increment, decrement}
use sdk_core.Permits.Threads.{
  grants, refuses, here, next, System, Step, start, Reach, Reach-IsSafe, tests, counts, uncounts,
  drops, finds_open, finds_closed, drop_completes, drop_leaves, closes, close_completes,
  close_leaves,
}

-- One thread stands in `try_acquire_owned` and nothing else goes on; nobody has closed.
pub record IsAlone (s : System) : Type 0 where
  pub open_still : s.sem.close_requested ≡ false
  pub refused : s.refused ≡ 0
  pub holding : s.holding ≡ 0
  pub dropping : s.dropping ≡ 0
  pub closing_drop : s.closing_drop ≡ 0
  pub closing : s.closing ≡ 0

-- Closed and not complete, with no permit out and no thread on its way.
pub record IsStuck (s : System) : Type 0 where
  pub closed : s.sem.close_requested ≡ true
  pub incomplete : s.sem.complete ≡ false
  pub none_out : s.sem.outstanding_permits ≡ 0
  pub tested : s.tested ≡ 0
  pub counted : s.counted ≡ 0
  pub refused : s.refused ≡ 0
  pub holding : s.holding ≡ 0
  pub dropping : s.dropping ≡ 0
  pub closing_drop : s.closing_drop ≡ 0
  pub closing : s.closing ≡ 0

-- Only another `close` can follow.
Stuck-closes : {s t : System} → IsStuck s → Step s t → t.closing ≡ 1
Stuck-closes k (tests e o) = ground arith
Stuck-closes k (counts e) = ground arith
Stuck-closes k (grants e) = ground arith
Stuck-closes k (refuses e) = ground arith
Stuck-closes k (uncounts e) = ground arith
Stuck-closes k (drops e) = ground arith
Stuck-closes k (finds_open e o) = ground arith
Stuck-closes k (finds_closed e o) = ground arith
Stuck-closes k (drop_completes e o) = ground arith
Stuck-closes k (drop_leaves e o) = ground arith
Stuck-closes k closes = ground arith
Stuck-closes k (close_completes e o) = ground arith
Stuck-closes k (close_leaves e o) = ground arith

abbrev after_lost_close : System → System
after_lost_close s = record s {
  sem = record s.sem {
    close_requested = true;
    outstanding_permits = decrement s.sem.outstanding_permits;
  };
  counted = 0;
  refused = 0;
  closing = 0;
  idle = s.idle + 1;
}

-- A completion can be lost. Where one thread has been counted in `try_acquire_owned` and nothing else
-- goes on, a `close` sees its count and leaves the completion to it; the dealer inside then refuses
-- the thread, which takes its count back without a look at the close. No permit is out any more, and
-- the close is not complete and never will be: no step can follow but another `close`.
pub completion_lost :
    {threads : ℕ} {s : System}
    → threads < usize_mod
    → Reach (start threads) s
    → IsAlone s
    → s.tested ≡ 0
    → s.counted ≡ 1
    → (t : System) × Reach s t × IsStuck t × ((u : System) → Step t u → u.closing ≡ 1)
completion_lost {threads} {s} fits r alone untested counted =
    let safe = Reach-IsSafe fits r in
    let out : s.sem.outstanding_permits ≡ 1 = ground arith in
    let stuck : IsStuck (after_lost_close s) = ground arith in
    (
      after_lost_close s,
      next
          (next
            (next (next here closes)
              (close_leaves (omega (arith, alone.closing)) (λ e. omega (arith, out, e))))
            (refuses counted))
          (uncounts (omega (arith, alone.refused))),
      stuck,
      λ u st. Stuck-closes stuck st,
    )

abbrev after_late_permit : System → System
after_late_permit s = record s {
  sem = record s.sem {
    close_requested = true;
    complete = true;
    outstanding_permits = increment s.sem.outstanding_permits;
  };
  tested = 0;
  counted = 0;
  closing = 0;
  holding = s.holding + 1;
}

-- A permit can be given out after the close is complete. Where one thread is past the test of
-- `close_requested` in `try_acquire_owned` and nothing else goes on, a `close` finds no permit out
-- and completes; the thread goes on, and may get its permit.
pub late_permit :
    {threads : ℕ} {s : System}
    → threads < usize_mod
    → Reach (start threads) s
    → IsAlone s
    → s.tested ≡ 1
    → s.counted ≡ 0
    → (u t : System) × Reach s u
      × (u.sem.complete ≡ true)
      × (u.holding ≡ 0)
      × Reach u t
      × (t.holding ≡ 1)
late_permit {threads} {s} fits r alone tested uncounted =
    let safe = Reach-IsSafe fits r in
    let none_out : s.sem.outstanding_permits ≡ 0 = ground arith in
    (
      record s { sem = record s.sem { close_requested = true; complete = true }; closing = 0 },
      after_late_permit s,
      next (next here closes) (close_completes (omega (arith, alone.closing)) none_out),
      refl,
      alone.holding,
      next (next here (counts tested)) (grants (omega (arith, uncounted))),
      omega (arith, alone.holding),
    )
