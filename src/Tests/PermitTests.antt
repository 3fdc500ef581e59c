-- ===== src/Tests/PermitTests.antt =====
-- abstractions.rs on concrete dealers.
use sdk_core.Prelude.{◌+◌, true, false, ◌≡◌, refl, arith}
use sdk_core.Permits.{new, new_arc, close, try_acquire_tracked, on_permit_dropped}
use sdk_core.Permits.Bounds
use sdk_core.Permits.Bounds.{IsCounted, Reach-IsCounted, overshoots, given, gives_one, tests_one}
use sdk_core.Permits.Serial.{Calls, created, next, closes, acquires, drops, IsExact, Calls-IsExact}
use sdk_core.Permits.Threads
use sdk_core.Permits.Threads.{IsSafe, Reach-IsSafe}
use sdk_core.Permits.Races.{IsAlone, IsStuck, completion_lost, late_permit}

Reach-IsCounted_example : IsCounted 2 1 (given 1 (0 + 1) 0)
unfolding new
Reach-IsCounted_example =
    Reach-IsCounted (omega arith) (omega arith)
      (gives_one (omega arith) (tests_one (omega arith) (omega arith) Bounds.here))

overshoots_example : (s : Bounds.System) × Bounds.Reach 2 3 s × (s.dealer.extant_permits ≡ 3 + 1)
overshoots_example = overshoots 3 (omega arith) (omega arith)

-- Two permits, a close, and both come back.
closed-Calls :
    Calls
      (on_permit_dropped (
        on_permit_dropped
          (close (record { outstanding_permits = 2; close_requested = false; complete = false }))))
      0
unfolding new_arc try_acquire_tracked
closed-Calls =
    next
      (next
        (next
          (next (next (created refl) (acquires true (omega arith) refl))
            (acquires true (omega arith) refl))
          closes)
        (drops refl))
      (drops refl)

Calls-IsExact_example :
    IsExact
      (on_permit_dropped (
        on_permit_dropped
          (close (record { outstanding_permits = 2; close_requested = false; complete = false }))))
      0
Calls-IsExact_example = Calls-IsExact closed-Calls

-- Two threads, one of which has tested, and then been counted.
abbrev tested : Threads.System
tested = record (Threads.start 2) { idle = 1; tested = 1 }

abbrev counted : Threads.System
counted = record tested {
  sem = record { outstanding_permits = 1; close_requested = false; complete = false };
  tested = 0;
  counted = 1;
}

Reach-tested : Threads.Reach (Threads.start 2) tested
unfolding new_arc
Reach-tested = Threads.next Threads.here (Threads.tests refl refl)

Reach-counted : Threads.Reach (Threads.start 2) counted
unfolding new_arc
Reach-counted = Threads.next Reach-tested (Threads.counts refl)

Reach-IsSafe_example : IsSafe 2 counted
Reach-IsSafe_example = Reach-IsSafe (omega arith) Reach-counted

counted-IsAlone : IsAlone counted
counted-IsAlone = record {
  open_still = refl;
  refused = refl;
  holding = refl;
  dropping = refl;
  closing_drop = refl;
  closing = refl;
}

tested-IsAlone : IsAlone tested
unfolding new_arc
tested-IsAlone = record {
  open_still = refl;
  refused = refl;
  holding = refl;
  dropping = refl;
  closing_drop = refl;
  closing = refl;
}

completion_lost_example :
    (t : Threads.System) × Threads.Reach counted t
    × IsStuck t
    × ((u : Threads.System) → Threads.Step t u → u.closing ≡ 1)
completion_lost_example = completion_lost (omega arith) Reach-counted counted-IsAlone refl refl

late_permit_example :
    (u t : Threads.System) × Threads.Reach tested u
    × (u.sem.complete ≡ true)
    × (u.holding ≡ 0)
    × Threads.Reach u t
    × (t.holding ≡ 1)
late_permit_example = late_permit (omega arith) Reach-tested tested-IsAlone refl refl
