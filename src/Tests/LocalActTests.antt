-- ===== src/Tests/LocalActTests.antt =====
-- local_acts.rs on a workflow with one activity that runs and two that are requested.
use sdk_core.Prelude.{ℕ, false, [], ◌∷◌, some, Text, codes, ◌≡◌, refl}
use sdk_core.Proto.{ValidScheduleLa, ActivityCancellationType}
use sdk_core.LocalActs.{LocalActivityData, take_all_reqs, outstanding_la_count, enqueue}
use sdk_core.LocalActs.Outstanding.{
  IsTracked, is_outstanding, outstanding_after, requests, Happens-IsTracked,
}

abbrev act : ℕ → ValidScheduleLa
act n = record {
  seq = n;
  activity_id = codes "a";
  activity_type = codes "t";
  attempt = 1;
  original_schedule_time = some 0;
  cancellation_type = ActivityCancellationType.try_cancel;
}

abbrev busy : LocalActivityData Text
busy = record {
  new_requests = act 2 ∷ act 3 ∷ [];
  cancel_requests = [];
  executing = 1 ∷ [];
  preresolutions = [];
  am_terminating = false;
}

taken_test : outstanding_la_count (take_all_reqs busy [] [] [] (λ n. n)).0 ≡ 3
unfolding outstanding_la_count take_all_reqs
taken_test = refl

Happens-IsTracked_example :
    IsTracked (enqueue busy (act 4))
    × ((n : ℕ)
        → is_outstanding (enqueue busy (act 4)) n
          ≡ outstanding_after {d = busy} (requests (act 4) refl) n)
Happens-IsTracked_example = Happens-IsTracked {d = busy} (requests (act 4) refl) (refl, (refl, tt))
