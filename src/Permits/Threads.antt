-- ===== src/Permits/Threads.antt =====
-- A `ClosableMeteredPermitDealer` (core/src/abstractions.rs) that several threads use, an atomic
-- access at a time. A thread has no local data, so a state holds how many threads stand where.
use sdk_core.Prelude.{ℕ, suc, ◌+◌, ◌<◌, true, false, ◌≡◌, ◌≢◌, refl, arith}
use sdk_core.Permits.{usize_mod, increment, decrement, Closable, new_arc}

pub record System : Type 0 where
  pub sem : Closable
  -- Not acquiring, and holding no permit.
  pub idle : ℕ
  -- In `try_acquire_owned`: past the test of `close_requested`; past the `fetch_add`; refused by the
  -- dealer inside.
  pub tested : ℕ
  pub counted : ℕ
  pub refused : ℕ
  -- Holding a permit.
  pub holding : ℕ
  -- In `on_permit_dropped`: past the `fetch_sub`; past the test of `close_requested`.
  pub dropping : ℕ
  pub closing_drop : ℕ
  -- In `close`: past the store.
  pub closing : ℕ

pub data Step (s : System) : System → Type 0 where
  tests :
      {n : ℕ}
      → s.idle ≡ suc n
      → s.sem.close_requested ≡ false
      → Step s (record s { idle = n; tested = s.tested + 1 })
  counts :
      {n : ℕ}
      → s.tested ≡ suc n
      → Step s (record s {
        sem = record s.sem { outstanding_permits = increment s.sem.outstanding_permits };
        tested = n;
        counted = s.counted + 1;
      })
  grants : {n : ℕ} → s.counted ≡ suc n → Step s (record s { counted = n; holding = s.holding + 1 })
  refuses : {n : ℕ} → s.counted ≡ suc n → Step s (record s { counted = n; refused = s.refused + 1 })
  uncounts :
      {n : ℕ}
      → s.refused ≡ suc n
      → Step s (record s {
        sem = record s.sem { outstanding_permits = decrement s.sem.outstanding_permits };
        refused = n;
        idle = s.idle + 1;
      })
  drops :
      {n : ℕ}
      → s.holding ≡ suc n
      → Step s (record s {
        sem = record s.sem { outstanding_permits = decrement s.sem.outstanding_permits };
        holding = n;
        dropping = s.dropping + 1;
      })
  finds_open :
      {n : ℕ}
      → s.dropping ≡ suc n
      → s.sem.close_requested ≡ false
      → Step s (record s { dropping = n; idle = s.idle + 1 })
  finds_closed :
      {n : ℕ}
      → s.dropping ≡ suc n
      → s.sem.close_requested ≡ true
      → Step s (record s { dropping = n; closing_drop = s.closing_drop + 1 })
  drop_completes :
      {n : ℕ}
      → s.closing_drop ≡ suc n
      → s.sem.outstanding_permits ≡ 0
      → Step s
          (record s { sem = record s.sem { complete = true }; closing_drop = n; idle = s.idle + 1 })
  drop_leaves :
      {n : ℕ}
      → s.closing_drop ≡ suc n
      → s.sem.outstanding_permits ≢ 0
      → Step s (record s { closing_drop = n; idle = s.idle + 1 })
  closes :
      Step s (record s { sem = record s.sem { close_requested = true }; closing = s.closing + 1 })
  close_completes :
      {n : ℕ}
      → s.closing ≡ suc n
      → s.sem.outstanding_permits ≡ 0
      → Step s (record s { sem = record s.sem { complete = true }; closing = n })
  close_leaves :
      {n : ℕ}
      → s.closing ≡ suc n
      → s.sem.outstanding_permits ≢ 0
      → Step s (record s { closing = n })

abbrev pub start : (threads : ℕ) → System
start threads = record {
  sem = new_arc;
  idle = threads;
  tested = 0;
  counted = 0;
  refused = 0;
  holding = 0;
  dropping = 0;
  closing_drop = 0;
  closing = 0;
}

pub data Reach (s : System) : System → Type 0 where
  here : Reach s s
  next : {t u : System} → Reach s t → Step t u → Reach s u

pub record IsSafe (threads : ℕ) (s : System) : Type 0 where
  pub outstanding : s.sem.outstanding_permits ≡ s.counted + s.refused + s.holding
  pub all_threads :
      s.idle + s.tested + s.counted + s.refused + s.holding + s.dropping + s.closing_drop ≡ threads
  pub closed_first : s.sem.close_requested ≡ false → s.sem.complete ≡ false
  pub closers : s.sem.close_requested ≡ false → s.closing + s.closing_drop ≡ 0

Step-IsSafe :
    {threads : ℕ} {s t : System}
    → threads < usize_mod
    → Step s t
    → IsSafe threads s
    → IsSafe threads t
Step-IsSafe fits (tests e open_) c = ground arith
Step-IsSafe fits (counts e) c = ground arith
Step-IsSafe fits (grants e) c = ground arith
Step-IsSafe fits (refuses e) c = ground arith
Step-IsSafe fits (uncounts e) c = ground arith
Step-IsSafe fits (drops e) c = ground arith
Step-IsSafe fits (finds_open e o) c = ground arith
Step-IsSafe fits (finds_closed e o) c = ground arith
Step-IsSafe fits (drop_completes e o) c = ground arith
Step-IsSafe fits (drop_leaves e o) c = ground arith
Step-IsSafe fits closes c = ground arith
Step-IsSafe fits (close_completes e o) c = ground arith
Step-IsSafe fits (close_leaves e o) c = ground arith

-- However the threads interleave, the counter of outstanding permits is the number of threads that
-- hold a permit or are being answered by the dealer inside, so it never wraps; and the close does not
-- complete before it is requested. The threads are fewer than a `usize` counts.
pub Reach-IsSafe :
    {threads : ℕ} {s : System} → threads < usize_mod → Reach (start threads) s → IsSafe threads s
unfolding new_arc
Reach-IsSafe {threads} fits here = record {
  outstanding = refl;
  all_threads = omega arith;
  closed_first = λ _. refl;
  closers = λ _. refl;
}
Reach-IsSafe fits (next r st) = Step-IsSafe fits st (Reach-IsSafe fits r)
