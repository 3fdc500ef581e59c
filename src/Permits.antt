-- ===== src/Permits.antt =====
-- core/src/abstractions.rs: the dealers of permits to work on tasks. A slot supplier is only seen
-- through its answer to a request; the contents of a permit and the metrics are left out.
pub mod Bounds
pub mod Serial
pub mod Threads
pub mod Races
use sdk_core.Prelude.{
  ℕ, ◌+◌, ◌-◌, ◌%◌, ◌^◌, Bool, true, false, ◌&&◌, ◌==◌, ltb, Option, none, some, if◌then◌else◌,
}

-- A counter is a `usize`: of 64 bits, and wrapping.
abbrev pub usize_mod : ℕ
usize_mod = 2 ^ 64

abbrev pub increment : ℕ → ℕ
increment n = (n + 1) % usize_mod

abbrev pub decrement : ℕ → ℕ
decrement n = (n + usize_mod - 1) % usize_mod

-- `MeteredPermitDealer`.
pub record Dealer : Type 0 where
  pub unused_claimants : ℕ
  pub extant_permits : ℕ
  pub max_permits : Option ℕ

unfoldable pub new : (max_permits : Option ℕ) → Dealer
new max_permits = record { unused_claimants = 0; extant_permits = 0; max_permits = max_permits }

-- The test that both ways to acquire begin with: `acquire_owned` waits for it.
unfoldable pub below_max : Dealer → Bool
below_max d = elim d.max_permits [ none ↦ true | some max ↦ ltb d.extant_permits max ]

unfoldable pub build_owned : Dealer → Dealer
build_owned d = record d {
  unused_claimants = increment d.unused_claimants;
  extant_permits = increment d.extant_permits;
}

-- `try_acquire_owned`, where `supplied` tells whether the supplier has a slot.
unfoldable pub try_acquire_owned : Dealer → (supplied : Bool) → Dealer × Bool
unfolding below_max build_owned
try_acquire_owned d supplied = if below_max d && supplied then (build_owned d, true) else (d, false)

-- `OwnedMeteredSemPermit::into_used`. A permit is known by whether it is unused.
unfoldable pub into_used : Dealer → (unused : Bool) → Dealer
into_used d unused =
    if unused then record d { unused_claimants = decrement d.unused_claimants } else d

-- `Drop for OwnedMeteredSemPermit`, with its `release_fn`.
unfoldable pub drop_owned : Dealer → (unused : Bool) → Dealer
unfolding into_used
drop_owned d unused =
    let d' = into_used d unused in record d' { extant_permits = decrement d'.extant_permits }

-- `ClosableMeteredPermitDealer`. `complete` is whether `close_complete_token` is cancelled.
pub record Closable : Type 0 where
  pub outstanding_permits : ℕ
  pub close_requested : Bool
  pub complete : Bool

unfoldable pub new_arc : Closable
new_arc = record { outstanding_permits = 0; close_requested = false; complete = false }

-- `close`.
unfoldable pub close : Closable → Closable
close c = record c {
  close_requested = true;
  complete = if c.outstanding_permits == 0 then true else c.complete;
}

-- `ClosableMeteredPermitDealer::try_acquire_owned`, where `granted` tells whether the dealer inside
-- gives a permit.
unfoldable pub try_acquire_tracked : Closable → (granted : Bool) → Closable × Bool
try_acquire_tracked c granted =
    if c.close_requested
    then (c, false)
    else (let counted = increment c.outstanding_permits in
        if granted
        then (record c { outstanding_permits = counted }, true)
        else (record c { outstanding_permits = decrement counted }, false))

-- `on_permit_dropped`.
unfoldable pub on_permit_dropped : Closable → Closable
on_permit_dropped c =
    let left = decrement c.outstanding_permits in
    record c {
      outstanding_permits = left;
      complete = if c.close_requested && (left == 0) then true else c.complete;
    }
