-- ===== src/Permits/Serial.antt =====
-- A `ClosableMeteredPermitDealer` (core/src/abstractions.rs) whose operations do not overlap.
use sdk_core.Prelude.{ℕ, suc, ◌+◌, ◌<◌, Bool, true, false, ◌&&◌, ◌==◌, ◌≡◌, refl, arith}
use sdk_core.Permits.{usize_mod, Closable, new_arc, close, try_acquire_tracked, on_permit_dropped}

-- One call on a dealer of which `held` permits are outstanding: what is left of both.
pub data Call (c : Closable) (held : ℕ) : Closable → ℕ → Type 0 where
  closes : Call c held (close c) held
  acquires :
      (granted : Bool) {c' : Closable}
      → held + 1 < usize_mod
      → try_acquire_tracked c granted ≡ (c', true)
      → Call c held c' (held + 1)
  refused :
      (granted : Bool) {c' : Closable}
      → held + 1 < usize_mod
      → try_acquire_tracked c granted ≡ (c', false)
      → Call c held c' held
  drops : {n : ℕ} → held ≡ suc n → Call c held (on_permit_dropped c) n

pub data Calls : Closable → ℕ → Type 0 where
  created : {c : Closable} → c ≡ new_arc → Calls c 0
  next : {c c' : Closable} {held held' : ℕ} → Calls c held → Call c held c' held' → Calls c' held'

pub record IsExact (c : Closable) (held : ℕ) : Type 0 where
  pub outstanding : c.outstanding_permits ≡ held
  pub fits : held < usize_mod
  pub completes : c.complete ≡ (c.close_requested && (held == 0))

Call-IsExact :
    {c c' : Closable} {held held' : ℕ} → Call c held c' held' → IsExact c held → IsExact c' held'
unfolding close try_acquire_tracked on_permit_dropped
Call-IsExact closes h = ground arith
Call-IsExact (acquires granted fits e) h = ground arith
Call-IsExact (refused granted fits e) h = ground arith
Call-IsExact (drops e) h = ground arith

-- After any calls that do not overlap, the close is complete exactly if it was requested and no
-- permit is held: it completes with the last permit that comes back, or at once if none is out. The
-- counter is the number of permits held, and does not wrap.
pub Calls-IsExact : {c : Closable} {held : ℕ} → Calls c held → IsExact c held
unfolding new_arc
Calls-IsExact (created e) =
    rw e (record { outstanding = refl; fits = omega arith; completes = refl })
Calls-IsExact (next cs c) = Call-IsExact c (Calls-IsExact cs)
