-- ===== src/Retry.antt =====
-- core/src/retry_logic.rs: whether, and after what delay, a local activity is tried again. A
-- `Duration` is its count of nanoseconds.
pub mod Decision
use mathlib.Core.Option
use sdk_core.Prelude.{
  ℕ, ◌+◌, ◌-◌, ◌*◌, ◌%◌, ◌^◌, Bool, true, false, not, ◌&&◌, ◌==◌, ltb, leb, Option, none, some,
  List, [], ◌∷◌, if◌then◌else◌, Text, text_eq,
}

-- What the code uses of `f64`, of the conversion of a protobuf duration, which fails on a negative
-- one, and of `str::to_lowercase`. The exponent of `powi` is the bit pattern of an `i32`.
pub record Numbers : Type 1 where
  pub Float : Type 0
  pub is_zero : Float → Bool
  pub two : Float
  pub times : Float → Float → Float
  pub powi : Float → ℕ → Float
  pub as_secs : ℕ → Float
  pub nanos_per_sec : Float
  pub is_nanos : Float → Bool
  pub from_secs : Float → ℕ
  pub ProtoDuration : Type 0
  pub to_std : ProtoDuration → Option ℕ
  pub to_lowercase : Text → Text

abbrev pub one_second : ℕ
one_second = 1000000000

-- `Duration::MAX`, which `saturating_mul` stops at.
abbrev pub max_duration : ℕ
max_duration = 2 ^ 64 * 1000000000 - 1

abbrev pub smaller : ℕ → ℕ → ℕ
smaller a b = if ltb b a then b else a

unfoldable pub saturating_mul : ℕ → ℕ → ℕ
saturating_mul d n = smaller (d * n) max_duration

-- `self.maximum_attempts.max(0)`, of the bit pattern of an `i32`.
unfoldable pub real_max : ℕ → ℕ
real_max n = if ltb n (2 ^ 31) then n else 0

module _ (num : Numbers) where
  open num use {Float, ProtoDuration, to_std, to_lowercase}

  pub record RetryPolicy : Type 0 where
    pub initial_interval : Option ProtoDuration
    pub backoff_coefficient : Float
    pub maximum_interval : Option ProtoDuration
    pub maximum_attempts : ℕ
    pub non_retryable_error_types : List Text

  pub record ApplicationFailureInfo : Type 0 where
    pub type_name : Text
    pub non_retryable : Bool
    pub next_retry_delay : Option ProtoDuration

  -- The tests `is_finite` and of the range are one parameter, `is_nanos`.
  unfoldable pub try_from_secs_f64 : Float → Option ℕ
  try_from_secs_f64 secs =
      if num.is_nanos (num.times secs num.nanos_per_sec) then some (num.from_secs secs) else none

  -- `try_into_or_none`.
  unfoldable pub try_into_or_none : Option ProtoDuration → Option ℕ
  try_into_or_none none = none
  try_into_or_none (some d) = to_std d

  -- The loop over the patterns: whether one is the error's type.
  unfoldable pub matches_any : Text → List Text → Bool
  matches_any type_name [] = false
  matches_any type_name (pat ∷ pats) =
      if text_eq (to_lowercase type_name) (to_lowercase pat)
      then true
      else matches_any type_name pats

  -- The part after the first attempt.
  backoff : RetryPolicy → (attempt_number interval : ℕ) → ℕ
  unfolding try_from_secs_f64 try_into_or_none saturating_mul
  backoff p attempt_number interval =
      let coeff = if num.is_zero p.backoff_coefficient then num.two else p.backoff_coefficient in
      let max_iv =
        Option.get_or (try_into_or_none p.maximum_interval) (saturating_mul interval 100) in
      let mul_factor = num.powi coeff ((attempt_number + 2 ^ 32 - 1) % 2 ^ 32) in
      smaller
        (Option.get_or (try_from_secs_f64 (num.times mul_factor (num.as_secs interval))) max_iv)
        max_iv

  by_interval : RetryPolicy → (attempt_number : ℕ) → Option ℕ → Option ℕ
  unfolding backoff
  by_interval p attempt_number none = none
  by_interval p attempt_number (some interval) = some (backoff p attempt_number interval)

  -- `converted_interval`.
  unfoldable pub converted_interval : RetryPolicy → Option ℕ
  unfolding try_into_or_none
  converted_interval p = elim (try_into_or_none p.initial_interval) [
    | none ↦ some one_second
    | some d ↦ some d
  ]

  -- The part after the error's type is looked at.
  by_delay : RetryPolicy → (attempt_number : ℕ) → Option ProtoDuration → Option ℕ
  unfolding by_interval converted_interval
  by_delay p attempt_number (some explicit_delay) = to_std explicit_delay
  by_delay p attempt_number none =
      if attempt_number == 1
      then converted_interval p
      else by_interval p attempt_number (converted_interval p)

  unfoldable pub non_retryable : Option ApplicationFailureInfo → Bool
  non_retryable none = false
  non_retryable (some f) = f.non_retryable

  unfoldable pub err_type : Option ApplicationFailureInfo → Text
  err_type none = []
  err_type (some f) = f.type_name

  unfoldable pub explicit_delay : Option ApplicationFailureInfo → Option ProtoDuration
  explicit_delay none = none
  explicit_delay (some f) = f.next_retry_delay

  unfoldable pub should_retry :
      RetryPolicy → (attempt_number : ℕ) → Option ApplicationFailureInfo → Option ℕ
  unfolding non_retryable real_max err_type matches_any explicit_delay by_delay
  should_retry p attempt_number failure =
      if non_retryable failure
      then none
      else if ltb 0 (real_max p.maximum_attempts)
          && leb (real_max p.maximum_attempts) attempt_number
      then none
      else if matches_any (err_type failure) p.non_retryable_error_types
      then none
      else by_delay p attempt_number (explicit_delay failure)
