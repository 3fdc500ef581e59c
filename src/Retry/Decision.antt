-- ===== src/Retry/Decision.antt =====
-- When core/src/retry_logic.rs grants a retry, and how long it may have to wait.
use mathlib.Core.Option
use sdk_core.Prelude.{
  ℕ, ◌≤◌, ◌<◌, Bool, true, false, ◌&&◌, ◌==◌, ltb, leb, Option, none, some, ◌⊎◌, inl, inr,
  if◌then◌else◌, ◌≡◌, ◌≢◌, refl, arith, ==→eq, Bool-cases, Option-cases,
}
use sdk_core.Retry.{
  Numbers, one_second, smaller, saturating_mul, real_max, RetryPolicy, ApplicationFailureInfo,
  try_into_or_none, matches_any, converted_interval, non_retryable, err_type, explicit_delay,
  should_retry, backoff, by_interval, by_delay,
}

module _ (num : Numbers) (p : RetryPolicy num) (n : ℕ)
    (failure : Option (ApplicationFailureInfo num)) where
  -- The attempts are limited, and `n` is the last or beyond.
  abbrev pub Exhausted : Type 0
  Exhausted = (0 < real_max p.maximum_attempts) × (real_max p.maximum_attempts ≤ n)

  -- The initial interval, or a second where the policy gives none that converts.
  abbrev pub initial : ℕ
  initial = Option.get_or (try_into_or_none num p.initial_interval) one_second

  -- The maximal interval, or a hundred times the initial one.
  abbrev pub cap : ℕ
  cap = Option.get_or (try_into_or_none num p.maximum_interval) (saturating_mul initial 100)

  abbrev pub Waits : Option num.ProtoDuration → ℕ → Type 0
  Waits (some e) d = num.to_std e ≡ some d
  Waits none d = ((n ≡ 1) × (d ≡ initial)) ⊎ ((n ≢ 1) × (d ≤ cap))

  abbrev pub Unusable : Option num.ProtoDuration → Type 0
  Unusable (some e) = num.to_std e ≡ none
  Unusable none = ⊥

  abbrev pub listed : Bool
  listed = matches_any num (err_type num failure) p.non_retryable_error_types

  abbrev pub Decides : Option ℕ → Type 0
  Decides (some d) =
      (non_retryable num failure ≡ false)
      × ((real_max p.maximum_attempts ≡ 0) ⊎ (n < real_max p.maximum_attempts))
      × (listed ≡ false)
      × Waits (explicit_delay num failure) d
  Decides none =
      (non_retryable num failure ≡ true)
      ⊎ (Exhausted ⊎ ((listed ≡ true) ⊎ Unusable (explicit_delay num failure)))

  smaller-le : (a b : ℕ) → smaller a b ≤ b
  smaller-le a b = ground arith

  converted-initial : converted_interval num p ≡ some initial
  unfolding converted_interval
  converted-initial = elim (Option-cases (try_into_or_none num p.initial_interval)) [
    | inl e ↦ rw (e, converted_interval, Option.get_or) refl
    | inr (d, e) ↦ rw (e, converted_interval, Option.get_or) refl
  ]

  abbrev Answers : Option num.ProtoDuration → Option ℕ → Type 0
  Answers e (some d) = Waits e d
  Answers e none = Unusable e

  answers-self : (e : num.ProtoDuration) (r : Option ℕ) → num.to_std e ≡ r → Answers (some e) r
  answers-self e none h = h
  answers-self e (some d) h = h

  delay-Answers : (e : Option num.ProtoDuration) → Answers e (by_delay num p n e)
  unfolding by_delay by_interval backoff
  delay-Answers (some e) = answers-self e (num.to_std e) refl
  delay-Answers none = elim (Bool-cases (n == 1)) [
    | inl first ↦ rw (first, by_delay, converted-initial) (inl (==→eq n 1 first, refl))
    | inr later ↦ rw (later, by_delay, converted-initial) (inr (ground arith, smaller-le _ cap))
  ]

  -- What the test of the attempts tells.
  abbrev Tested : Bool → Type 0
  Tested true = Exhausted
  Tested false = (real_max p.maximum_attempts ≡ 0) ⊎ (n < real_max p.maximum_attempts)

  attempts-Tested : (m : ℕ) → m ≡ real_max p.maximum_attempts → Tested (ltb 0 m && leb m n)
  attempts-Tested m e = elim (Bool-cases (ltb 0 m)) [
    | inl limited ↦ elim (Bool-cases (leb m n)) [
      | inl used_up ↦ rw (limited, used_up) (ground arith, ground arith)
      | inr left ↦ rw (limited, left) (inr (ground arith))
    ]
    | inr unlimited ↦ rw unlimited (inl (ground arith))
  ]

  decide :
      (final exhausted matches : Bool) (r : Option ℕ)
      → non_retryable num failure ≡ final
      → Tested exhausted
      → listed ≡ matches
      → Answers (explicit_delay num failure) r
      → Decides (if final then none else if exhausted then none else if matches then none else r)
  decide true exhausted matches r f t m a = inl f
  decide false true matches r f t m a = inr (inl t)
  decide false false true r f t m a = inr (inr (inl m))
  decide false false false none f t m a = inr (inr (inr a))
  decide false false false (some d) f t m a = (f, t, m, a)

  -- A retry is granted only if the failure is not marked as final, the attempts are unlimited or not
  -- used up, and the error's type is none of the policy's; it then waits for the delay that the
  -- failure asks for, or else, after the first attempt, for the initial interval, and after a later
  -- one at most for the maximal interval. A retry is refused only for one of the first three reasons
  -- or for an explicit delay that does not convert: never for want of an initial interval.
  pub should_retry-Decides : Decides (should_retry num p n failure)
  unfolding should_retry
  should_retry-Decides =
      decide (non_retryable num failure) _ listed _ refl
        (attempts-Tested (real_max p.maximum_attempts) refl) refl
        (delay-Answers (explicit_delay num failure))
