-- ===== src/Tests/RetryTests.antt =====
-- retry_logic.rs with whole numbers of nanoseconds for its floating-point numbers.
use sdk_core.Prelude.{ℕ, ◌*◌, ◌^◌, ◌==◌, ltb, none, some, [], ◌∷◌, Option, codes, ◌≡◌, refl}
use sdk_core.Retry.{Numbers, RetryPolicy, should_retry, max_duration}
use sdk_core.Retry.Decision.{Decides, should_retry-Decides}

abbrev whole : Numbers
whole = record {
  Float = ℕ;
  is_zero = λ x. x == 0;
  two = 2;
  times = λ x y. x * y;
  powi = λ x n. x ^ n;
  as_secs = λ d. d;
  nanos_per_sec = 1;
  is_nanos = λ x. ltb x max_duration;
  from_secs = λ x. x;
  ProtoDuration = ℕ;
  to_std = λ d. some d;
  to_lowercase = λ t. t;
}

-- One second, doubled each time, of at most ten, and for at most ten attempts.
abbrev policy : RetryPolicy whole
policy = record {
  initial_interval = some 1000000000;
  backoff_coefficient = 2;
  maximum_interval = some 10000000000;
  maximum_attempts = 10;
  non_retryable_error_types = codes "Fatal" ∷ [];
}

fourth_test : should_retry whole policy 4 none ≡ some 8000000000
unfolding should_retry sdk_core.Prelude.text_eq
fourth_test = refl

fifth_test : should_retry whole policy 5 none ≡ some 10000000000
unfolding should_retry sdk_core.Prelude.text_eq
fifth_test = refl

last_test : should_retry whole policy 10 none ≡ none
unfolding should_retry
last_test = refl

should_retry-Decides_example : Decides whole policy 5 none (should_retry whole policy 5 none)
should_retry-Decides_example = should_retry-Decides whole policy 5 none
