-- ===== src/Proto/LocalActivities.antt =====
-- What core keeps of a local activity: the request of lang (`ValidScheduleLA` of
-- core/src/protosext/mod.rs), its result (`LocalActivityExecutionResult` of
-- core/src/worker/activities/local_activities.rs) and the data of its marker (external_data.proto).
-- The arguments, headers, timeouts and the retry policy of a request are left out.
use sdk_core.Prelude.{ℕ, Option, none, some, Text, codes}
use sdk_core.Proto.Enums.{ActivityCancellationType}
use sdk_core.Proto.Failures.{Payload, Payloads, Failure, failure, no_cause, canceled_failure_info}

pub record ValidScheduleLa : Type 0 where
  pub seq : ℕ
  pub activity_id : Text
  pub activity_type : Text
  pub attempt : ℕ
  pub original_schedule_time : Option ℕ
  pub cancellation_type : ActivityCancellationType

pub record LocalActivityMarkerData : Type 0 where
  pub seq : ℕ
  pub attempt : ℕ
  pub activity_id : Text
  pub activity_type : Text
  pub complete_time : Option ℕ
  pub backoff : Option ℕ
  pub original_schedule_time : Option ℕ

-- `Result<Payload, Failure>`.
pub data MarkerResult : Type 0 where
  succeeded : Payload → MarkerResult
  failed : Failure → MarkerResult

pub record CompleteLocalActivityData : Type 0 where
  pub marker_dat : LocalActivityMarkerData
  pub result : MarkerResult

-- `Success`, `Failure` and `Cancellation` of activity_result.proto are their only field.
pub data LocalActivityExecutionResult : Type 0 where
  completed : (result : Option Payload) → LocalActivityExecutionResult
  failed : (failure : Option Failure) → LocalActivityExecutionResult
  timed_out : (failure : Option Failure) → LocalActivityExecutionResult
  cancelled : (failure : Option Failure) → LocalActivityExecutionResult

-- `Cancellation::from_details`.
unfoldable pub cancellation_from_details : Option Payloads → Option Failure
cancellation_from_details details =
    some (failure (codes "Activity cancelled") no_cause (some (canceled_failure_info details)))

-- `LocalActivityExecutionResult::empty_cancel`.
unfoldable pub empty_cancel : LocalActivityExecutionResult
unfolding cancellation_from_details
empty_cancel = LocalActivityExecutionResult.cancelled (cancellation_from_details none)
