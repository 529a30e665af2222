-- ===== src/Saga/Engine/Settling.antt =====
-- core/spakky-saga/src/spakky/saga/engine.py: what the results of a parallel group mean, read off
-- the exceptions, and that the engine reads them so.
use spakky_framework.Common.{
  String, ◌≡◌, refl, Bool, true, false, not, ◌&&◌, ◌||◌, if◌then◌else◌, Option, none, some, List,
  [], ◌∷◌, ◌++◌,
}
use spakky_framework.Effects.{
  Exn, cancelled_error, base_exception, is_exception, Result, returned, raised,
}
use spakky_framework.Saga.Strategy.{committed, failed}
use spakky_framework.Saga.Flow.{SagaData}
use spakky_framework.Saga.Engine.Normalize.{NormalizedStep}
use spakky_framework.Saga.Engine.State.{CompensableStep}
use spakky_framework.Saga.Engine.Steps.{
  Failure, Settled, cancelled, succeeded, errored, classify, group_outcome,
}
use spakky_framework.Saga.Engine.Trace.{Event, is_some, compensation_if}

abbrev pub settled_event : String → Settled → Event
settled_event name succeeded = (name, committed)
settled_event name _ = (name, failed)

abbrev pub is_success : Settled → Bool
is_success succeeded = true
is_success _ = false

-- The error of a settled step, and whether it was cancelled.
abbrev pub settled_error : String → Settled → Failure
settled_error name (errored e) = some (name, e)
settled_error name _ = none

abbrev pub settled_cancellation : Settled → Option Exn
settled_cancellation cancelled = some cancelled_error
settled_cancellation _ = none

abbrev pub or_else : {A : Type 0} → Option A → Option A → Option A
or_else none y = y
or_else (some x) y = some x

-- What a result of `gather` is, read off the exception: the error is any Exception; a result that is
-- neither an Exception nor a cancellation counts as a success.
unfoldable pub result_error : {A : Type 0} → Result A → Option Exn
result_error (returned _) = none
result_error (raised e) = if is_exception e then some e else none

unfoldable pub was_cancelled : {A : Type 0} → Result A → Bool
was_cancelled (raised cancelled_error) = true
was_cancelled _ = false

unfoldable pub counts_as_success : {A : Type 0} → Result A → Bool
unfolding result_error was_cancelled
counts_as_success r = not (was_cancelled r) && not (is_some (result_error r))

unfoldable pub result_event : {A : Type 0} → String → Result A → Event
unfolding counts_as_success
result_event name r = (name, if counts_as_success r then committed else failed)

unfoldable pub result_failure : {A : Type 0} → String → Result A → Failure
unfolding result_error
result_failure name r = elim (result_error r) [ none ↦ none | some e ↦ some (name, e) ]

module _ {P W : Type 0} where
  -- The events, the remembered compensations, the first error and whether any was cancelled, by
  -- recursion on the steps and their results.
  unfoldable pub group_events :
      List (NormalizedStep P W) → List (Result (Option (SagaData P))) → List Event
  unfolding result_event
  group_events (item ∷ items) (r ∷ results) = result_event item.name r ∷ group_events items results
  group_events _ _ = []

  unfoldable pub group_compensations :
      List (NormalizedStep P W) → List (Result (Option (SagaData P))) → List (CompensableStep P W)
  unfolding counts_as_success
  group_compensations (item ∷ items) (r ∷ results) =
      compensation_if (counts_as_success r) item ++ group_compensations items results
  group_compensations _ _ = []

  unfoldable pub group_error :
      List (NormalizedStep P W) → List (Result (Option (SagaData P))) → Failure
  unfolding result_failure
  group_error (item ∷ items) (r ∷ results) =
      or_else (result_failure item.name r) (group_error items results)
  group_error _ _ = none

  unfoldable pub group_cancelled :
      List (NormalizedStep P W) → List (Result (Option (SagaData P))) → Bool
  unfolding was_cancelled
  group_cancelled (item ∷ items) (r ∷ results) = was_cancelled r || group_cancelled items results
  group_cancelled _ _ = false

pub event-classify :
    {A : Type 0} (name : String) (r : Result A)
    → settled_event name (classify r) ≡ result_event name r
unfolding classify result_event counts_as_success result_error was_cancelled
event-classify name (returned a) = refl
event-classify name (raised cancelled_error) = refl
event-classify name (raised (base_exception n)) = refl
event-classify name (raised _) = refl

pub success-classify : {A : Type 0} (r : Result A) → is_success (classify r) ≡ counts_as_success r
unfolding classify counts_as_success result_error was_cancelled
success-classify (returned a) = refl
success-classify (raised cancelled_error) = refl
success-classify (raised (base_exception n)) = refl
success-classify (raised _) = refl

pub error-classify :
    {A : Type 0} (name : String) (r : Result A)
    → settled_error name (classify r) ≡ result_failure name r
unfolding classify result_failure result_error
error-classify name (returned a) = refl
error-classify name (raised cancelled_error) = refl
error-classify name (raised (base_exception n)) = refl
error-classify name (raised _) = refl

-- The cancellation that is raised again.
abbrev pub cancellation_if : Bool → Option Exn
cancellation_if true = some cancelled_error
cancellation_if false = none

pub cancellation-classify :
    {A : Type 0} (r : Result A)
    → settled_cancellation (classify r) ≡ cancellation_if (was_cancelled r)
unfolding classify was_cancelled
cancellation-classify (returned a) = refl
cancellation-classify (raised cancelled_error) = refl
cancellation-classify (raised (base_exception n)) = refl
cancellation-classify (raised _) = refl

pub cancellation-or :
    (a b : Bool) → or_else (cancellation_if a) (cancellation_if b) ≡ cancellation_if (a || b)
cancellation-or true b = refl
cancellation-or false b = refl

pub outcome-if :
    (failure : Failure) (b : Bool)
    → group_outcome (failure, cancellation_if b)
      ≡ (if b then raised cancelled_error else returned failure)
unfolding group_outcome
outcome-if failure true = refl
outcome-if failure false = refl
