-- ===== src/Saga/Tests.antt =====
-- Sagas run on a small world, and the theorems about them applied there. The world is a clock; an
-- action takes one tick and fails, or is cancelled, from a given tick on.
use spakky_framework.Common.{
  ℕ, ◌+◌, String, ◌≡◌, refl, Bool, true, false, Option, none, some, List, [], ◌∷◌, ◌++◌, reverse,
  leb, ltb, nat_eq, if◌then◌else◌,
}
use spakky_framework.Effects.{
  Exn, cancelled_error, timeout_error, exception, Result, returned, raised, Io,
}
use spakky_framework.Auth.Metadata.{Boundary}
use spakky_framework.Saga.Strategy.{
  ErrorStrategy, Then, retry, committed, failed, compensated, timed_out, SagaStatus, SagaResult,
  delay_for,
}
use spakky_framework.Saga.Flow.{SagaData, Callable}
use spakky_framework.Saga.Auth.{SagaAuthExecutionContext, authorize_step}
use spakky_framework.Saga.Engine.Normalize.{NormalizedStep, NormalizedItem, step, parallel}
use spakky_framework.Saga.Engine.State.{
  Asyncio, Executor, CompensableStep, commit, replace_data, record_step_failure,
  record_step_compensated,
}
use spakky_framework.Saga.Engine.Steps.{
  execute_serial_step, execute_parallel, invoke_step_action, classify,
}
use spakky_framework.Saga.Engine.Run.{
  run_items, run_compensation, execute_item, conclude, run_with_saga_timeout,
}
use spakky_framework.Saga.Engine.Trace.{events, names, compensations}
use spakky_framework.Saga.Engine.Undoing.{Undone, CompensationRun}
use spakky_framework.Saga.Engine.Compensation.{run_compensation-CompensationRun}
use spakky_framework.Saga.Engine.Settling.{
  group_events, group_compensations, group_error, group_cancelled,
}
use spakky_framework.Saga.Engine.Groups.{Added, execute_parallel-Added}
use spakky_framework.Saga.Engine.Timeouts.{run_with_saga_timeout-fires}
use spakky_framework.Saga.Engine.Refinement.{Finish, run_items-Finish}

abbrev pub Out : Type 0
Out = Result (Option (SagaData ℕ))

-- `gather` that runs the calls one after the other.
pub gather_in_turn : List (Io ℕ (Option (SagaData ℕ))) → ℕ → List Out × ℕ
gather_in_turn [] w = ([], w)
gather_in_turn (call ∷ calls) w =
    let (r, w') = call w in let (rs, w'') = gather_in_turn calls w' in (r ∷ rs, w'')

abbrev pub expired_by : ℕ → ℕ → ℕ → Bool
expired_by d w w' = leb (w + d) w'

pub turn_to_timeout : Bool → Exn → Exn
turn_to_timeout true cancelled_error = timeout_error
turn_to_timeout _ e = e

abbrev pub clock : Asyncio ℕ ℕ
clock = record {
  monotonic = λ w. w;
  sleep = λ d w. (returned tt, w + d);
  expired = expired_by;
  exit_timeout = λ d w w' e. turn_to_timeout (expired_by d w w') e;
  gather = λ calls w. (returned (gather_in_turn calls w).0, (gather_in_turn calls w).1);
}

abbrev pub no_auth : SagaAuthExecutionContext ℕ
no_auth = record {
  snapshot_verifier = none;
  authorization_policy_evaluator = none;
  permission_checker = none;
  relation_checker = none;
  role_checker = none;
  scope_checker = none;
}

abbrev pub unmarked : Boundary
unmarked = record {
  is_type = false;
  source = record { public_marker = false; declared = [] };
  self_owner = none;
}

-- Succeeds before the tick `from`, and raises `e` from then on.
abbrev pub until : ℕ → Exn → Callable ℕ ℕ
until from e = record {
  dunder_name = some "f";
  call = λ d w. if ltb w from then (returned none, w + 1) else (raised e, w + 1);
  object = unmarked;
}

abbrev pub step_named :
    String → Callable ℕ ℕ → Option (Callable ℕ ℕ) → ErrorStrategy → NormalizedStep ℕ ℕ
step_named name action compensate strategy = record {
  name = name;
  action = action;
  compensate = compensate;
  on_error = strategy;
  step_timeout = none;
  auth_boundary = none;
  auth_owner_type = none;
  compensate_auth_boundary = none;
  compensate_auth_owner_type = none;
}

abbrev pub start_at : ℕ → Executor ℕ ℕ
start_at w = record {
  saga_data = record { saga_id = "s"; auth_context_snapshot = none; payload = 0 };
  compensable = [];
  history = [];
  saga_start = w;
  world = w;
}

abbrev pub works : Callable ℕ ℕ
works = until 100 (exception 0)

abbrev pub breaks : Callable ℕ ℕ
breaks = until 0 (exception 1)

abbrev pub order_saga : List (NormalizedItem ℕ ℕ)
order_saga =
    step (step_named "reserve" works (some works) ErrorStrategy.compensate)
    ∷ parallel (
        step_named "ticket" works (some works) ErrorStrategy.compensate
        ∷ step_named "mail" works none ErrorStrategy.compensate
        ∷ [])
    ∷ step (
        step_named "pay" breaks (some works) (
          retry (record {
            max_attempts = 2;
            backoff = record { base = 1 };
            and_then = Then.compensate;
          })))
    ∷ []

program : Unit {0}
unfolding run_items run_compensation execute_serial_step execute_parallel gather_in_turn
    execute_item invoke_step_action authorize_step classify commit replace_data record_step_failure
    delay_for conclude record_step_compensated turn_to_timeout
program = tt

order_history :
    events (run_items clock no_auth none order_saga (start_at 0)).1.history
    ≡ ("reserve", committed)
      ∷ ("ticket", committed)
      ∷ ("mail", committed)
      ∷ ("pay", failed)
      ∷ ("pay", failed)
      ∷ ("ticket", compensated)
      ∷ ("reserve", compensated)
      ∷ []
unfolding program
order_history = refl

abbrev pub pay : NormalizedStep ℕ ℕ
pay =
    step_named "pay" breaks (some works) (
      retry
        (record { max_attempts = 2; backoff = record { base = 1 }; and_then = Then.compensate }))

abbrev pub value_or : {A : Type 0} → A → Result A → A
value_or d (returned a) = a
value_or d (raised _) = d

abbrev no_result : SagaResult (SagaData ℕ)
no_result = record {
  status = SagaStatus.started;
  result_data = (start_at 0).saga_data;
  failed_step = none;
  error = none;
  history = [];
  elapsed = 0;
}

run_items-Finish_example :
    Finish clock no_auth none order_saga
      (start_at 0)
      (run_items clock no_auth none order_saga (start_at 0)).1
      (value_or no_result (run_items clock no_auth none order_saga (start_at 0)).0)
unfolding program
run_items-Finish_example = run_items-Finish clock no_auth none order_saga (start_at 0) _ refl

abbrev pair_of_steps : List (NormalizedStep ℕ ℕ)
pair_of_steps =
    step_named "ticket" breaks (some works) ErrorStrategy.compensate
    ∷ step_named "mail" works (some works) ErrorStrategy.compensate
    ∷ []

abbrev pair_results : List Out
pair_results = raised (exception 1) ∷ returned none ∷ []

execute_parallel-Added_example :
    Added
      (group_events pair_of_steps pair_results)
      (group_compensations pair_of_steps pair_results)
      (start_at 0)
      (execute_parallel clock no_auth pair_of_steps (start_at 0)).1
    × ((execute_parallel clock no_auth pair_of_steps (start_at 0)).0 ≡ (
        if group_cancelled pair_of_steps pair_results
        then raised cancelled_error
        else returned (group_error pair_of_steps pair_results)))
unfolding program
execute_parallel-Added_example =
    execute_parallel-Added clock no_auth pair_of_steps (start_at 0) pair_results refl

-- Is cancelled at the tick `at`, and succeeds at any other.
abbrev cancelled_at : ℕ → Callable ℕ ℕ
cancelled_at at = record {
  dunder_name = some "undo";
  call = λ d w. if nat_eq w at then (raised cancelled_error, w + 1) else (returned none, w + 1);
  object = unmarked;
}

abbrev undo : String → Callable ℕ ℕ → CompensableStep ℕ ℕ
undo name fn = record { name = name; compensate = fn; auth_boundary = none; auth_owner_type = none }

-- Two steps have committed; undoing the first is cancelled at tick 4, while the saga compensates.
abbrev two_committed : Executor ℕ ℕ
two_committed = record (start_at 0) {
  compensable = undo "a" (cancelled_at 4) ∷ undo "b" works ∷ [];
}

run_compensation-CompensationRun_example :
    CompensationRun no_auth none
      (undo "b" works ∷ undo "a" (cancelled_at 4) ∷ [])
      two_committed
      (run_compensation clock no_auth none two_committed).1
      (run_compensation clock no_auth none two_committed).0
run_compensation-CompensationRun_example =
    run_compensation-CompensationRun clock no_auth none two_committed

abbrev after_pay : Executor ℕ ℕ
after_pay = (execute_item clock no_auth none (step pay) two_committed).1

abbrev after_cancel : Executor ℕ ℕ
after_cancel = (run_compensation clock no_auth none after_pay).1

abbrev pub slow : NormalizedItem ℕ ℕ
slow = step (step_named "slow" (until 0 cancelled_error) none ErrorStrategy.compensate)

abbrev interrupted : Executor ℕ ℕ
interrupted = record two_committed { world = 1 }

run_with_saga_timeout-fires_example :
    (r : SagaResult (SagaData ℕ)) × (run_with_saga_timeout clock no_auth none
        (slow ∷ [])
        1
        two_committed
      ≡ (returned r, (run_compensation clock no_auth none interrupted).1))
    × (r.status ≡ timed_out)
    × (r.failed_step ≡ none)
    × (r.result_data ≡ interrupted.saga_data)
    × Undone no_auth interrupted.saga_data
        (reverse interrupted.compensable)
        1
        (run_compensation clock no_auth none interrupted).1.world
    × (events r.history
        ≡ events interrupted.history ++ compensations (reverse (names interrupted.compensable)))
unfolding program
run_with_saga_timeout-fires_example =
    run_with_saga_timeout-fires clock no_auth none (slow ∷ []) 1 two_committed interrupted
      (run_compensation clock no_auth none interrupted).1 cancelled_error tt refl refl refl
