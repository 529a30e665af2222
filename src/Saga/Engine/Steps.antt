-- ===== src/Saga/Engine/Steps.antt =====
-- core/spakky-saga/src/spakky/saga/engine.py: one step, with its retries, and one parallel group.
use spakky_framework.Common.{
  ℕ, ◌+◌, ◌-◌, zero, suc, String, Bool, true, false, Option, none, some, List, ◌∷◌, map,
}
use spakky_framework.Effects.{
  Exn, cancelled_error, base_exception, timeout_error, saga_step_timeout, is_exception, Result,
  returned, raised, Io,
}
use spakky_framework.Saga.Strategy.{ErrorStrategy, Then, Retry, delay_for, retry}
use spakky_framework.Saga.Flow.{SagaData, Callable}
use spakky_framework.Saga.Auth.{SagaAuthExecutionContext, authorize_step}
use spakky_framework.Saga.Engine.Normalize.{NormalizedStep}
use spakky_framework.Saga.Engine.State.{
  Asyncio, Executor, replace_data, record_step_failure, commit,
}

pub data StrategyOutcome : Type 0 where
  continue compensate_and_fail : StrategyOutcome

pub record StrategyResult : Type 0 where
  pub outcome : StrategyOutcome
  pub last_error : Exn

-- What ends the saga: the name of the step and its error, if any.
abbrev pub Failure : Type 0
Failure = Option (String × Exn)

-- `except TimeoutError: if cm.expired(): raise SagaStepTimeoutError`
abbrev pub convert_timeout : Bool → Exn → Exn
convert_timeout true timeout_error = saga_step_timeout
convert_timeout _ e = e

-- A result of `gather(..., return_exceptions=True)`.
pub data Settled : Type 0 where
  cancelled succeeded : Settled
  errored : Exn → Settled

unfoldable pub classify : {A : Type 0} → Result A → Settled
classify (returned _) = succeeded
classify (raised cancelled_error) = cancelled
classify (raised (base_exception _)) = succeeded
classify (raised e) = errored e

-- `if x is None: x = y`
abbrev pub first : {A : Type 0} → Option A → A → Option A
first none y = some y
first (some x) y = some x

unfoldable pub strategy_result : StrategyOutcome → Exn → StrategyResult
strategy_result outcome e = record { outcome = outcome; last_error = e }

-- `match retry.then`
unfoldable pub apply_then : Then → Exn → StrategyResult
unfolding strategy_result
apply_then Then.skip e = strategy_result continue e
apply_then Then.compensate e = strategy_result compensate_and_fail e

-- `return None` or `return (step_item.name, strategy_result.last_error)`
unfoldable pub failure_of : String → Result StrategyResult → Result Failure
failure_of name (raised e) = raised e
failure_of name (returned r) = elim r.outcome [
  | continue ↦ returned none
  | compensate_and_fail ↦ returned (some (name, r.last_error))
]

-- `if cancellation is not None: raise cancellation`
unfoldable pub group_outcome : Failure × Option Exn → Result Failure
group_outcome (failure, some e) = raised e
group_outcome (failure, none) = returned failure

module _ {P W : Type 0} (asyncio : Asyncio P W) (auth : SagaAuthExecutionContext W) where
  -- What leaves `async with cm`, entered at `w`.
  abbrev pub leave_timeout :
      ℕ → W → Result (Option (SagaData P)) × W → Result (Option (SagaData P)) × W
  leave_timeout d w (returned r, w') = (returned r, w')
  leave_timeout d w (raised e, w') =
      (raised (convert_timeout (asyncio.expired d w w') (asyncio.exit_timeout d w w' e)), w')

  unfoldable pub invoke_action : Callable P W → Option ℕ → SagaData P → Io W (Option (SagaData P))
  invoke_action action none current w = action.call current w
  invoke_action action (some d) current w = leave_timeout d w (action.call current w)

  -- `authorize_step` raises before the action is called.
  unfoldable pub invoke_step_action : NormalizedStep P W → SagaData P → Io W (Option (SagaData P))
  unfolding invoke_action
  invoke_step_action item current w =
      let (granted, w') =
        authorize_step auth item.name current item.auth_boundary item.auth_owner_type w in
      elim granted [
        | raised e ↦ (raised e, w')
        | returned _ ↦ invoke_action item.action item.step_timeout current w'
      ]

  -- The loop of `_apply_retry` with `rounds` attempts left, the first of number `attempt`.
  unfoldable pub retry_loop :
      NormalizedStep P W → Retry → ℕ → ℕ → Exn → Executor P W → Result StrategyResult × Executor P W
  unfolding apply_then
  retry_loop item how zero attempt last_error s = (returned (apply_then how.and_then last_error), s)
  retry_loop item how (suc rounds) attempt last_error s =
      let (slept, w) = asyncio.sleep (delay_for how.backoff (attempt - 1)) s.world in
      let start = asyncio.monotonic w in
      elim slept [
        | raised e ↦ (raised e, record s { world = w })
        | returned _ ↦
            let (result, w') = invoke_step_action item s.saga_data w in
            let after : Executor P W = record s { world = w' } in
            elim result [
              | returned r ↦ (
                returned (strategy_result continue last_error),
                commit asyncio item start (replace_data r after),
              )
              | raised e ↦ elim (is_exception e) [
                | false ↦ (raised e, after)
                | true ↦
                    retry_loop item how rounds (attempt + 1) e
                      (record_step_failure asyncio item.name start after)
              ]
            ]
      ]

  unfoldable pub apply_strategy :
      NormalizedStep P W → ErrorStrategy → Exn → Executor P W → Result StrategyResult × Executor P W
  unfolding retry_loop strategy_result
  apply_strategy item ErrorStrategy.skip e s = (returned (strategy_result continue e), s)
  apply_strategy item ErrorStrategy.compensate e s =
      (returned (strategy_result compensate_and_fail e), s)
  apply_strategy item (retry how) e s = retry_loop item how (how.max_attempts - 1) 2 e s

  unfoldable pub execute_serial_step :
      NormalizedStep P W → Executor P W → Result Failure × Executor P W
  unfolding apply_strategy failure_of
  execute_serial_step item s =
      let start = asyncio.monotonic s.world in
      let (result, w) = invoke_step_action item s.saga_data s.world in
      let after : Executor P W = record s { world = w } in
      elim result [
        | returned r ↦ (returned none, commit asyncio item start (replace_data r after))
        | raised e ↦ elim (is_exception e) [
          | false ↦ (raised e, after)
          | true ↦
              let (outcome, s') =
                apply_strategy item item.on_error e
                  (record_step_failure asyncio item.name start after) in
              (failure_of item.name outcome, s')
        ]
      ]

  -- The body of the loop over `zip(group.steps, step_starts, results)`, on the first failure and
  -- the first cancellation so far. A result that is neither an Exception nor a CancelledError
  -- counts as a success.
  unfoldable pub settle_one :
      ℕ
      → NormalizedStep P W
      → Settled
      → Failure × Option Exn
      → Executor P W
      → (Failure × Option Exn) × Executor P W
  settle_one start item cancelled (failure, cancellation) s =
      ((failure, first cancellation cancelled_error), record_step_failure asyncio item.name start s)
  settle_one start item (errored e) (failure, cancellation) s =
      ((first failure (item.name, e), cancellation), record_step_failure asyncio item.name start s)
  settle_one start item succeeded found s = (found, commit asyncio item start s)

  unfoldable pub collect_results :
      ℕ
      → List (NormalizedStep P W)
      → List (Result (Option (SagaData P)))
      → Failure × Option Exn
      → Executor P W
      → (Failure × Option Exn) × Executor P W
  collect_results start (item ∷ items) (r ∷ results) found s =
      let (found', s') = settle_one start item (classify r) found s in
      collect_results start items results found' s'
  collect_results start _ _ found s = (found, s)

  unfoldable pub execute_parallel :
      List (NormalizedStep P W) → Executor P W → Result Failure × Executor P W
  unfolding collect_results settle_one group_outcome
  execute_parallel steps s =
      let start = asyncio.monotonic s.world in
      let calls = map (λ item. invoke_step_action item s.saga_data) steps in
      let (gathered, w) = asyncio.gather calls s.world in
      let after : Executor P W = record s { world = w } in
      elim gathered [
        | raised e ↦ (raised e, after)
        | returned results ↦
            let (outcome, s') = collect_results start steps results (none, none) after in
            (group_outcome outcome, s')
      ]
