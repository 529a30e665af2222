-- ===== src/Saga/Engine/Run.antt =====
-- core/spakky-saga/src/spakky/saga/engine.py: compensation, and the run of a whole saga.
use spakky_framework.Common.{
  ℕ, ◌-◌, String, true, false, Option, none, some, List, [], ◌∷◌, reverse,
}
use spakky_framework.Effects.{
  Exn, timeout_error, saga_compensation_failed, is_exception, Result, returned, raised, Io,
}
use spakky_framework.Saga.Strategy.{SagaStatus, completed, failed, timed_out, SagaResult}
use spakky_framework.Saga.Flow.{SagaData, Callable, SagaFlow}
use spakky_framework.Saga.Auth.{SagaAuthExecutionContext, authorize_step}
use spakky_framework.Saga.Engine.Normalize.{NormalizedItem, step, parallel, normalize}
use spakky_framework.Saga.Engine.State.{
  Asyncio, CompensableStep, Executor, record_step_failure, record_step_compensated,
}
use spakky_framework.Saga.Engine.Steps.{Failure, execute_serial_step, execute_parallel}

module _ {P W : Type 0} (asyncio : Asyncio P W) (auth : SagaAuthExecutionContext W)
    (handler : Option (Callable P W)) where
  -- `on_compensation_failure` runs, and then SagaCompensationFailedError is raised.
  unfoldable pub escalate : Option (Callable P W) → Executor P W → Result (Unit {0}) × Executor P W
  escalate none s = (raised saga_compensation_failed, s)
  escalate (some call_handler) s =
      let (handled, w) = call_handler.call s.saga_data s.world in
      elim handled [
        | returned _ ↦ (raised saga_compensation_failed, record s { world = w })
        | raised e ↦ (raised e, record s { world = w })
      ]

  -- `authorize_step`, then the compensation itself.
  unfoldable pub attempt_compensation :
      CompensableStep P W → SagaData P → Io W (Option (SagaData P))
  attempt_compensation c current w =
      let (granted, w') = authorize_step auth c.name current c.auth_boundary c.auth_owner_type w in
      elim granted [ raised e ↦ (raised e, w') | returned _ ↦ c.compensate.call current w' ]

  unfoldable pub compensate_one :
      CompensableStep P W → Executor P W → Result (Unit {0}) × Executor P W
  compensate_one c s =
      let start = asyncio.monotonic s.world in
      let (result, w) = attempt_compensation c s.saga_data s.world in
      let after : Executor P W = record s { world = w } in
      elim result [
        | returned _ ↦ (returned tt, record_step_compensated asyncio c.name start after)
        | raised e ↦ elim (is_exception e) [
          | true ↦ escalate handler (record_step_failure asyncio c.name start after)
          | false ↦ (raised e, after)
        ]
      ]

  unfoldable pub compensate_each :
      List (CompensableStep P W) → Executor P W → Result (Unit {0}) × Executor P W
  compensate_each [] s = (returned tt, s)
  compensate_each (c ∷ rest) s =
      let (result, s') = compensate_one c s in
      elim result [ returned _ ↦ compensate_each rest s' | raised e ↦ (raised e, s') ]

  unfoldable pub run_compensation : Executor P W → Result (Unit {0}) × Executor P W
  unfolding compensate_one compensate_each attempt_compensation escalate
  run_compensation s = compensate_each (reverse s.compensable) s

  unfoldable pub saga_result :
      SagaStatus → Option String → Option Exn → Executor P W → SagaResult (SagaData P)
  saga_result status failed_step error s = record {
    status = status;
    result_data = s.saga_data;
    failed_step = failed_step;
    error = error;
    history = s.history;
    elapsed = asyncio.monotonic s.world - s.saga_start;
  }

  -- After a run of the compensations: the result of that status, or what was raised.
  unfoldable pub conclude :
      SagaStatus
      → Option String
      → Option Exn
      → Result (Unit {0}) × Executor P W
      → Result (SagaResult (SagaData P)) × Executor P W
  conclude status failed_step error (returned _, s) =
      (returned (saga_result status failed_step error s), s)
  conclude status failed_step error (raised e, s) = (raised e, s)

  unfoldable pub execute_item : NormalizedItem P W → Executor P W → Result Failure × Executor P W
  execute_item (step item) = execute_serial_step asyncio auth item
  execute_item (parallel steps) = execute_parallel asyncio auth steps

  unfoldable pub run_items :
      List (NormalizedItem P W) → Executor P W → Result (SagaResult (SagaData P)) × Executor P W
  run_items [] s = (returned (saga_result completed none none s), s)
  run_items (item ∷ items) s =
      let (outcome, s') = execute_item item s in
      elim outcome [
        | raised e ↦ (raised e, s')
        | returned none ↦ run_items items s'
        | returned (some (name, error)) ↦
            conclude failed (some name) (some error) (run_compensation s')
      ]

  -- What leaves `async with asyncio.timeout(…)`; a TimeoutError starts the compensations.
  unfoldable pub catch_timeout :
      ℕ
      → W
      → Result (SagaResult (SagaData P)) × Executor P W
      → Result (SagaResult (SagaData P)) × Executor P W
  catch_timeout d w (returned r, s) = (returned r, s)
  catch_timeout d w (raised e, s) = elim (asyncio.exit_timeout d w s.world e) [
    | timeout_error ↦ conclude timed_out none none (run_compensation s)
    | other ↦ (raised other, s)
  ]

  unfoldable pub run_with_saga_timeout :
      List (NormalizedItem P W) → ℕ → Executor P W → Result (SagaResult (SagaData P)) × Executor P W
  run_with_saga_timeout items d s = catch_timeout d s.world (run_items items s)

  unfoldable pub run_normalized :
      Option ℕ
      → Result (List (NormalizedItem P W))
      → Executor P W
      → Result (SagaResult (SagaData P)) × Executor P W
  run_normalized saga_timeout (raised e) s = (raised e, s)
  run_normalized none (returned items) s = run_items items s
  run_normalized (some d) (returned items) s = run_with_saga_timeout items d s

module _ {P W : Type 0} (asyncio : Asyncio P W) (auth : SagaAuthExecutionContext W) where
  -- SagaExecutor(flow, data, …).run()
  unfoldable pub run_saga_flow :
      SagaFlow P W → SagaData P → W → Result (SagaResult (SagaData P)) × Executor P W
  run_saga_flow flow initial w =
      let start = asyncio.monotonic w in
      run_normalized asyncio auth flow.compensation_failure_handler flow.saga_timeout
        (normalize flow.items)
        (record {
          saga_data = initial;
          compensable = [];
          history = [];
          saga_start = start;
          world = w;
        })
