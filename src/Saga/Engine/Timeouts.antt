-- ===== src/Saga/Engine/Timeouts.antt =====
-- core/spakky-saga/src/spakky/saga/engine.py: what the timeout of a saga does when it fires.
use spakky_framework.Common.{ℕ, ◌≡◌, refl, Option, none, List, ◌++◌, reverse}
use spakky_framework.Effects.{Exn, timeout_error, returned, raised}
use spakky_framework.Saga.Strategy.{timed_out, SagaResult}
use spakky_framework.Saga.Flow.{SagaData, Callable}
use spakky_framework.Saga.Auth.{SagaAuthExecutionContext}
use spakky_framework.Saga.Engine.Normalize.{NormalizedItem}
use spakky_framework.Saga.Engine.State.{Asyncio, Executor}
use spakky_framework.Saga.Engine.Run.{
  run_items, conclude, run_compensation, run_with_saga_timeout, catch_timeout, saga_result,
}
use spakky_framework.Saga.Engine.Trace.{events, names, compensations}
use spakky_framework.Saga.Engine.Undoing.{Undone, CompensationRun}
use spakky_framework.Saga.Engine.Compensation.{run_compensation-CompensationRun}
use spakky_framework.Saga.Engine.Refinement.{CompensationRun-all, CompensationRun-Undone}

module _ {P W : Type 0} (asyncio : Asyncio P W) (auth : SagaAuthExecutionContext W)
    (handler : Option (Callable P W)) where
  -- If the timeout fires while the items run, and the compensations that it starts return, then every
  -- step remembered by then was compensated: each was authorized and its compensation called with the
  -- data reached, in the reverse order. The result is TIMED_OUT with that data.
  pub run_with_saga_timeout-fires :
      (items : List (NormalizedItem P W)) (d : ℕ) (s s' t : Executor P W) (e : Exn) (u : Unit {0})
      → run_items asyncio auth handler items s ≡ (raised e, s')
      → asyncio.exit_timeout d s.world s'.world e ≡ timeout_error
      → run_compensation asyncio auth handler s' ≡ (returned u, t)
      → (r : SagaResult (SagaData P)) × (run_with_saga_timeout asyncio auth handler items d s
          ≡ (returned r, t))
        × (r.status ≡ timed_out)
        × (r.failed_step ≡ none)
        × (r.result_data ≡ s'.saga_data)
        × Undone auth s'.saga_data (reverse s'.compensable) s'.world t.world
        × (events r.history ≡ events s'.history ++ compensations (reverse (names s'.compensable)))
  unfolding run_with_saga_timeout catch_timeout conclude saga_result
  run_with_saga_timeout-fires items d s s' t e u ran fires undone =
      let run : CompensationRun auth handler (reverse s'.compensable) s' t (returned u) =
        rw undone at (run_compensation-CompensationRun asyncio auth handler s') in
      (
        saga_result asyncio auth handler timed_out none none t,
        rw (ran, fires, undone, run_with_saga_timeout, catch_timeout, conclude),
        refl,
        refl,
        run.data_eq,
        CompensationRun-Undone asyncio auth handler s' t u run,
        CompensationRun-all asyncio auth handler s' t u run,
      )
