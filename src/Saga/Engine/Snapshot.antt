-- ===== src/Saga/Engine/Snapshot.antt =====
-- core/spakky-saga/src/spakky/saga/engine.py: the caller's snapshot in the data of a saga.
use spakky_framework.Common.{ℕ, String, ◌≡◌, refl, inl, inr, Option, none, some, List, [], ◌∷◌, All}
use spakky_framework.Effects.{Exn, timeout_error, Result, returned, raised, Result-cases}
use spakky_framework.Saga.Strategy.{SagaStatus, timed_out, SagaResult}
use spakky_framework.Saga.Flow.{SagaData, Callable, SagaFlow}
use spakky_framework.Saga.Auth.{SagaAuthExecutionContext}
use spakky_framework.Saga.Engine.Normalize.{NormalizedItem, step, parallel, normalize}
use spakky_framework.Saga.Engine.State.{Asyncio, Executor}
use spakky_framework.Saga.Engine.Run.{
  run_compensation, conclude, execute_item, run_items, catch_timeout, run_with_saga_timeout,
  run_normalized, run_saga_flow, saga_result,
}
use spakky_framework.Saga.Engine.Compensation.{run_compensation-CompensationRun}
use spakky_framework.Saga.Engine.Carried.{
  Carries, ItemKeeps, CarriesOutcome, execute_serial_step-Carries, execute_parallel-Carries,
}

module _ {P W : Type 0} (asyncio : Asyncio P W) (auth : SagaAuthExecutionContext W)
    (snap : String) where
  module _ (handler : Option (Callable P W)) where
    conclude-Carries :
        (status : SagaStatus) (name : Option String) (error : Option Exn) (s : Executor P W)
        → Carries snap s.saga_data
        → CarriesOutcome snap (
            conclude asyncio auth handler status name error
              (run_compensation asyncio auth handler s))
    unfolding conclude saga_result
    conclude-Carries status name error s h =
        let run = run_compensation-CompensationRun asyncio auth handler s in
        elim (Result-cases (run_compensation asyncio auth handler s).0) [
          | inl (_, done) ↦ rw (done, conclude) (rw run.data_eq h, rw run.data_eq h)
          | inr (e, broke) ↦ rw (broke, conclude) (rw run.data_eq h)
        ]

    execute_item-Carries :
        (item : NormalizedItem P W)
        → ItemKeeps snap item
        → (s : Executor P W) → Carries snap s.saga_data
        → Carries snap (execute_item asyncio auth handler item s).1.saga_data
    unfolding execute_item
    execute_item-Carries (step item) keeps s h =
        execute_serial_step-Carries asyncio auth snap item keeps s h
    execute_item-Carries (parallel steps) keeps s h =
        execute_parallel-Carries asyncio auth snap steps s h

    run_items-Carries :
        (items : List (NormalizedItem P W))
        → All (ItemKeeps snap) items
        → (s : Executor P W) → Carries snap s.saga_data
        → CarriesOutcome snap (run_items asyncio auth handler items s)
    unfolding run_items saga_result
    run_items-Carries [] _ s h = (h, h)
    run_items-Carries (item ∷ items) (keeps, all) s h =
        elim (Result-cases (execute_item asyncio auth handler item s).0) [
          | inr (e, broke) ↦ rw (broke, run_items) (execute_item-Carries item keeps s h)
          | inl (none, ok) ↦
              rw (ok, run_items)
                (run_items-Carries items all _ (execute_item-Carries item keeps s h))
          | inl (some (name, error), ok) ↦
              rw (ok, run_items)
                (conclude-Carries _ (some name) (some error) _
                  (execute_item-Carries item keeps s h))
        ]

    caught-Carries :
        (x : Exn) (s : Executor P W)
        → Carries snap s.saga_data
        → CarriesOutcome {P = P} {W = W} snap (elim x [
          | timeout_error ↦
              conclude asyncio auth handler timed_out none none
                (run_compensation asyncio auth handler s)
          | other ↦ (raised other, s)
        ])
    caught-Carries timeout_error s h = conclude-Carries timed_out none none s h
    caught-Carries _ s h = h

    catch_timeout-Carries :
        (d : ℕ) (w : W) (outcome : Result (SagaResult (SagaData P)) × Executor P W)
        → CarriesOutcome snap outcome
        → CarriesOutcome snap (catch_timeout asyncio auth handler d w outcome)
    unfolding catch_timeout
    catch_timeout-Carries d w (returned r, s) h = h
    catch_timeout-Carries d w (raised e, s) h =
        caught-Carries (asyncio.exit_timeout d w s.world e) s h

    run_normalized-Carries :
        (limit : Option ℕ) (items : Result (List (NormalizedItem P W)))
        → ((named : List (NormalizedItem P W))
            → items ≡ returned named
            → All (ItemKeeps snap) named)
        → (s : Executor P W) → Carries snap s.saga_data
        → CarriesOutcome snap (run_normalized asyncio auth handler limit items s)
    unfolding run_normalized run_with_saga_timeout
    run_normalized-Carries limit (raised e) keeps s h = h
    run_normalized-Carries none (returned items) keeps s h =
        run_items-Carries items (keeps items refl) s h
    run_normalized-Carries (some d) (returned items) keeps s h =
        catch_timeout-Carries d s.world (run_items asyncio auth handler items s)
          (run_items-Carries items (keeps items refl) s h)

  -- A saga never loses the snapshot that the data of its caller carries: if the data that a serial
  -- step's action gives back has no snapshot or this one, then, however the run ends, the executor's
  -- data carries this snapshot, and so do the data of a result that is returned.
  pub run_saga_flow-Carries :
      (flow : SagaFlow P W) (initial : SagaData P) (w : W)
      → Carries snap initial
      → ((items : List (NormalizedItem P W))
          → normalize flow.items ≡ returned items
          → All (ItemKeeps snap) items)
      → CarriesOutcome snap (run_saga_flow asyncio auth flow initial w)
  unfolding run_saga_flow
  run_saga_flow-Carries flow initial w h keeps =
      run_normalized-Carries flow.compensation_failure_handler flow.saga_timeout
        (normalize flow.items) keeps _ h
