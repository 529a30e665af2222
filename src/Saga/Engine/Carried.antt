-- ===== src/Saga/Engine/Carried.antt =====
-- core/spakky-saga/src/spakky/saga/engine.py: the caller's snapshot in the data of a saga, step by step.
use spakky_framework.Common.{
  ℕ, zero, suc, ◌+◌, ◌-◌, String, ◌≡◌, refl, inl, inr, Option, none, some, List, Bool-cases, map,
  ◌⊎◌,
}
use spakky_framework.Effects.{Exn, Result, returned, raised, is_exception, Result-cases}
use spakky_framework.Saga.Strategy.{ErrorStrategy, Retry, retry, SagaResult, delay_for}
use spakky_framework.Saga.Flow.{SagaData, Callable}
use spakky_framework.Saga.Auth.{SagaAuthExecutionContext}
use spakky_framework.Saga.Engine.Normalize.{NormalizedStep, NormalizedItem, step, parallel}
use spakky_framework.Saga.Engine.State.{
  Asyncio, Executor, commit, replace_data, preserve_auth_context_snapshot, record_step_failure,
}
use spakky_framework.Saga.Engine.Steps.{
  invoke_step_action, retry_loop, apply_strategy, execute_serial_step, execute_parallel,
}
use spakky_framework.Saga.Engine.Invoking.{invoke_step_action-Succeeded}
use spakky_framework.Saga.Engine.Trace.{data-commit}
use spakky_framework.Saga.Engine.Groups.{collect_results-Added}

module _ {P : Type 0} (snap : String) where
  -- The data carries this snapshot.
  abbrev pub Carries : SagaData P → Type 0
  Carries d = d.auth_context_snapshot ≡ some snap

  preserve-Carries :
      (current new : SagaData P)
      → (new.auth_context_snapshot ≡ none) ⊎ Carries new
      → Carries current
      → Carries (preserve_auth_context_snapshot current new)
  unfolding preserve_auth_context_snapshot
  preserve-Carries current new (inr own) h = rw own refl
  preserve-Carries current new (inl missing) h = rw missing (rw h refl)

  -- The data that an action gives back, if any, has no snapshot or this one.
  abbrev pub GivesBack : Option (SagaData P) → Type 0
  GivesBack none = Unit
  GivesBack (some new) = (new.auth_context_snapshot ≡ none) ⊎ Carries new

module _ {P W : Type 0} (snap : String) where
  abbrev pub Keeps : Callable P W → Type 0
  Keeps action =
      (d : SagaData P) (w w' : W) (r : Option (SagaData P))
      → action.call d w ≡ (returned r, w')
      → GivesBack snap r

  -- The data that the steps of a group give back is not used.
  abbrev pub ItemKeeps : NormalizedItem P W → Type 0
  ItemKeeps (step item) = Keeps item.action
  ItemKeeps (parallel steps) = Unit

  -- Both the executor's data and the result's carry the snapshot.
  abbrev pub CarriesOutcome : Result (SagaResult (SagaData P)) × Executor P W → Type 0
  CarriesOutcome (returned r, s) = Carries snap r.result_data × Carries snap s.saga_data
  CarriesOutcome (raised e, s) = Carries snap s.saga_data

  replace_data-Carries :
      (r : Option (SagaData P)) (s : Executor P W)
      → GivesBack snap r
      → Carries snap s.saga_data
      → Carries snap (replace_data r s).saga_data
  unfolding replace_data
  replace_data-Carries none s g h = h
  replace_data-Carries (some new) s g h = preserve-Carries snap s.saga_data new g h

module _ {P W : Type 0} (asyncio : Asyncio P W) (auth : SagaAuthExecutionContext W)
    (snap : String) where
  -- What a step gives back, its action gave back.
  invoke_step_action-GivesBack :
      (item : NormalizedStep P W) (current : SagaData P)
      → Keeps snap item.action
      → (w : W) (r : Option (SagaData P))
      → (invoke_step_action asyncio auth item current w).0 ≡ returned r
      → GivesBack snap r
  invoke_step_action-GivesBack item current keeps w r h =
      let (u, w1, asks, called) = invoke_step_action-Succeeded asyncio auth item current w r h in
      keeps current w1 _ r called

  commit-Carries :
      (item : NormalizedStep P W) (start : ℕ) (r : Option (SagaData P)) (s : Executor P W)
      → GivesBack snap r
      → Carries snap s.saga_data
      → Carries snap (commit asyncio item start (replace_data r s)).saga_data
  commit-Carries item start r s g h =
      rw (data-commit asyncio item start (replace_data r s)) (replace_data-Carries snap r s g h)

  retry_loop-Carries :
      (item : NormalizedStep P W)
      → Keeps snap item.action
      → (how : Retry) (rounds attempt : ℕ) (e : Exn) (s : Executor P W) → Carries snap s.saga_data
      → Carries snap (retry_loop asyncio auth item how rounds attempt e s).1.saga_data
  unfolding retry_loop record_step_failure
  retry_loop-Carries item keeps how zero attempt e s h = h
  retry_loop-Carries item keeps how (suc rounds) attempt e s h =
      elim (Result-cases (asyncio.sleep (delay_for how.backoff (attempt - 1)) s.world).0) [
        | inr (x, cut) ↦ rw (cut, retry_loop) h
        | inl (_, slept) ↦
            let w = (asyncio.sleep (delay_for how.backoff (attempt - 1)) s.world).1 in
            elim (Result-cases (invoke_step_action asyncio auth item s.saga_data w).0) [
              | inl (r, done) ↦
                  rw (slept, done, retry_loop)
                    (commit-Carries item (asyncio.monotonic w) r _
                      (invoke_step_action-GivesBack item s.saga_data keeps w r done) h)
              | inr (x, broke) ↦ elim (Bool-cases (is_exception x)) [
                | inl caught ↦
                    rw (slept, broke, caught, retry_loop)
                      (retry_loop-Carries item keeps how rounds (attempt + 1) x _ h)
                | inr passed ↦ rw (slept, broke, passed, retry_loop) h
              ]
            ]
      ]

  apply_strategy-Carries :
      (item : NormalizedStep P W)
      → Keeps snap item.action
      → (strategy : ErrorStrategy) (e : Exn) (s : Executor P W) → Carries snap s.saga_data
      → Carries snap (apply_strategy asyncio auth item strategy e s).1.saga_data
  unfolding apply_strategy
  apply_strategy-Carries item keeps ErrorStrategy.skip e s h = h
  apply_strategy-Carries item keeps ErrorStrategy.compensate e s h = h
  apply_strategy-Carries item keeps (retry how) e s h =
      retry_loop-Carries item keeps how (how.max_attempts - 1) 2 e s h

  pub execute_serial_step-Carries :
      (item : NormalizedStep P W)
      → Keeps snap item.action
      → (s : Executor P W) → Carries snap s.saga_data
      → Carries snap (execute_serial_step asyncio auth item s).1.saga_data
  unfolding execute_serial_step record_step_failure
  execute_serial_step-Carries item keeps s h =
      elim (Result-cases (invoke_step_action asyncio auth item s.saga_data s.world).0) [
        | inl (r, done) ↦
            rw (done, execute_serial_step)
              (commit-Carries item (asyncio.monotonic s.world) r _
                (invoke_step_action-GivesBack item s.saga_data keeps s.world r done) h)
        | inr (x, broke) ↦ elim (Bool-cases (is_exception x)) [
          | inl caught ↦
              rw (broke, caught, execute_serial_step)
                (apply_strategy-Carries item keeps item.on_error x _ h)
          | inr passed ↦ rw (broke, passed, execute_serial_step) h
        ]
      ]

  pub execute_parallel-Carries :
      (steps : List (NormalizedStep P W)) (s : Executor P W)
      → Carries snap s.saga_data
      → Carries snap (execute_parallel asyncio auth steps s).1.saga_data
  unfolding execute_parallel
  execute_parallel-Carries steps s h =
      elim (Result-cases
        (asyncio.gather (map (λ item. invoke_step_action asyncio auth item s.saga_data) steps)
          s.world).0) [
            | inr (x, broke) ↦ rw (broke, execute_parallel) h
            | inl (results, gathered) ↦
                rw (gathered, execute_parallel)
                  (rw
                    (collect_results-Added asyncio auth (asyncio.monotonic s.world) steps results
                      (none, none) _).data_eq
                    h)
          ]
