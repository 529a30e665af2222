-- ===== src/Saga/Engine/Forward.antt =====
-- core/spakky-saga/src/spakky/saga/engine.py: what a run of flow items may call and record, as a
-- relation that does not mention the executor, and the proof that one item of the engine follows it.
use spakky_framework.Common.{
  ℕ, ◌+◌, ◌≤◌, ◌≡◌, refl, sym, ap, ◌∙◌, Bool, true, false, not, if◌then◌else◌, ◌||◌, inl, inr,
  Option, none, some, List, [], ◌∷◌, ◌++◌, map, replicate, arith,
}
use spakky_framework.Effects.{cancelled_error, Result, returned, raised, Result-cases}
use spakky_framework.Saga.Strategy.{failed}
use spakky_framework.Saga.Flow.{SagaData, Callable}
use spakky_framework.Saga.Auth.{SagaAuthExecutionContext}
use spakky_framework.Saga.Engine.Normalize.{NormalizedStep, NormalizedItem, step, parallel}
use spakky_framework.Saga.Engine.State.{Asyncio, CompensableStep, Executor}
use spakky_framework.Saga.Engine.Steps.{Failure, invoke_step_action}
use spakky_framework.Saga.Engine.Run.{execute_item}
use spakky_framework.Saga.Engine.Invoking.{Attempted}
use spakky_framework.Saga.Engine.Trace.{
  Event, events, is_some, committed_if, compensation_if, attempts, skips, count, OutcomeFits,
  StepRun,
}
use spakky_framework.Saga.Engine.Retries.{execute_serial_step-StepRun}
use spakky_framework.Saga.Engine.Settling.{
  group_events, group_compensations, group_error, group_cancelled,
}
use spakky_framework.Saga.Engine.Groups.{
  execute_parallel-Added, execute_parallel-world, execute_parallel-raised,
}

module _ {P W : Type 0} (asyncio : Asyncio P W) (auth : SagaAuthExecutionContext W) where
  -- A serial step made its attempts, with the data `current`, from `w` to `w'`: it failed some times,
  -- at most once for each attempt, and then committed or not; the saga goes on if it committed or its
  -- strategy skips. The calls of a group were gathered and each of its steps settled; the saga goes
  -- on if none of them failed.
  abbrev pub ItemTrace :
      NormalizedItem P W → Bool → List Event → List (CompensableStep P W) → W → W → Type 0
  ItemTrace (step item) goes_on evs ns w w' =
      (current : SagaData P) × (failures : ℕ) × (success : Bool) × (evs
        ≡ replicate failures (item.name, failed) ++ committed_if success item.name)
      × (ns ≡ compensation_if success item)
      × (failures + count success ≤ attempts item.on_error)
      × (goes_on ≡ (success || skips item.on_error))
      × Attempted asyncio auth item current failures success w w'
  ItemTrace (parallel steps) goes_on evs ns w w' =
      (current : SagaData P) × (results : List (Result (Option (SagaData P)))) × (evs
        ≡ group_events steps results)
      × (ns ≡ group_compensations steps results)
      × (goes_on ≡ not (is_some (group_error steps results)))
      × (asyncio.gather (map (λ item. invoke_step_action asyncio auth item current) steps) w
          ≡ (returned results, w'))

-- Items that were executed one after the other, none of them ending the saga.
pub data Forward {P W : Type 0} (asyncio : Asyncio P W) (auth : SagaAuthExecutionContext W)
    : List (NormalizedItem P W) → List Event → List (CompensableStep P W) → W → W → Type 0 where
  nothing : (w : W) → Forward asyncio auth [] [] [] w w
  next :
      {item : NormalizedItem P W} {items : List (NormalizedItem P W)} (evs evs' : List Event)
      (ns ns' : List (CompensableStep P W)) (w w1 w2 : W)
      → ItemTrace asyncio auth item true evs ns w w1
      → Forward asyncio auth items evs' ns' w1 w2
      → Forward asyncio auth (item ∷ items) (evs ++ evs') (ns ++ ns') w w2

-- The events and compensations of an executed item, and what the executor has of them.
pub record Executed {P W : Type 0} (asyncio : Asyncio P W) (auth : SagaAuthExecutionContext W)
    (item : NormalizedItem P W) (goes_on : Bool) (s s' : Executor P W) : Type 0 where
  pub evs : List Event
  pub ns : List (CompensableStep P W)
  pub trace : ItemTrace asyncio auth item goes_on evs ns s.world s'.world
  pub events_eq : events s'.history ≡ events s.history ++ evs
  pub compensable_eq : s'.compensable ≡ s.compensable ++ ns

module _ {P W : Type 0} (asyncio : Asyncio P W) (auth : SagaAuthExecutionContext W)
    (handler : Option (Callable P W)) where
  fits-goes_on :
      (item : NormalizedStep P W) (success : Bool) (failure : Failure)
      → OutcomeFits item success (returned failure)
      → not (is_some failure) ≡ (success || skips item.on_error)
  fits-goes_on item success none fits = ground arith
  fits-goes_on item success (some (n, e)) fits = ground arith

  StepRun-Executed :
      (item : NormalizedStep P W) (s s' : Executor P W) (failure : Failure)
      → StepRun item
          (Attempted asyncio auth item s.saga_data)
          s
          s'
          (attempts item.on_error)
          (returned failure)
      → Executed asyncio auth (step item) (not (is_some failure)) s s'
  StepRun-Executed item s s' failure run = record {
    evs = _;
    ns = _;
    trace = (
      s.saga_data,
      run.failures,
      run.success,
      refl,
      refl,
      run.bounded,
      fits-goes_on item run.success failure run.fits,
      run.calls,
    );
    events_eq = run.events_eq;
    compensable_eq = run.compensable_eq;
  }

  not_cancelled :
      (cancelled : Bool) (error failure : Failure)
      → returned failure ≡ (if cancelled then raised cancelled_error else returned error)
      → failure ≡ error
  not_cancelled true error failure h = absurd (cc h)
  not_cancelled false error failure h = cc h

  -- An item that does not raise is executed as its contract says, and ends the saga exactly if it
  -- has a failure.
  pub execute_item-Executed :
      (item : NormalizedItem P W) (s : Executor P W) (failure : Failure)
      → (execute_item asyncio auth handler item s).0 ≡ returned failure
      → Executed asyncio auth item
          (not (is_some failure))
          s
          (execute_item asyncio auth handler item s).1
  unfolding execute_item
  execute_item-Executed (step item) s failure h =
      StepRun-Executed item s _ failure (rw h at (execute_serial_step-StepRun asyncio auth item s))
  execute_item-Executed (parallel steps) s failure h =
      elim (Result-cases
        (asyncio.gather (map (λ item. invoke_step_action asyncio auth item s.saga_data) steps)
          s.world).0) [
            | inr (e, broke) ↦ absurd (cc (h, execute_parallel-raised asyncio auth steps s e broke))
            | inl (results, gathered) ↦
                let (added, outcome) =
                  execute_parallel-Added asyncio auth steps s results gathered in
                record {
                  evs = group_events steps results;
                  ns = group_compensations steps results;
                  trace = (
                    s.saga_data,
                    results,
                    refl,
                    refl,
                    ap (λ f. not (is_some f))
                        (not_cancelled (group_cancelled steps results) (group_error steps results)
                          failure (sym h ∙ outcome)),
                    (λ i. (
                      gathered i,
                      sym (execute_parallel-world asyncio auth steps s results gathered) i,
                    )),
                  );
                  events_eq = added.events_eq;
                  compensable_eq = added.compensable_eq;
                }
          ]
