-- ===== src/Saga/Engine/Groups.antt =====
-- core/spakky-saga/src/spakky/saga/engine.py: what a parallel group leaves behind, read off the
-- results that `asyncio.gather` gives in the order of the steps.
use spakky_framework.Common.{
  ℕ, ◌≡◌, refl, sym, ap, ◌∙◌, if◌then◌else◌, Option, none, some, List, [], ◌∷◌, ◌++◌, map, arith,
  append_assoc, append-nil,
}
use spakky_framework.Effects.{Exn, cancelled_error, Result, returned, raised}
use spakky_framework.Saga.Strategy.{failed}
use spakky_framework.Saga.Flow.{SagaData}
use spakky_framework.Saga.Auth.{SagaAuthExecutionContext}
use spakky_framework.Saga.Engine.Normalize.{NormalizedStep}
use spakky_framework.Saga.Engine.State.{Asyncio, CompensableStep, Executor, record_step_failure}
use spakky_framework.Saga.Engine.Steps.{
  Failure, Settled, cancelled, succeeded, errored, classify, settle_one, collect_results,
  group_outcome, execute_parallel, invoke_step_action,
}
use spakky_framework.Saga.Engine.Trace.{
  Event, events, compensation_if, events-failure, events-commit, compensable-commit, data-commit,
  world-commit,
}
use spakky_framework.Saga.Engine.Settling.{
  settled_event, is_success, settled_error, settled_cancellation, or_else, was_cancelled,
  result_failure, group_events, group_compensations, group_error, group_cancelled, event-classify,
  success-classify, error-classify, cancellation_if, cancellation-classify, cancellation-or,
  outcome-if,
}

-- From `s` to `s'` these events and compensations were added, and the data stayed.
pub record Added {P W : Type 0} (evs : List Event) (ns : List (CompensableStep P W))
    (s s' : Executor P W) : Type 0 where
  pub events_eq : events s'.history ≡ events s.history ++ evs
  pub compensable_eq : s'.compensable ≡ s.compensable ++ ns
  pub data_eq : s'.saga_data ≡ s.saga_data

module _ {P W : Type 0} {s : Executor P W} where
  Added-nil : Added [] [] s s
  Added-nil = record {
    events_eq = sym (append-nil _);
    compensable_eq = sym (append-nil _);
    data_eq = refl;
  }

  Added-world :
      (w : W) {s' : Executor P W} {evs : List Event} {ns : List (CompensableStep P W)}
      → Added evs ns (record s { world = w }) s'
      → Added evs ns s s'
  Added-world w a = record {
    events_eq = a.events_eq;
    compensable_eq = a.compensable_eq;
    data_eq = a.data_eq;
  }

  Added-trans :
      {t u : Executor P W} {evs evs' : List Event} {ns ns' : List (CompensableStep P W)}
      → Added evs ns s t
      → Added evs' ns' t u
      → Added (evs ++ evs') (ns ++ ns') s u
  Added-trans {evs = evs} {ns = ns} a b = record {
    events_eq = b.events_eq ∙ rw a.events_eq (append_assoc _ evs _);
    compensable_eq = b.compensable_eq ∙ rw a.compensable_eq (append_assoc _ ns _);
    data_eq = b.data_eq ∙ a.data_eq;
  }

module _ {P W : Type 0} (asyncio : Asyncio P W) (auth : SagaAuthExecutionContext W) where
  Added-failure :
      (start : ℕ) (item : NormalizedStep P W) (s : Executor P W)
      → Added ((item.name, failed) ∷ []) [] s (record_step_failure asyncio item.name start s)
  unfolding record_step_failure
  Added-failure start item s = record {
    events_eq = events-failure asyncio item.name start s;
    compensable_eq = sym (append-nil _);
    data_eq = refl;
  }

  settle_one-Added :
      (start : ℕ) (item : NormalizedStep P W) (k : Settled) (found : Failure × Option Exn)
      (s : Executor P W)
      → Added
          (settled_event item.name k ∷ [])
          (compensation_if (is_success k) item)
          s
          (settle_one asyncio auth start item k found s).1
  unfolding settle_one
  settle_one-Added start item cancelled found s = Added-failure start item s
  settle_one-Added start item (errored e) found s = Added-failure start item s
  settle_one-Added start item succeeded found s = record {
    events_eq = events-commit asyncio item start s;
    compensable_eq = compensable-commit asyncio item start s;
    data_eq = data-commit asyncio item start s;
  }

  settle_one-found :
      (start : ℕ) (item : NormalizedStep P W) (k : Settled) (found : Failure × Option Exn)
      (s : Executor P W)
      → (settle_one asyncio auth start item k found s).0
        ≡ (or_else found.0 (settled_error item.name k), or_else found.1 (settled_cancellation k))
  unfolding settle_one
  settle_one-found start item cancelled (f, c) s = ground arith
  settle_one-found start item (errored e) (f, c) s = ground arith
  settle_one-found start item succeeded (f, c) s = ground arith

  pub collect_results-Added :
      (start : ℕ) (steps : List (NormalizedStep P W))
      (results : List (Result (Option (SagaData P)))) (found : Failure × Option Exn)
      (s : Executor P W)
      → Added
          (group_events steps results)
          (group_compensations steps results)
          s
          (collect_results asyncio auth start steps results found s).1
  unfolding collect_results group_events group_compensations
  collect_results-Added start [] results found s = Added-nil
  collect_results-Added start (item ∷ items) [] found s = Added-nil
  collect_results-Added start (item ∷ items) (r ∷ results) found s =
      Added-trans
        (rw (event-classify item.name r, success-classify r) at
          (settle_one-Added start item (classify r) found s))
        (collect_results-Added start items results _ _)

  or_else_assoc :
      {A : Type 0} (x y z : Option A) → or_else (or_else x y) z ≡ or_else x (or_else y z)
  or_else_assoc none y z = refl
  or_else_assoc (some x) y z = refl

  collect_results-found :
      (start : ℕ) (steps : List (NormalizedStep P W))
      (results : List (Result (Option (SagaData P)))) (found : Failure × Option Exn)
      (s : Executor P W)
      → (collect_results asyncio auth start steps results found s).0 ≡ (
        or_else found.0 (group_error steps results),
        or_else found.1 (cancellation_if (group_cancelled steps results)),
      )
  unfolding collect_results group_error group_cancelled
  collect_results-found start [] results (f, c) s = ground arith
  collect_results-found start (item ∷ items) [] (f, c) s = ground arith
  collect_results-found start (item ∷ items) (r ∷ results) (f, c) s =
      collect_results-found start items results _ _
      ∙ rw (settle_one-found, error-classify item.name r, cancellation-classify r)
          (λ i. (
            or_else_assoc f (result_failure item.name r) (group_error items results) i,
            (or_else_assoc c (cancellation_if (was_cancelled r))
                    (cancellation_if (group_cancelled items results))
                  ∙ ap (or_else c)
                      (cancellation-or (was_cancelled r) (group_cancelled items results)))
                i,
          ))

  settle_one-world :
      (start : ℕ) (item : NormalizedStep P W) (k : Settled) (found : Failure × Option Exn)
      (s : Executor P W)
      → (settle_one asyncio auth start item k found s).1.world ≡ s.world
  unfolding settle_one record_step_failure
  settle_one-world start item cancelled found s = refl
  settle_one-world start item (errored e) found s = refl
  settle_one-world start item succeeded found s = world-commit asyncio item start s

  collect_results-world :
      (start : ℕ) (steps : List (NormalizedStep P W))
      (results : List (Result (Option (SagaData P)))) (found : Failure × Option Exn)
      (s : Executor P W)
      → (collect_results asyncio auth start steps results found s).1.world ≡ s.world
  unfolding collect_results
  collect_results-world start [] results found s = refl
  collect_results-world start (item ∷ items) [] found s = refl
  collect_results-world start (item ∷ items) (r ∷ results) found s =
      collect_results-world start items results _ _
      ∙ settle_one-world start item (classify r) found s

  -- The calls of a group are made by `gather`, and nothing is called after it.
  pub execute_parallel-world :
      (steps : List (NormalizedStep P W)) (s : Executor P W)
      (results : List (Result (Option (SagaData P))))
      → (asyncio.gather
          (map (λ item. invoke_step_action asyncio auth item s.saga_data) steps)
          s.world).0
        ≡ returned results
      → (execute_parallel asyncio auth steps s).1.world
        ≡ (asyncio.gather
            (map (λ item. invoke_step_action asyncio auth item s.saga_data) steps)
            s.world).1
  unfolding execute_parallel
  execute_parallel-world steps s results gathered =
      rw (gathered, execute_parallel)
        (collect_results-world (asyncio.monotonic s.world) steps results (none, none) _)

  -- Once `gather` has returned, each step of the group is recorded in its declared order: as failed
  -- if its result is an Exception or a cancellation, and else as committed. The compensations of all
  -- that committed are remembered, also of those behind a failure. The data stays. If any step was
  -- cancelled, CancelledError is raised; else the first Exception, in the declared order, is the
  -- group's failure, under the name of its step, and the group has none if there is no Exception.
  pub execute_parallel-Added :
      (steps : List (NormalizedStep P W)) (s : Executor P W)
      (results : List (Result (Option (SagaData P))))
      → (asyncio.gather
          (map (λ item. invoke_step_action asyncio auth item s.saga_data) steps)
          s.world).0
        ≡ returned results
      → Added
          (group_events steps results)
          (group_compensations steps results)
          s
          (execute_parallel asyncio auth steps s).1
        × ((execute_parallel asyncio auth steps s).0 ≡ (
            if group_cancelled steps results
            then raised cancelled_error
            else returned (group_error steps results)))
  unfolding execute_parallel
  execute_parallel-Added steps s results gathered =
      rw (gathered, execute_parallel)
        (
          Added-world _
              (collect_results-Added (asyncio.monotonic s.world) steps results (none, none) _),
          ap group_outcome
                (collect_results-found (asyncio.monotonic s.world) steps results (none, none) _)
              ∙ outcome-if (group_error steps results) (group_cancelled steps results),
        )

  pub execute_parallel-raised :
      (steps : List (NormalizedStep P W)) (s : Executor P W) (e : Exn)
      → (asyncio.gather
          (map (λ item. invoke_step_action asyncio auth item s.saga_data) steps)
          s.world).0
        ≡ raised e
      → (execute_parallel asyncio auth steps s).0 ≡ raised e
  unfolding execute_parallel
  execute_parallel-raised steps s e gathered = rw (gathered, execute_parallel)
