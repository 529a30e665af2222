-- ===== src/Saga/Engine/Compensation.antt =====
-- core/spakky-saga/src/spakky/saga/engine.py: what `_run_compensation` does, whether it returns or
-- raises.
use mathlib.Core.List.{map-append}
use spakky_framework.Common.{
  ℕ, ◌≡◌, refl, sym, ap, ◌∙◌, true, false, inl, inr, Option, List, [], ◌∷◌, reverse, append_assoc,
  append-nil, Bool-cases,
}
use spakky_framework.Effects.{Exn, Result, returned, raised, is_exception, Result-cases}
use spakky_framework.Saga.Strategy.{failed, compensated}
use spakky_framework.Saga.Flow.{SagaData, Callable}
use spakky_framework.Saga.Auth.{SagaAuthExecutionContext}
use spakky_framework.Saga.Engine.State.{
  Asyncio, CompensableStep, Executor, record_step_failure, record_step_compensated,
}
use spakky_framework.Saga.Engine.Run.{
  attempt_compensation, escalate, compensate_one, compensate_each, run_compensation,
}
use spakky_framework.Saga.Engine.Undoing.{Called, Broke, Escalated, CompensationRun}
use spakky_framework.Saga.Engine.Attempts.{escalate_raises, attempt-Called, attempt-Broke}

module _ {P W : Type 0} (asyncio : Asyncio P W) (auth : SagaAuthExecutionContext W)
    (handler : Option (Callable P W)) where
  CompensationRun-cons :
      (start : ℕ) (w : W) (c : CompensableStep P W) {cs : List (CompensableStep P W)}
      {s s' : Executor P W} {result : Result (Unit {0})}
      → Called auth s.saga_data c s.world w
      → CompensationRun auth handler cs
          (record_step_compensated asyncio c.name start (record s { world = w }))
          s'
          result
      → CompensationRun auth handler (c ∷ cs) s s' result
  unfolding record_step_compensated
  CompensationRun-cons start w c {s = s} called run = record {
    done = c ∷ run.done;
    rest = run.rest;
    last = run.last;
    between = run.between;
    calls = (w, called, run.calls);
    split = ap (λ l. c ∷ l) run.split;
    events_eq = run.events_eq ∙ rw map-append (append_assoc _ ((c.name, compensated) ∷ []) _);
    data_eq = run.data_eq;
    compensable_eq = run.compensable_eq;
    ended = run.ended;
  }

  -- The first of the compensations broke with `e`.
  CompensationRun-broken :
      (start : ℕ) (w w' : W) (c : CompensableStep P W) (cs : List (CompensableStep P W))
      (s : Executor P W) (e x : Exn)
      → Broke auth s.saga_data c s.world e w
      → is_exception e ≡ true
      → Escalated auth s.saga_data handler w x w'
      → CompensationRun auth handler
          (c ∷ cs)
          s
          (record (record_step_failure asyncio c.name start (record s { world = w })) {
            world = w';
          })
          (raised x)
  unfolding record_step_failure
  CompensationRun-broken start w w' c cs s e x broke caught escalates = record {
    done = [];
    rest = c ∷ cs;
    between = s.world;
    calls = refl;
    last = (c.name, failed) ∷ [];
    split = refl;
    events_eq = rw map-append;
    data_eq = refl;
    compensable_eq = refl;
    ended = (c, cs, e, w, refl, broke, inr (caught, refl, escalates));
  }

  CompensationRun-cancelled :
      (w : W) (c : CompensableStep P W) (cs : List (CompensableStep P W)) (s : Executor P W)
      (e : Exn)
      → Broke auth s.saga_data c s.world e w
      → is_exception e ≡ false
      → CompensationRun auth handler (c ∷ cs) s (record s { world = w }) (raised e)
  CompensationRun-cancelled w c cs s e broke passed = record {
    done = [];
    rest = c ∷ cs;
    between = s.world;
    calls = refl;
    last = [];
    split = refl;
    events_eq = sym (append-nil _);
    data_eq = refl;
    compensable_eq = refl;
    ended = (c, cs, e, w, refl, broke, inl (passed, refl, refl, refl));
  }

  -- The three ends of one compensation.
  module _ (c : CompensableStep P W) (s : Executor P W) where
    abbrev attempt : Result (Option (SagaData P)) × W
    attempt = attempt_compensation asyncio auth handler c s.saga_data s.world

    abbrev failing : Executor P W
    failing =
        record_step_failure asyncio c.name (asyncio.monotonic s.world)
          (record s { world = attempt.1 })

    compensate_one-returned :
        (r : Option (SagaData P))
        → attempt.0 ≡ returned r
        → compensate_one asyncio auth handler c s ≡ (
          returned tt,
          record_step_compensated asyncio c.name
              (asyncio.monotonic s.world)
              (record s { world = attempt.1 }),
        )
    unfolding compensate_one
    compensate_one-returned r e = rw (e, compensate_one)

    compensate_one-passed :
        (x : Exn)
        → attempt.0 ≡ raised x
        → is_exception x ≡ false
        → compensate_one asyncio auth handler c s ≡ (raised x, record s { world = attempt.1 })
    unfolding compensate_one
    compensate_one-passed x e passed = rw (e, passed, compensate_one)

    compensate_one-caught :
        (x : Exn)
        → attempt.0 ≡ raised x
        → is_exception x ≡ true
        → compensate_one asyncio auth handler c s ≡ escalate asyncio auth handler handler failing
    unfolding compensate_one
    compensate_one-caught x e caught = rw (e, caught, compensate_one)

  compensate_each-CompensationRun :
      (cs : List (CompensableStep P W)) (s : Executor P W)
      → CompensationRun auth handler cs s
          (compensate_each asyncio auth handler cs s).1
          (compensate_each asyncio auth handler cs s).0
  unfolding compensate_each record_step_failure attempt_compensation
  compensate_each-CompensationRun [] s = record {
    done = [];
    rest = [];
    between = s.world;
    calls = refl;
    last = [];
    split = refl;
    events_eq = sym (append-nil _);
    data_eq = refl;
    compensable_eq = refl;
    ended = (refl, refl, refl);
  }
  compensate_each-CompensationRun (c ∷ cs) s = elim (Result-cases (attempt c s).0) [
    | inl (r, returns) ↦
        let step = compensate_one-returned c s r returns in
        rw (step, compensate_each)
          (rw step (
            CompensationRun-cons (asyncio.monotonic s.world) (attempt c s).1 c
              (attempt-Called asyncio auth handler c s.saga_data s.world r returns)
              (compensate_each-CompensationRun cs _)))
    | inr (e, breaks) ↦ elim (Bool-cases (is_exception e)) [
      | inr passed ↦
          let step = compensate_one-passed c s e breaks passed in
          rw (step, compensate_each)
            (rw step (
              CompensationRun-cancelled (attempt c s).1 c cs s e
                (attempt-Broke asyncio auth handler c s.saga_data s.world e breaks) passed))
      | inl caught ↦
          let (e', w', escalates, escalated) =
            escalate_raises asyncio auth handler handler (failing c s) in
          let step = compensate_one-caught c s e breaks caught ∙ escalates in
          rw (step, compensate_each)
            (rw step (
              CompensationRun-broken (asyncio.monotonic s.world) (attempt c s).1 w' c cs s e e'
                (attempt-Broke asyncio auth handler c s.saga_data s.world e breaks) caught
                escalated))
    ]
  ]

  -- The compensations run in the reverse order of the commits: each is authorized and called with the
  -- saga's data, in the world where the call before it ended, and recorded if it returned. The first
  -- that raises ends them, and no later one is called. A cancellation is raised again; an Exception
  -- is recorded as a failure, and after the handler, if there is one, the failure of the compensation
  -- is raised, or what the handler raised. The saga's data and its list of compensations stay.
  pub run_compensation-CompensationRun :
      (s : Executor P W)
      → CompensationRun auth handler
          (reverse s.compensable)
          s
          (run_compensation asyncio auth handler s).1
          (run_compensation asyncio auth handler s).0
  unfolding run_compensation
  run_compensation-CompensationRun s = compensate_each-CompensationRun (reverse s.compensable) s
