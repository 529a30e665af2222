-- ===== src/Saga/Engine/Retries.antt =====
-- core/spakky-saga/src/spakky/saga/engine.py: a serial step with its retries meets its contract.
use spakky_framework.Common.{
  ℕ, zero, suc, ◌+◌, ◌-◌, ◌≤◌, ◌≡◌, refl, subst, sym, ap, ◌∙◌, Bool, true, false, inl, inr, Option,
  none, some, [], ◌∷◌, arith, append_assoc, append-nil, Bool-cases,
}
use spakky_framework.Effects.{Exn, Result, returned, is_exception, Result-cases}
use spakky_framework.Saga.Strategy.{failed, ErrorStrategy, Retry, retry, delay_for}
use spakky_framework.Saga.Flow.{SagaData}
use spakky_framework.Saga.Auth.{SagaAuthExecutionContext}
use spakky_framework.Saga.Engine.Normalize.{NormalizedStep}
use spakky_framework.Saga.Engine.State.{
  Asyncio, Executor, replace_data, record_step_failure, commit,
}
use spakky_framework.Saga.Engine.Steps.{
  Failure, apply_then, failure_of, retry_loop, apply_strategy, execute_serial_step,
  invoke_step_action,
}
use spakky_framework.Saga.Engine.Invoking.{
  Retried, Later, Attempted, invoke_step_action-Succeeded, invoke_step_action-Tried,
}
use spakky_framework.Saga.Engine.Trace.{
  world-commit, events, attempts, retries, skips, OutcomeFits, StepRun, events-failure,
  events-commit, compensable-commit,
}

module _ {P W : Type 0} (asyncio : Asyncio P W) (auth : SagaAuthExecutionContext W)
    (item : NormalizedStep P W) where
  -- One more failure before a run.
  StepRun-failure :
      (start : ℕ) (s : Executor P W) (w : W) {s' : Executor P W} (limit : ℕ)
      {outcome : Result Failure} (Calls Rest : ℕ → Bool → W → W → Type 0)
      → ((n : ℕ) (success : Bool)
          → Rest n success w s'.world
          → Calls (suc n) success s.world s'.world)
      → StepRun item Rest
          (record_step_failure asyncio item.name start (record s { world = w }))
          s'
          limit
          outcome
      → StepRun item Calls s s' (suc limit) outcome
  unfolding record_step_failure
  StepRun-failure start s w limit Calls Rest before run = record {
    failures = suc run.failures;
    success = run.success;
    events_eq =
        run.events_eq
        ∙ rw (events-failure asyncio item.name start (record s { world = w }))
            (append_assoc (events s.history) ((item.name, failed) ∷ []) _);
    compensable_eq = run.compensable_eq;
    calls = before run.failures run.success run.calls;
    bounded = omega arith;
    fits = run.fits;
  }

  StepRun-commit :
      (start limit : ℕ) (r : Option (SagaData P)) (s : Executor P W) (w : W)
      (Calls : ℕ → Bool → W → W → Type 0)
      → 1 ≤ limit
      → Calls 0 true s.world w
      → StepRun item Calls s
          (commit asyncio item start (replace_data r (record s { world = w })))
          limit
          (returned none)
  unfolding replace_data
  StepRun-commit start limit none s w Calls h called = record {
    failures = 0;
    success = true;
    events_eq = events-commit asyncio item start _;
    compensable_eq = compensable-commit asyncio item start _;
    calls = subst (Calls 0 true s.world) (sym (world-commit asyncio item start _)) called;
    bounded = omega arith;
    fits = inl refl;
  }
  StepRun-commit start limit (some d) s w Calls h called = record {
    failures = 0;
    success = true;
    events_eq = events-commit asyncio item start _;
    compensable_eq = compensable-commit asyncio item start _;
    calls = subst (Calls 0 true s.world) (sym (world-commit asyncio item start _)) called;
    bounded = omega arith;
    fits = inl refl;
  }

  -- Nothing more happened: the events and the compensations are those before.
  StepRun-stop :
      (limit : ℕ) {s s' : Executor P W} (outcome : Result Failure)
      (Calls : ℕ → Bool → W → W → Type 0)
      → Calls 0 false s.world s'.world
      → s'.history ≡ s.history
      → s'.compensable ≡ s.compensable
      → OutcomeFits item false outcome
      → StepRun item Calls s s' limit outcome
  StepRun-stop limit outcome Calls called same_history same_compensable fits = record {
    failures = 0;
    success = false;
    events_eq = ap events same_history ∙ sym (append-nil _);
    compensable_eq = same_compensable ∙ sym (append-nil _);
    calls = called;
    bounded = omega arith;
    fits = fits;
  }

  retry_loop-StepRun :
      (how : Retry)
      → item.on_error ≡ retry how
      → (rounds attempt : ℕ) (last_error : Exn) (s : Executor P W)
      → StepRun item
          (Retried asyncio auth item s.saga_data how attempt)
          s
          (retry_loop asyncio auth item how rounds attempt last_error s).1
          rounds
          (failure_of item.name (retry_loop asyncio auth item how rounds attempt last_error s).0)
  unfolding retry_loop failure_of apply_then record_step_failure
  retry_loop-StepRun how e zero attempt last_error s =
      StepRun-stop 0 _ _ (inl refl) refl refl (ground (arith, e))
  retry_loop-StepRun how e (suc rounds) attempt last_error s =
      let Calls = Retried asyncio auth item s.saga_data how attempt in
      let delay = asyncio.sleep (delay_for how.backoff (attempt - 1)) s.world in
      let w = delay.1 in
      let w' = (invoke_step_action asyncio auth item s.saga_data w).1 in
      elim (Result-cases delay.0) [
        | inr (x, slept) ↦
            rw (slept, retry_loop)
              (StepRun-stop (suc rounds) _ Calls (inr (inl (x, λ i. (slept i, w)))) refl refl refl)
        | inl (x, slept) ↦
            elim (Result-cases (invoke_step_action asyncio auth item s.saga_data w).0) [
              | inl (r, done) ↦
                  rw (slept, done, retry_loop)
                    (StepRun-commit (asyncio.monotonic w) (suc rounds) r s w' Calls (omega arith) (
                      x,
                      w,
                      r,
                      (λ i. (slept i, w)),
                      invoke_step_action-Succeeded asyncio auth item s.saga_data w r done,
                    ))
              | inr (x', broke) ↦
                  let tried = invoke_step_action-Tried asyncio auth item s.saga_data w x' broke in
                  elim (Bool-cases (is_exception x')) [
                    | inl caught ↦
                        rw (slept, broke, caught, retry_loop)
                          (StepRun-failure (asyncio.monotonic w) s w' rounds Calls
                            (Retried asyncio auth item s.saga_data how (attempt + 1))
                            (λ n success later. (x, w, w', (λ i. (slept i, w)), tried, later))
                            (retry_loop-StepRun how e rounds (attempt + 1) x' _))
                    | inr passed ↦
                        rw (slept, broke, passed, retry_loop)
                          (StepRun-stop (suc rounds) _ Calls
                            (inr (inr (x, w, (λ i. (slept i, w)), tried))) refl refl refl)
                  ]
            ]
      ]

  apply_strategy-StepRun :
      (strategy : ErrorStrategy)
      → item.on_error ≡ strategy
      → (x : Exn) (s : Executor P W)
      → StepRun item
          (Later asyncio auth item s.saga_data strategy)
          s
          (apply_strategy asyncio auth item strategy x s).1
          (retries strategy)
          (failure_of item.name (apply_strategy asyncio auth item strategy x s).0)
  unfolding apply_strategy failure_of
  apply_strategy-StepRun ErrorStrategy.skip e x s =
      StepRun-stop 0 _ _ (refl, refl, refl) refl refl (inr (ap skips e))
  apply_strategy-StepRun ErrorStrategy.compensate e x s =
      StepRun-stop 0 _ _ (refl, refl, refl) refl refl (refl, refl, ap skips e)
  apply_strategy-StepRun (retry how) e x s = retry_loop-StepRun how e (how.max_attempts - 1) 2 x s

  pub execute_serial_step-StepRun :
      (s : Executor P W)
      → StepRun item
          (Attempted asyncio auth item s.saga_data)
          s
          (execute_serial_step asyncio auth item s).1
          (attempts item.on_error)
          (execute_serial_step asyncio auth item s).0
  unfolding execute_serial_step record_step_failure
  execute_serial_step-StepRun s =
      let Calls = Attempted asyncio auth item s.saga_data in
      let w' = (invoke_step_action asyncio auth item s.saga_data s.world).1 in
      elim (Result-cases (invoke_step_action asyncio auth item s.saga_data s.world).0) [
        | inl (r, done) ↦
            rw (done, execute_serial_step)
              (StepRun-commit (asyncio.monotonic s.world) (attempts item.on_error) r s w' Calls
                (omega arith)
                (r, invoke_step_action-Succeeded asyncio auth item s.saga_data s.world r done))
        | inr (x, broke) ↦
            let tried = invoke_step_action-Tried asyncio auth item s.saga_data s.world x broke in
            elim (Bool-cases (is_exception x)) [
              | inl caught ↦
                  rw (broke, caught, execute_serial_step)
                    (StepRun-failure (asyncio.monotonic s.world) s w' (retries item.on_error) Calls
                      (Later asyncio auth item s.saga_data item.on_error)
                      (λ n success later. (w', tried, later))
                      (apply_strategy-StepRun item.on_error refl x _))
              | inr passed ↦
                  rw (broke, passed, execute_serial_step)
                    (StepRun-stop (attempts item.on_error) _ Calls tried refl refl refl)
            ]
      ]
