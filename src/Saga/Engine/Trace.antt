-- ===== src/Saga/Engine/Trace.antt =====
-- The history of a saga (core/spakky-saga/src/spakky/saga/result.py) as a journal of events: which
-- step, and how it ended, without the times. `StepRun` is the contract of one serial step of
-- engine.py, and `attempts` the number of attempts that its strategy allows.
use mathlib.Core.List.{map-append}
use spakky_framework.Common.{
  ℕ, suc, ◌+◌, ◌-◌, ◌≤◌, String, ◌≡◌, refl, sym, Bool, true, false, ◌⊎◌, Option, none, some, List,
  [], ◌∷◌, ◌++◌, map, replicate, append-nil,
}
use spakky_framework.Effects.{Result, returned, raised}
use spakky_framework.Saga.Strategy.{
  StepRecord, StepStatus, committed, failed, compensated, ErrorStrategy, Then, retry,
}
use spakky_framework.Saga.Flow.{Callable}
use spakky_framework.Saga.Engine.Normalize.{NormalizedStep}
use spakky_framework.Saga.Engine.State.{
  Asyncio, CompensableStep, Executor, remember, record_step_failure, record_step_committed, commit,
}
use spakky_framework.Saga.Engine.Steps.{Failure}

abbrev pub Event : Type 0
Event = String × StepStatus

abbrev pub event_of : StepRecord → Event
event_of r = (r.name, r.status)

abbrev pub events : List StepRecord → List Event
events history = map event_of history

abbrev pub compensations : List String → List Event
compensations ns = map (λ n. (n, compensated)) ns

abbrev pub is_some : {A : Type 0} → Option A → Bool
is_some none = false
is_some (some _) = true

abbrev pub committed_if : Bool → String → List Event
committed_if true name = (name, committed) ∷ []
committed_if false name = []

-- Attempts that a strategy allows after the first.
abbrev pub retries : ErrorStrategy → ℕ
retries (retry how) = how.max_attempts - 1
retries _ = 0

abbrev pub attempts : ErrorStrategy → ℕ
attempts strategy = suc (retries strategy)

-- Whether the last failure of a step is skipped.
abbrev pub skips : ErrorStrategy → Bool
skips ErrorStrategy.skip = true
skips ErrorStrategy.compensate = false
skips (retry how) = elim how.and_then [ Then.skip ↦ true | Then.compensate ↦ false ]

abbrev pub count : Bool → ℕ
count true = 1
count false = 0

module _ {P W : Type 0} where
  abbrev pub names : List (CompensableStep P W) → List String
  names cs = map (λ c. c.name) cs

  abbrev pub compensation_steps :
      Option (Callable P W) → NormalizedStep P W → List (CompensableStep P W)
  compensation_steps none item = []
  compensation_steps (some fn) item =
      record {
        name = item.name;
        compensate = fn;
        auth_boundary = item.compensate_auth_boundary;
        auth_owner_type = item.compensate_auth_owner_type;
      }
      ∷ []

  abbrev pub compensation_if : Bool → NormalizedStep P W → List (CompensableStep P W)
  compensation_if false item = []
  compensation_if true item = compensation_steps item.compensate item

  -- How the outcome of a step tells whether it committed.
  abbrev pub OutcomeFits : NormalizedStep P W → Bool → Result Failure → Type 0
  OutcomeFits item success (raised e) = success ≡ false
  OutcomeFits item success (returned none) = (success ≡ true) ⊎ (skips item.on_error ≡ true)
  OutcomeFits item success (returned (some (name, e))) =
      (success ≡ false) × (name ≡ item.name) × (skips item.on_error ≡ false)

-- From `s` to `s'` the step failed `failures` times and then committed, if `success`; its
-- compensation is remembered exactly then. `Calls` says which calls that takes.
pub record StepRun {P W : Type 0} (item : NormalizedStep P W) (Calls : ℕ → Bool → W → W → Type 0)
    (s s' : Executor P W) (limit : ℕ) (outcome : Result Failure) : Type 0 where
  pub failures : ℕ
  pub success : Bool
  pub events_eq :
      events s'.history
      ≡ events s.history
        ++ (replicate failures (item.name, failed) ++ committed_if success item.name)
  pub compensable_eq : s'.compensable ≡ s.compensable ++ compensation_if success item
  pub calls : Calls failures success s.world s'.world
  pub bounded : failures + count success ≤ limit
  pub fits : OutcomeFits item success outcome

module _ {P W : Type 0} where
  history-remember :
      (c : Option (Callable P W)) (item : NormalizedStep P W) (s : Executor P W)
      → (remember c item s).history ≡ s.history
  unfolding remember
  history-remember none item s = refl
  history-remember (some fn) item s = refl

  data-remember :
      (c : Option (Callable P W)) (item : NormalizedStep P W) (s : Executor P W)
      → (remember c item s).saga_data ≡ s.saga_data
  unfolding remember
  data-remember none item s = refl
  data-remember (some fn) item s = refl

  world-remember :
      (c : Option (Callable P W)) (item : NormalizedStep P W) (s : Executor P W)
      → (remember c item s).world ≡ s.world
  unfolding remember
  world-remember none item s = refl
  world-remember (some fn) item s = refl

  compensable-remember :
      (c : Option (Callable P W)) (item : NormalizedStep P W) (s : Executor P W)
      → (remember c item s).compensable ≡ s.compensable ++ compensation_steps c item
  unfolding remember
  compensable-remember none item s = sym (append-nil s.compensable)
  compensable-remember (some fn) item s = refl

module _ {P W : Type 0} (asyncio : Asyncio P W) where
  pub events-failure :
      (name : String) (start : ℕ) (s : Executor P W)
      → events (record_step_failure asyncio name start s).history
        ≡ events s.history ++ (name, failed) ∷ []
  unfolding record_step_failure
  events-failure name start s = rw map-append

  pub events-commit :
      (item : NormalizedStep P W) (start : ℕ) (s : Executor P W)
      → events (commit asyncio item start s).history
        ≡ events s.history ++ (item.name, committed) ∷ []
  unfolding commit
  events-commit item start s = rw history-remember (rw map-append)

  pub compensable-commit :
      (item : NormalizedStep P W) (start : ℕ) (s : Executor P W)
      → (commit asyncio item start s).compensable ≡ s.compensable ++ compensation_if true item
  unfolding commit
  compensable-commit item start s =
      compensable-remember item.compensate item (record_step_committed asyncio item.name start s)

  pub data-commit :
      (item : NormalizedStep P W) (start : ℕ) (s : Executor P W)
      → (commit asyncio item start s).saga_data ≡ s.saga_data
  unfolding commit
  data-commit item start s =
      data-remember item.compensate item (record_step_committed asyncio item.name start s)

  pub world-commit :
      (item : NormalizedStep P W) (start : ℕ) (s : Executor P W)
      → (commit asyncio item start s).world ≡ s.world
  unfolding commit
  world-commit item start s =
      world-remember item.compensate item (record_step_committed asyncio item.name start s)
