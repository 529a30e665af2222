-- ===== src/Saga/Engine/State.antt =====
-- core/spakky-saga/src/spakky/saga/engine.py: the fields of SagaExecutor that a run changes, and
-- the methods that record what happened. Logging is left out.
use spakky_framework.Common.{ℕ, ◌-◌, String, Bool, Option, none, some, List, [], ◌∷◌, ◌++◌}
use spakky_framework.Effects.{Exn, Result, Io}
use spakky_framework.Auth.Metadata.{AuthSource, Boundary}
use spakky_framework.Saga.Strategy.{StepRecord, StepStatus, committed, failed, compensated}
use spakky_framework.Saga.Flow.{SagaData, Callable}
use spakky_framework.Saga.Engine.Normalize.{NormalizedStep}

-- asyncio and time, which the repository only calls. `monotonic` is the clock's reading;
-- `exit_timeout d w w'` is what `asyncio.timeout(d)`, entered at `w`, turns an exception into that
-- leaves its body at `w'`, and `expired d w w'` is what `expired()` says then. `gather` is
-- `asyncio.gather(..., return_exceptions=True)`.
pub record Asyncio (P W : Type 0) : Type 0 where
  pub monotonic : W → ℕ
  pub sleep : ℕ → Io W (Unit {0})
  pub expired : ℕ → W → W → Bool
  pub exit_timeout : ℕ → W → W → Exn → Exn
  pub gather : List (Io W (Option (SagaData P))) → Io W (List (Result (Option (SagaData P))))

pub record CompensableStep (P W : Type 0) : Type 0 where
  pub name : String
  pub compensate : Callable P W
  pub auth_boundary : Option Boundary
  pub auth_owner_type : Option AuthSource

pub record Executor (P W : Type 0) : Type 0 where
  pub saga_data : SagaData P
  pub compensable : List (CompensableStep P W)
  pub history : List StepRecord
  pub saga_start : ℕ
  pub world : W

-- `current` is the data that `data'` replaces.
unfoldable pub preserve_auth_context_snapshot : {P : Type 0} → SagaData P → SagaData P → SagaData P
preserve_auth_context_snapshot current data' = elim data'.auth_context_snapshot [
  | some _ ↦ data'
  | none ↦ elim current.auth_context_snapshot [
    | none ↦ data'
    | some s ↦ record data' { auth_context_snapshot = some s }
  ]
]

module _ {P W : Type 0} where
  unfoldable pub remember : Option (Callable P W) → NormalizedStep P W → Executor P W → Executor P W
  remember none item s = s
  remember (some fn) item s = record s {
    compensable =
        s.compensable
        ++ record {
          name = item.name;
          compensate = fn;
          auth_boundary = item.compensate_auth_boundary;
          auth_owner_type = item.compensate_auth_owner_type;
        }
          ∷ [];
  }

  unfoldable pub remember_compensable : NormalizedStep P W → Executor P W → Executor P W
  unfolding remember
  remember_compensable item s = remember item.compensate item s

  -- `if isinstance(result, AbstractSagaData): self._data = …`
  unfoldable pub replace_data : Option (SagaData P) → Executor P W → Executor P W
  unfolding preserve_auth_context_snapshot
  replace_data none s = s
  replace_data (some new) s = record s {
    saga_data = preserve_auth_context_snapshot s.saga_data new;
  }

module _ {P W : Type 0} (asyncio : Asyncio P W) where
  unfoldable pub record_status : String → StepStatus → ℕ → Executor P W → Executor P W
  record_status name status start s = record s {
    history =
        s.history
        ++ record { name = name; status = status; elapsed = asyncio.monotonic s.world - start }
          ∷ [];
  }

  unfoldable pub record_step_committed : String → ℕ → Executor P W → Executor P W
  unfolding record_status
  record_step_committed name start s = record_status name committed start s

  unfoldable pub record_step_failure : String → ℕ → Executor P W → Executor P W
  unfolding record_status
  record_step_failure name start s = record_status name failed start s

  unfoldable pub record_step_compensated : String → ℕ → Executor P W → Executor P W
  unfolding record_status
  record_step_compensated name start s = record_status name compensated start s

  -- A step committed: its record, and its compensation remembered.
  unfoldable pub commit : NormalizedStep P W → ℕ → Executor P W → Executor P W
  unfolding record_step_committed remember_compensable
  commit item start s = remember_compensable item (record_step_committed item.name start s)
