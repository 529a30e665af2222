-- ===== src/Saga/Strategy.antt =====
-- core/spakky-saga/src/spakky/saga/strategy.py, status.py and result.py. Delays are whole ticks.
use spakky_framework.Common.{ℕ, ◌-◌, ◌*◌, ◌^◌, String, Option, List}
use spakky_framework.Effects.{Exn}

pub data Then : Type 0 where
  compensate skip : Then

pub record ExponentialBackoff : Type 0 where
  pub base : ℕ

-- `attempt` is at least 1.
unfoldable pub delay_for : ExponentialBackoff → ℕ → ℕ
delay_for backoff attempt = backoff.base * 2 ^ (attempt - 1)

pub record Retry : Type 0 where
  pub max_attempts : ℕ
  pub backoff : ExponentialBackoff
  pub and_then : Then

pub data ErrorStrategy : Type 0 where
  compensate skip : ErrorStrategy
  retry : Retry → ErrorStrategy

pub data SagaStatus : Type 0 where
  started running compensating completed failed timed_out : SagaStatus

pub data StepStatus : Type 0 where
  committed failed compensated : StepStatus

pub record StepRecord : Type 0 where
  pub name : String
  pub status : StepStatus
  pub elapsed : ℕ

pub record SagaResult (D : Type 0) : Type 0 where
  pub status : SagaStatus
  pub result_data : D
  pub failed_step : Option String
  pub error : Option Exn
  pub history : List StepRecord
  pub elapsed : ℕ
