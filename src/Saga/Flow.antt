-- ===== src/Saga/Flow.antt =====
-- core/spakky-saga/src/spakky/saga/data.py and flow.py: saga data, and how flows are written.
-- `P` is the payload that a subclass of AbstractSagaData adds, `W` the outside world.
pub mod Build
use spakky_framework.Common.{ℕ, String, Option, none, some, List, [], ◌∷◌, ◌++◌}
use spakky_framework.Effects.{Io, Result, returned, raised, saga_flow_definition}
use spakky_framework.Auth.Metadata.{AuthSource, Boundary}
use spakky_framework.Saga.Strategy.{ErrorStrategy}

pub record SagaData (P : Type 0) : Type 0 where
  pub saga_id : String
  pub auth_context_snapshot : Option String
  pub payload : P

-- A Python callable: its `__name__`, what a call does, and itself as an auth boundary. A result
-- that is no saga data is `none`.
pub record Callable (P W : Type 0) : Type 0 where
  pub dunder_name : Option String
  pub call : SagaData P → Io W (Option (SagaData P))
  pub object : Boundary

pub record SagaStep (P W : Type 0) : Type 0 where
  pub action : Callable P W
  pub on_error : ErrorStrategy
  pub timeout : Option ℕ
  pub auth_boundary : Option Boundary
  pub auth_owner_type : Option AuthSource

pub record Transaction (P W : Type 0) : Type 0 where
  pub action : Callable P W
  pub compensate : Callable P W
  pub on_error : ErrorStrategy
  pub timeout : Option ℕ
  pub action_auth_boundary : Option Boundary
  pub action_auth_owner_type : Option AuthSource
  pub compensate_auth_boundary : Option Boundary
  pub compensate_auth_owner_type : Option AuthSource

pub data Child (P W : Type 0) : Type 0 where
  saga_step : SagaStep P W → Child P W
  transaction : Transaction P W → Child P W

pub record Parallel (P W : Type 0) : Type 0 where
  pub items : List (Child P W)

-- What stands in a flow; `other` is an object that is none of these and cannot be called.
pub data FlowItem (P W : Type 0) : Type 0 where
  single : Child P W → FlowItem P W
  group : Parallel P W → FlowItem P W
  function : Callable P W → FlowItem P W
  other : FlowItem P W

pub record SagaFlow (P W : Type 0) : Type 0 where
  pub items : List (FlowItem P W)
  pub saga_timeout : Option ℕ
  pub compensation_failure_handler : Option (Callable P W)

-- The right operand of `>>`, and the `compensate=` argument of `step`.
pub data Compensation (P W : Type 0) : Type 0 where
  function : Callable P W → Compensation P W
  saga_step : SagaStep P W → Compensation P W
  other : Compensation P W

-- The right operand of `&`.
pub data Operand (P W : Type 0) : Type 0 where
  child : Child P W → Operand P W
  parallel_group : Parallel P W → Operand P W

module _ {P W : Type 0} where
  unfoldable pub resolve_compensate_fn : Compensation P W → Result (Callable P W)
  resolve_compensate_fn (saga_step s) = returned s.action
  resolve_compensate_fn (function f) = returned f
  resolve_compensate_fn other = raised saga_flow_definition

  -- SagaStep.__rshift__
  unfoldable pub rshift : SagaStep P W → Compensation P W → Result (Transaction P W)
  rshift self (saga_step s) = returned (record {
    action = self.action;
    compensate = s.action;
    on_error = self.on_error;
    timeout = self.timeout;
    action_auth_boundary = self.auth_boundary;
    action_auth_owner_type = self.auth_owner_type;
    compensate_auth_boundary = s.auth_boundary;
    compensate_auth_owner_type = s.auth_owner_type;
  })
  rshift self (function f) = returned (record {
    action = self.action;
    compensate = f;
    on_error = self.on_error;
    timeout = self.timeout;
    action_auth_boundary = self.auth_boundary;
    action_auth_owner_type = self.auth_owner_type;
    compensate_auth_boundary = some f.object;
    compensate_auth_owner_type = none;
  })
  rshift self other = raised saga_flow_definition

  -- SagaStep.__or__ and Transaction.__or__
  unfoldable pub or_strategy : Child P W → ErrorStrategy → Child P W
  or_strategy (saga_step s) strategy = saga_step (record s { on_error = strategy })
  or_strategy (transaction t) strategy = transaction (record t { on_error = strategy })

  -- `&` takes the items of a Parallel, and anything else as one item.
  unfoldable pub operand_items : Operand P W → List (Child P W)
  operand_items (child c) = c ∷ []
  operand_items (parallel_group g) = g.items

  -- SagaStep.__and__ and Transaction.__and__
  unfoldable pub child_and : Child P W → Operand P W → Parallel P W
  unfolding operand_items
  child_and self operand = record { items = self ∷ operand_items operand }

  -- Parallel.__and__
  unfoldable pub parallel_and : Parallel P W → Operand P W → Parallel P W
  unfolding operand_items
  parallel_and self operand = record { items = self.items ++ operand_items operand }

  -- SagaFlow.timeout and SagaFlow.on_compensation_failure
  unfoldable pub with_timeout : SagaFlow P W → ℕ → SagaFlow P W
  with_timeout flow duration = record flow { saga_timeout = some duration }

  unfoldable pub on_compensation_failure : SagaFlow P W → Callable P W → SagaFlow P W
  on_compensation_failure flow handler = record flow { compensation_failure_handler = some handler }
