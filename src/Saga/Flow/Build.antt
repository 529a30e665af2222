-- ===== src/Saga/Flow/Build.antt =====
-- core/spakky-saga/src/spakky/saga/flow.py: `step`, `parallel` and `saga_flow`.
use spakky_framework.Common.{ℕ, Option, none, some, List, [], ◌∷◌, ◌++◌, ltb, length, if◌then◌else◌}
use spakky_framework.Effects.{Result, returned, raised, saga_flow_definition}
use spakky_framework.Saga.Strategy.{ErrorStrategy}
use spakky_framework.Saga.Flow.{
  Callable, SagaStep, Child, saga_step, transaction, Parallel, FlowItem, single, group, SagaFlow,
  Compensation, resolve_compensate_fn,
}

resolve_on_error : Option ErrorStrategy → ErrorStrategy
resolve_on_error none = ErrorStrategy.compensate
resolve_on_error (some strategy) = strategy

module _ {P W : Type 0} where
  -- `SagaStep(action=item, auth_boundary=item)`, the promotion of a callable.
  unfoldable pub promote : Callable P W → SagaStep P W
  promote item = record {
    action = item;
    on_error = ErrorStrategy.compensate;
    timeout = none;
    auth_boundary = some item.object;
    auth_owner_type = none;
  }

  step_transaction :
      Callable P W → Result (Callable P W) → ErrorStrategy → Option ℕ → Result (Child P W)
  step_transaction action (returned fn) strategy timeout = returned (
      transaction (record {
        action = action;
        compensate = fn;
        on_error = strategy;
        timeout = timeout;
        action_auth_boundary = some action.object;
        action_auth_owner_type = none;
        compensate_auth_boundary = some fn.object;
        compensate_auth_owner_type = none;
      }))
  step_transaction action (raised e) strategy timeout = raised e

  unfoldable pub step :
      Callable P W
      → Option (Compensation P W)
      → Option ErrorStrategy
      → Option ℕ
      → Result (Child P W)
  unfolding step_transaction resolve_on_error
  step action none on_error timeout = returned (
      saga_step (record {
        action = action;
        on_error = resolve_on_error on_error;
        timeout = timeout;
        auth_boundary = some action.object;
        auth_owner_type = none;
      }))
  step action (some compensate) on_error timeout =
      step_transaction action (resolve_compensate_fn compensate) (resolve_on_error on_error) timeout

  unfoldable pub append_promoted :
      List (Child P W) → Result (List (Child P W)) → Result (List (Child P W))
  append_promoted xs (returned ys) = returned (xs ++ ys)
  append_promoted xs (raised e) = raised e

  -- The loop of `parallel`: what each argument adds to the group.
  unfoldable pub promote_all : List (FlowItem P W) → Result (List (Child P W))
  unfolding append_promoted promote
  promote_all [] = returned []
  promote_all (single c ∷ rest) = append_promoted (c ∷ []) (promote_all rest)
  promote_all (group g ∷ rest) = append_promoted g.items (promote_all rest)
  promote_all (FlowItem.function f ∷ rest) =
      append_promoted (saga_step (promote f) ∷ []) (promote_all rest)
  promote_all (FlowItem.other ∷ rest) = raised saga_flow_definition

  as_parallel : Result (List (Child P W)) → Result (Parallel P W)
  as_parallel (returned items) = returned (record { items = items })
  as_parallel (raised e) = raised e

  unfoldable pub parallel : List (FlowItem P W) → Result (Parallel P W)
  unfolding promote_all as_parallel
  parallel items =
      if ltb (length items) 2 then raised saga_flow_definition else as_parallel (promote_all items)

  unfoldable pub prepend :
      FlowItem P W → Result (List (FlowItem P W)) → Result (List (FlowItem P W))
  prepend x (returned xs) = returned (x ∷ xs)
  prepend x (raised e) = raised e

  -- The loop of `saga_flow`.
  unfoldable pub promote_items : List (FlowItem P W) → Result (List (FlowItem P W))
  unfolding prepend promote
  promote_items [] = returned []
  promote_items (FlowItem.function f ∷ rest) =
      prepend (single (saga_step (promote f))) (promote_items rest)
  promote_items (FlowItem.other ∷ rest) = raised saga_flow_definition
  promote_items (item ∷ rest) = prepend item (promote_items rest)

  unfoldable pub as_flow : Result (List (FlowItem P W)) → Result (SagaFlow P W)
  as_flow (returned items) =
      returned (record { items = items; saga_timeout = none; compensation_failure_handler = none })
  as_flow (raised e) = raised e

  unfoldable pub saga_flow : List (FlowItem P W) → Result (SagaFlow P W)
  unfolding promote_items as_flow
  saga_flow [] = raised saga_flow_definition
  saga_flow items = as_flow (promote_items items)
