-- ===== src/Saga/Engine/Normalize.antt =====
-- core/spakky-saga/src/spakky/saga/engine.py: `_normalize`, `_normalize_step` and
-- `_normalize_parallel`.
use spakky_framework.Common.{
  String, Bool, true, false, Option, none, some, List, [], ◌∷◌, ℕ, if◌then◌else◌,
}
use spakky_framework.Effects.{Result, returned, raised, saga_flow_definition}
use spakky_framework.Auth.Metadata.{AuthSource, Boundary}
use spakky_framework.Saga.Strategy.{ErrorStrategy}
use spakky_framework.Saga.Flow.{Callable, Child, saga_step, transaction, FlowItem, single, group}

pub record NormalizedStep (P W : Type 0) : Type 0 where
  pub name : String
  pub action : Callable P W
  pub compensate : Option (Callable P W)
  pub on_error : ErrorStrategy
  pub step_timeout : Option ℕ
  pub auth_boundary : Option Boundary
  pub auth_owner_type : Option AuthSource
  pub compensate_auth_boundary : Option Boundary
  pub compensate_auth_owner_type : Option AuthSource

pub data NormalizedItem (P W : Type 0) : Type 0 where
  step : NormalizedStep P W → NormalizedItem P W
  parallel : List (NormalizedStep P W) → NormalizedItem P W

unfoldable pub is_compensate : ErrorStrategy → Bool
is_compensate ErrorStrategy.compensate = true
is_compensate _ = false

-- `getattr(f, "__name__", "<unknown>")`
abbrev pub name_or_unknown : Option String → String
name_or_unknown none = "<unknown>"
name_or_unknown (some name) = name

module _ {P W : Type 0} where
  unfoldable pub normalize_step : Child P W → NormalizedStep P W
  normalize_step (saga_step s) = record {
    name = name_or_unknown s.action.dunder_name;
    action = s.action;
    compensate = none;
    on_error = s.on_error;
    step_timeout = s.timeout;
    auth_boundary = s.auth_boundary;
    auth_owner_type = s.auth_owner_type;
    compensate_auth_boundary = none;
    compensate_auth_owner_type = none;
  }
  normalize_step (transaction t) = record {
    name = name_or_unknown t.action.dunder_name;
    action = t.action;
    compensate = some t.compensate;
    on_error = t.on_error;
    step_timeout = t.timeout;
    auth_boundary = t.action_auth_boundary;
    auth_owner_type = t.action_auth_owner_type;
    compensate_auth_boundary = t.compensate_auth_boundary;
    compensate_auth_owner_type = t.compensate_auth_owner_type;
  }

  -- A bare callable in the items of a flow.
  unfoldable pub normalize_function : Callable P W → NormalizedStep P W
  normalize_function item = record {
    name = name_or_unknown item.dunder_name;
    action = item;
    compensate = none;
    on_error = ErrorStrategy.compensate;
    step_timeout = none;
    auth_boundary = some item.object;
    auth_owner_type = none;
    compensate_auth_boundary = none;
    compensate_auth_owner_type = none;
  }

  unfoldable pub cons_step :
      NormalizedStep P W → Result (List (NormalizedStep P W)) → Result (List (NormalizedStep P W))
  cons_step x (returned xs) = returned (x ∷ xs)
  cons_step x (raised e) = raised e

  unfoldable pub normalize_children : List (Child P W) → Result (List (NormalizedStep P W))
  unfolding is_compensate cons_step
  normalize_children [] = returned []
  normalize_children (c ∷ rest) =
      if is_compensate (normalize_step c).on_error
      then cons_step (normalize_step c) (normalize_children rest)
      else raised saga_flow_definition

  unfoldable pub cons_item :
      Result (NormalizedItem P W)
      → Result (List (NormalizedItem P W))
      → Result (List (NormalizedItem P W))
  cons_item (raised e) rest = raised e
  cons_item (returned x) (raised e) = raised e
  cons_item (returned x) (returned xs) = returned (x ∷ xs)

  as_group : Result (List (NormalizedStep P W)) → Result (NormalizedItem P W)
  as_group (returned steps) = returned (parallel steps)
  as_group (raised e) = raised e

  unfoldable pub normalize_item : FlowItem P W → Result (NormalizedItem P W)
  unfolding as_group normalize_children normalize_step normalize_function
  normalize_item (group g) = as_group (normalize_children g.items)
  normalize_item (single c) = returned (step (normalize_step c))
  normalize_item (FlowItem.function f) = returned (step (normalize_function f))
  normalize_item FlowItem.other = raised saga_flow_definition

  unfoldable pub normalize : List (FlowItem P W) → Result (List (NormalizedItem P W))
  unfolding normalize_item cons_item
  normalize [] = returned []
  normalize (item ∷ rest) = cons_item (normalize_item item) (normalize rest)
