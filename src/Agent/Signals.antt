-- ===== src/Agent/Signals.antt =====
-- core/spakky-agent/src/spakky/agent/signal_consumption.py: one poll of the pending signals.
use spakky_framework.Common.{
  ℕ, ◌≤◌, String, ◌≡◌, ◌⊎◌, Bool, true, false, not, Option, none, some, List, [], ◌∷◌, ◌++◌, ◌==◌,
  any, length, leb, if◌then◌else◌, string_has_eq,
}
use spakky_framework.Effects.{Io, and_then, return_, raise, agent_definition_error}
use spakky_framework.Agent.State.{
  AgentSignal, AgentSignalKind, user_message, approval_decision, cancel, pause, resume,
  steering_instruction, external_event, scheduler_wake_up,
}

pub data AgentSignalPollPoint : Type 0 where
  safe_boundary action_boundary model_stream_tick : AgentSignalPollPoint
  tool_boundary approval_boundary configured : AgentSignalPollPoint

pub record AgentSignalConsumptionBatch : Type 0 where
  pub state_id : String
  pub poll_point : AgentSignalPollPoint
  pub signals : List AgentSignal

abbrev pub consumed_count : AgentSignalConsumptionBatch → ℕ
consumed_count batch = length batch.signals

abbrev pub signal_kind_value : AgentSignalKind → String
signal_kind_value user_message = "user_message"
signal_kind_value approval_decision = "approval_decision"
signal_kind_value cancel = "cancel"
signal_kind_value pause = "pause"
signal_kind_value resume = "resume"
signal_kind_value steering_instruction = "steering_instruction"
signal_kind_value external_event = "external_event"
signal_kind_value scheduler_wake_up = "scheduler_wake_up"

-- The operations of IAgentSignalRepository that a poll calls.
pub record SignalRepository (W : Type 0) : Type 0 where
  pub list_pending : String → Io W (List AgentSignal)
  pub mark_consumed : String → Io W AgentSignal

-- `len(selected) >= max_signals`
abbrev pub is_full : Option ℕ → List AgentSignal → Bool
is_full none selected = false
is_full (some n) selected = leb n (length selected)

-- `signal.kind in accepted_signals`, whose members are texts.
unfoldable pub is_accepted : Option (List AgentSignalKind) → AgentSignalKind → Bool
unfolding any
is_accepted none kind = true
is_accepted (some kinds) kind = any (λ k. signal_kind_value k == signal_kind_value kind) kinds

module _ (accepted : Option (List AgentSignalKind)) (limit : Option ℕ) where
  -- The loop, from the signals that it has selected.
  unfoldable pub select_consumable_prefix : List AgentSignal → List AgentSignal → List AgentSignal
  unfolding is_accepted
  select_consumable_prefix selected [] = selected
  select_consumable_prefix selected (signal ∷ rest) =
      let more = select_consumable_prefix (selected ++ (signal ∷ [])) rest in
      if is_full limit selected
      then selected
      else if not (is_accepted accepted signal.kind)
      then selected
      else more

  -- Nothing is left, or what comes next waits for its turn.
  abbrev pub NextWaits : List AgentSignal → List AgentSignal → Type 0
  NextWaits selected [] = Unit
  NextWaits selected (signal ∷ rest) =
      (is_full limit selected ≡ true) ⊎ (is_accepted accepted signal.kind ≡ false)

abbrev pub IsAccepted : Option (List AgentSignalKind) → AgentSignal → Type 0
IsAccepted accepted signal = is_accepted accepted signal.kind ≡ true

abbrev pub Within : Option ℕ → List AgentSignal → Type 0
Within none selected = Unit
Within (some n) selected = length selected ≤ n

module _ {W : Type 0} (repository : SignalRepository W) where
  -- `tuple(repository.mark_consumed(signal.id) for signal in selected)`
  unfoldable pub mark_all : List AgentSignal → Io W (List AgentSignal)
  mark_all [] = return_ []
  mark_all (signal ∷ rest) =
      and_then (repository.mark_consumed signal.id)
        (λ consumed. and_then (mark_all rest) (λ more. return_ (consumed ∷ more)))

  -- `is_blank` is `not value.strip()`. A negative limit is the limit 0.
  unfoldable pub consume_pending_agent_signals :
      (String → Bool)
      → String
      → AgentSignalPollPoint
      → Option (List AgentSignalKind)
      → Option ℕ
      → Io W AgentSignalConsumptionBatch
  unfolding select_consumable_prefix mark_all
  consume_pending_agent_signals is_blank state_id poll_point accepted limit =
      if is_blank state_id
      then raise agent_definition_error
      else if is_full limit []
      then raise agent_definition_error
      else and_then (repository.list_pending state_id) (λ pending.
        and_then (mark_all (select_consumable_prefix accepted limit [] pending)) (λ consumed.
          return_ (record { state_id = state_id; poll_point = poll_point; signals = consumed })))
