-- ===== src/Agent/State.antt =====
-- core/spakky-agent/src/spakky/agent/types.py, state.py, signal.py and execution.py: JSON values, the
-- state of an agent and the signals that it is sent. A time is a number.
use spakky_framework.Common.{ℕ, String, Bool, Option, none, some, List, [], ◌∷◌}

mutual
  pub data JsonValue : Type 0 where
    null : JsonValue
    truth : Bool → JsonValue
    number : ℕ → JsonValue
    text : String → JsonValue
    array : JsonItems → JsonValue
    object : JsonMembers → JsonValue

  pub data JsonItems : Type 0 where
    no_items : JsonItems
    item : JsonValue → JsonItems → JsonItems

  pub data JsonMembers : Type 0 where
    no_members : JsonMembers
    member : String → JsonValue → JsonMembers → JsonMembers

abbrev pub JsonObject : Type 0
JsonObject = List (String × JsonValue)

abbrev pub members : JsonObject → JsonMembers
members [] = no_members
members ((key, value) ∷ rest) = member key value (members rest)

abbrev pub items : List JsonValue → JsonItems
items [] = no_items
items (value ∷ rest) = item value (items rest)

abbrev pub text_or_null : Option String → JsonValue
text_or_null none = null
text_or_null (some s) = text s

pub data AgentStatus : Type 0 where
  created active interrupted cancelling completed failed cancelled : AgentStatus

pub data AgentStateTransition : Type 0 where
  pending running waiting_approval to_cancelling to_cancelled : AgentStateTransition
  to_completed to_failed timed_out to_interrupted : AgentStateTransition

pub data AgentStateReason : Type 0 where
  approval_required approval_rejected approval_deferred execution_failed : AgentStateReason
  user_interrupted timeout cancellation_requested cancellation_cleanup_failed : AgentStateReason
  recovery_requires_hitl : AgentStateReason

pub record AgentState : Type 0 where
  pub id : String
  pub agent_type : String
  pub status : AgentStatus
  pub transition : Option AgentStateTransition
  pub reason : Option AgentStateReason
  pub current_activity : Option String
  pub input_ref : Option String
  pub output_ref : Option String
  pub pending_signal_count : ℕ
  pub last_event_cursor : Option String
  pub recovery_marker : Option String
  pub metadata : JsonObject
  pub created_at : Option ℕ
  pub updated_at : Option ℕ

pub data AgentSignalKind : Type 0 where
  user_message approval_decision cancel pause resume : AgentSignalKind
  steering_instruction external_event scheduler_wake_up : AgentSignalKind

pub record AgentSignal : Type 0 where
  pub id : String
  pub agent_state_id : String
  pub kind : AgentSignalKind
  pub payload : JsonObject
  pub created_at : Option ℕ

pub data ApprovalDecision : Type 0 where
  approve reject modify defer cancel_run : ApprovalDecision
