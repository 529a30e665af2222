-- ===== src/Agent/Approval.antt =====
-- core/spakky-agent/src/spakky/agent/approval.py: the decision that an approval signal carries, and
-- the state after it.
use spakky_framework.Common.{
  String, Bool, true, false, not, ◌||◌, Option, none, some, [], ◌∷◌, ◌==◌, if◌then◌else◌, dict_get,
  dict_set, string_has_eq,
}
use spakky_framework.Effects.{Result, returned, raised, agent_definition_error}
use spakky_framework.Agent.State.{
  JsonValue, text, object, JsonMembers, no_members, JsonObject, members, text_or_null, AgentStatus,
  AgentStateTransition, running, waiting_approval, to_cancelling, to_failed, AgentStateReason,
  approval_deferred, approval_rejected, cancellation_requested, AgentState, AgentSignalKind,
  approval_decision, AgentSignal, ApprovalDecision, approve, reject, modify, defer, cancel_run,
}

-- The fields of AgentApprovalRequest that a signal is matched with.
pub record AgentApprovalRequest : Type 0 where
  pub id : String
  pub agent_state_id : String

pub record AgentApprovalDecisionOutcome : Type 0 where
  pub request_id : String
  pub decision : ApprovalDecision
  pub status : AgentStatus
  pub transition : AgentStateTransition
  pub reason : Option AgentStateReason
  pub modified_payload : JsonMembers
  pub comment : Option String

abbrev pub decision_value : ApprovalDecision → String
decision_value approve = "approve"
decision_value reject = "reject"
decision_value modify = "modify"
decision_value defer = "defer"
decision_value cancel_run = "cancel"

-- `ApprovalDecision(value)`
unfoldable pub parse_approval_decision : String → Result ApprovalDecision
parse_approval_decision value =
    if value == "approve"
    then returned approve
    else if value == "reject"
    then returned reject
    else if value == "modify"
    then returned modify
    else if value == "defer"
    then returned defer
    else if value == "cancel"
    then returned cancel_run
    else raised agent_definition_error

unfoldable pub decision_state_target :
    ApprovalDecision → AgentStatus × AgentStateTransition × Option AgentStateReason
decision_state_target approve = (AgentStatus.active, running, none)
decision_state_target modify = (AgentStatus.active, running, none)
decision_state_target defer = (AgentStatus.interrupted, waiting_approval, some approval_deferred)
decision_state_target cancel_run =
    (AgentStatus.cancelling, to_cancelling, some cancellation_requested)
decision_state_target reject = (AgentStatus.failed, to_failed, some approval_rejected)

abbrev pub activity_for_decision : ApprovalDecision → String
activity_for_decision approve = "approval approved"
activity_for_decision modify = "approval modified"
activity_for_decision defer = "approval deferred"
activity_for_decision cancel_run = "approval cancellation requested"
activity_for_decision reject = "approval rejected"

abbrev pub is_approval : AgentSignalKind → Bool
is_approval approval_decision = true
is_approval _ = false

-- `payload.get("modified_payload", {})`, which must be an object.
unfoldable pub payload_object : Option JsonValue → Result JsonMembers
payload_object none = returned no_members
payload_object (some (object value)) = returned value
payload_object (some _) = raised agent_definition_error

-- What follows a step that returned.
infixl 5 ◌>>=◌
abbrev pub ◌>>=◌ : {A B : Type 0} → Result A → (A → Result B) → Result B
returned a >>= f = f a
raised e >>= f = raised e

-- `is_blank` is `not value.strip()`.
module _ (is_blank : String → Bool) where
  unfoldable pub non_blank_text : JsonValue → Result String
  non_blank_text (text value) =
      if is_blank value then raised agent_definition_error else returned value
  non_blank_text _ = raised agent_definition_error

  unfoldable pub require_payload_text : JsonObject → String → Result String
  unfolding dict_get non_blank_text
  require_payload_text payload key = elim (dict_get key payload) [
    | none ↦ raised agent_definition_error
    | some value ↦ non_blank_text value
  ]

  unfoldable pub optional_payload_text : JsonObject → String → Result (Option String)
  unfolding dict_get non_blank_text
  optional_payload_text payload key = elim (dict_get key payload) [
    | none ↦ returned none
    | some JsonValue.null ↦ returned none
    | some value ↦ non_blank_text value >>= λ s. returned (some s)
  ]

  unfoldable pub matches_request :
      Option AgentApprovalRequest → AgentSignal → String → Result (Unit {0})
  matches_request none signal request_id = returned tt
  matches_request (some request) signal request_id =
      if not (request_id == request.id) || not (signal.agent_state_id == request.agent_state_id)
      then raised agent_definition_error
      else returned tt

  unfoldable pub parse_agent_approval_decision_signal :
      AgentSignal → Option AgentApprovalRequest → Result AgentApprovalDecisionOutcome
  unfolding require_payload_text optional_payload_text matches_request parse_approval_decision
      payload_object decision_state_target dict_get
  parse_agent_approval_decision_signal signal request =
      if is_approval signal.kind
      then (do
        request_id ← require_payload_text signal.payload "request_id"
        _ ← matches_request request signal request_id
        value ← require_payload_text signal.payload "decision"
        decision ← parse_approval_decision value
        modified_payload ← payload_object (dict_get "modified_payload" signal.payload)
        comment ← optional_payload_text signal.payload "comment"
        returned (record {
          request_id = request_id;
          decision = decision;
          status = (decision_state_target decision).0;
          transition = (decision_state_target decision).1;
          reason = (decision_state_target decision).2;
          modified_payload = modified_payload;
          comment = comment;
        }))
      else raised agent_definition_error

unfoldable pub materialize_agent_approval_decision_state :
    AgentState → AgentApprovalDecisionOutcome → AgentState
unfolding dict_set
materialize_agent_approval_decision_state current outcome = record current {
  status = outcome.status;
  transition = some outcome.transition;
  reason = outcome.reason;
  current_activity = some (activity_for_decision outcome.decision);
  metadata =
      dict_set "approval_decision"
        (object (
          members (
            ("request_id", text outcome.request_id)
            ∷ ("decision", text (decision_value outcome.decision))
            ∷ ("modified_payload", object outcome.modified_payload)
            ∷ ("comment", text_or_null outcome.comment)
            ∷ [])))
        current.metadata;
}
