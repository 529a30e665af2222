-- ===== src/Agent/Tests.antt =====
-- core/spakky-agent/src/spakky/agent: an agent that is cancelled, one that waits, and a poll.
use spakky_framework.Common.{
  ℕ, suc, any, All, ◌++◌, false, Option, String, ◌≡◌, ◌↔◌, ◌⊎◌, refl, Bool, none, some, List, [],
  ◌∷◌, ◌==◌, map, dict_get, dict_set, string_has_eq,
}
use spakky_framework.Effects.{returned}
use spakky_framework.Agent.State.{
  JsonValue, text, no_members, AgentStatus, AgentState, running, waiting_approval, to_cancelling,
  approval_required, cancellation_requested, AgentSignal, AgentSignalKind, cancel,
  approval_decision, approve, modify,
}
use spakky_framework.Agent.Cancellation.{
  AgentCancellationTargetKind, model_stream, tool_execution, cleanup_failed, cleanup_succeeded,
  AgentCancellationCleanupStatus, AgentCancellationCleanupResult, AgentCancellationCleanupTask,
  AgentCancellationCleanupReport, require_cancel_signal, require_signal_matches_state,
  optional_string, begin_agent_cancellation, complete_agent_cancellation, checked_request,
  checked_report, from_signal, checked_target, run_task, run_tasks, run_agent_cancellation_cleanup,
}
use spakky_framework.Agent.Resolution.{result_target, Resolved, cancellation-Resolved}
use spakky_framework.Agent.Approval.{
  AgentApprovalRequest, AgentApprovalDecisionOutcome, parse_approval_decision,
  decision_state_target, payload_object, non_blank_text, require_payload_text,
  optional_payload_text, matches_request, parse_agent_approval_decision_signal,
  materialize_agent_approval_decision_state,
}
use spakky_framework.Agent.Signals.{
  safe_boundary, AgentSignalConsumptionBatch, SignalRepository, is_accepted,
  select_consumable_prefix, IsAccepted, Within, NextWaits, mark_all, consume_pending_agent_signals,
}
use spakky_framework.Agent.Polling.{
  select_consumable_prefix-NextWaits, Positive, Marked, consume_pending-Marked,
}
use spakky_framework.Agent.Resumption.{materialize-resumes}

abbrev is_blank : String → Bool
is_blank s = s == ""

abbrev working : AgentState
working = record {
  id = "a1";
  agent_type = "coder";
  status = AgentStatus.active;
  transition = some running;
  reason = none;
  current_activity = none;
  input_ref = none;
  output_ref = none;
  pending_signal_count = 0;
  last_event_cursor = none;
  recovery_marker = none;
  metadata = [];
  created_at = none;
  updated_at = none;
}

abbrev stop : AgentSignal
stop = record {
  id = "s1";
  agent_state_id = "a1";
  kind = cancel;
  payload = ("reason", text "too slow") ∷ [];
  created_at = none;
}

abbrev result :
    AgentCancellationTargetKind
    → String
    → AgentCancellationCleanupStatus
    → AgentCancellationCleanupResult
result kind ref status = record {
  target_kind = kind;
  target_ref = ref;
  status = status;
  reason = none;
  error_code = none;
  message = none;
  metadata = [];
}

-- A hook that ends so, in a world that counts the hooks that were run.
abbrev task :
    AgentCancellationTargetKind
    → String
    → AgentCancellationCleanupStatus
    → AgentCancellationCleanupTask ℕ
task kind ref status = record {
  target_kind = kind;
  target_ref = ref;
  cleanup = λ request w. (returned (result kind ref status), suc w);
  metadata = [];
}

abbrev tasks : List (AgentCancellationCleanupTask ℕ)
tasks = task model_stream "m" cleanup_succeeded ∷ task tool_execution "t" cleanup_failed ∷ []

abbrev stopping : AgentState
stopping = record working {
  status = AgentStatus.cancelling;
  transition = some to_cancelling;
  reason = some cancellation_requested;
  metadata =
      ("cancellation_signal_id", text "s1")
      ∷ ("cancellation_reason", text "too slow")
      ∷ ("cancellation_requested_by", JsonValue.null)
      ∷ [];
}

abbrev report : AgentCancellationCleanupReport
report = record {
  state_id = "a1";
  signal_id = "s1";
  outcomes =
      result model_stream "m" cleanup_succeeded ∷ result tool_execution "t" cleanup_failed ∷ [];
}

began : begin_agent_cancellation working stop ≡ returned stopping
unfolding begin_agent_cancellation require_cancel_signal require_signal_matches_state
    optional_string dict_get dict_set
began = refl

ran : run_agent_cancellation_cleanup is_blank stopping stop tasks 0 ≡ (returned report, 2)
unfolding run_agent_cancellation_cleanup require_cancel_signal require_signal_matches_state
    optional_string dict_get checked_request checked_report from_signal checked_target run_task
    run_tasks
ran = refl

cancellation-Resolved_example :
    (map result_target report.outcomes ≡ (model_stream, "m") ∷ (tool_execution, "t") ∷ [])
    × (final : AgentState) × (complete_agent_cancellation stopping report ≡ returned final)
    × (final.id ≡ "a1")
    × Resolved report final
cancellation-Resolved_example =
    cancellation-Resolved is_blank working stopping stop tasks report 0 2 began ran

abbrev waiting : AgentState
waiting = record working {
  status = AgentStatus.interrupted;
  transition = some waiting_approval;
  reason = some approval_required;
}

abbrev request : AgentApprovalRequest
request = record { id = "r1"; agent_state_id = "a1" }

abbrev decided : AgentSignal
decided = record {
  id = "s2";
  agent_state_id = "a1";
  kind = approval_decision;
  payload = ("request_id", text "r1") ∷ ("decision", text "approve") ∷ [];
  created_at = none;
}

abbrev outcome : AgentApprovalDecisionOutcome
outcome = record {
  request_id = "r1";
  decision = approve;
  status = AgentStatus.active;
  transition = running;
  reason = none;
  modified_payload = no_members;
  comment = none;
}

parsed : parse_agent_approval_decision_signal is_blank decided (some request) ≡ returned outcome
unfolding parse_agent_approval_decision_signal parse_approval_decision decision_state_target
    payload_object non_blank_text require_payload_text optional_payload_text matches_request
    dict_get
parsed = refl

materialize-resumes_example :
    (dict_get "request_id" decided.payload ≡ some (text "r1"))
    × (decided.agent_state_id ≡ request.agent_state_id)
    × (dict_get "decision" decided.payload ≡ some (text "approve"))
    × (((materialize_agent_approval_decision_state waiting outcome).status ≡ AgentStatus.active)
        ↔ ((approve ≡ approve) ⊎ (approve ≡ modify)))
    × ((materialize_agent_approval_decision_state waiting outcome).id ≡ "a1")
materialize-resumes_example = materialize-resumes is_blank decided request outcome waiting parsed

-- A queue with a CANCEL signal before the decision; it notes what is marked.
abbrev queue : SignalRepository (List String)
queue = record {
  list_pending = λ state_id w. (returned (stop ∷ decided ∷ stop ∷ []), w);
  mark_consumed = λ id w. (returned (record stop { id = id }), id ∷ w);
}

abbrev only_cancel : Option (List AgentSignalKind)
only_cancel = some (cancel ∷ [])

abbrev one_signal : AgentSignalConsumptionBatch
one_signal = record { state_id = "a1"; poll_point = safe_boundary; signals = stop ∷ [] }

consumed_one :
    consume_pending_agent_signals queue is_blank "a1" safe_boundary only_cancel (some 2) []
    ≡ (returned one_signal, "s1" ∷ [])
unfolding consume_pending_agent_signals mark_all select_consumable_prefix is_accepted any
consumed_one = refl

select_consumable_prefix-NextWaits_example :
    let selected = select_consumable_prefix only_cancel (some 2) [] (stop ∷ decided ∷ stop ∷ []) in
    (rest : List AgentSignal) × (selected ++ rest ≡ stop ∷ decided ∷ stop ∷ [])
    × All (IsAccepted only_cancel) selected
    × Within (some 2) selected
    × NextWaits only_cancel (some 2) selected rest
select_consumable_prefix-NextWaits_example =
    select_consumable_prefix-NextWaits only_cancel (some 2) (stop ∷ decided ∷ stop ∷ [])

consume_pending-Marked_example :
    (is_blank "a1" ≡ false)
    × Positive (some 2)
    × ◌≡◌ {A = String} "a1" "a1"
    × (one_signal.poll_point ≡ safe_boundary)
    × (selected : List AgentSignal) × (rest : List AgentSignal) × (w1 : List String)
    × (queue.list_pending "a1" [] ≡ (returned (selected ++ rest), w1))
    × All (IsAccepted only_cancel) selected
    × Within (some 2) selected
    × NextWaits only_cancel (some 2) selected rest
    × Marked queue selected one_signal.signals w1 ("s1" ∷ [])
consume_pending-Marked_example =
    consume_pending-Marked queue is_blank "a1" safe_boundary only_cancel (some 2) [] ("s1" ∷ [])
      one_signal consumed_one
