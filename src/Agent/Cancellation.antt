-- ===== src/Agent/Cancellation.antt =====
-- core/spakky-agent/src/spakky/agent/cancellation.py: a CANCEL signal, the cleanup hooks, and the
-- state at the end.
use spakky_framework.Common.{
  String, Bool, true, false, not, ◌&&◌, ◌||◌, Option, none, some, List, [], ◌∷◌, ◌==◌, any, map,
  if◌then◌else◌, dict_get, dict_set, string_has_eq,
}
use spakky_framework.Effects.{
  Result, returned, raised, Io, and_then, return_, agent_definition_error,
}
use spakky_framework.Agent.State.{
  JsonValue, truth, text, array, object, JsonObject, members, items, text_or_null, AgentStatus,
  AgentState, AgentSignalKind, cancel, AgentSignal, to_cancelling, to_cancelled, to_failed,
  cancellation_requested, cancellation_cleanup_failed,
}

pub data AgentCancellationTargetKind : Type 0 where
  model_stream tool_execution delegate_execution : AgentCancellationTargetKind

abbrev pub target_kind_value : AgentCancellationTargetKind → String
target_kind_value model_stream = "model_stream"
target_kind_value tool_execution = "tool_execution"
target_kind_value delegate_execution = "delegate_execution"

-- `is` on target kinds.
abbrev pub same_kind : AgentCancellationTargetKind → AgentCancellationTargetKind → Bool
same_kind model_stream model_stream = true
same_kind tool_execution tool_execution = true
same_kind delegate_execution delegate_execution = true
same_kind _ _ = false

pub data AgentCancellationCleanupStatus : Type 0 where
  cleanup_succeeded cleanup_failed cleanup_skipped : AgentCancellationCleanupStatus

abbrev pub cleanup_status_value : AgentCancellationCleanupStatus → String
cleanup_status_value cleanup_succeeded = "succeeded"
cleanup_status_value cleanup_failed = "failed"
cleanup_status_value cleanup_skipped = "skipped"

pub record AgentCancellationRequest : Type 0 where
  pub state_id : String
  pub signal_id : String
  pub target_kind : AgentCancellationTargetKind
  pub target_ref : String
  pub reason : Option String
  pub requested_by : Option String
  pub metadata : JsonObject

pub record AgentCancellationCleanupResult : Type 0 where
  pub target_kind : AgentCancellationTargetKind
  pub target_ref : String
  pub status : AgentCancellationCleanupStatus
  pub reason : Option String
  pub error_code : Option String
  pub message : Option String
  pub metadata : JsonObject

pub record AgentCancellationCleanupTask (W : Type 0) : Type 0 where
  pub target_kind : AgentCancellationTargetKind
  pub target_ref : String
  pub cleanup : AgentCancellationRequest → Io W AgentCancellationCleanupResult
  pub metadata : JsonObject

pub record AgentCancellationCleanupReport : Type 0 where
  pub state_id : String
  pub signal_id : String
  pub outcomes : List AgentCancellationCleanupResult

abbrev pub is_cancel : AgentSignalKind → Bool
is_cancel cancel = true
is_cancel _ = false

unfoldable pub require_cancel_signal : AgentSignal → Result (Unit {0})
require_cancel_signal signal =
    if is_cancel signal.kind then returned tt else raised agent_definition_error

unfoldable pub require_signal_matches_state : AgentState → AgentSignal → Result (Unit {0})
require_signal_matches_state state signal =
    if signal.agent_state_id == state.id then returned tt else raised agent_definition_error

unfoldable pub optional_string : JsonObject → String → Option String
unfolding dict_get
optional_string payload key = elim (dict_get key payload) [
  | some (text value) ↦ some value
  | _ ↦ none
]

unfoldable pub failed_cleanup : AgentCancellationCleanupResult → Bool
failed_cleanup result = elim result.status [ cleanup_failed ↦ true | _ ↦ false ]

unfoldable pub succeeded_all : AgentCancellationCleanupReport → Bool
unfolding failed_cleanup any
succeeded_all report = not (any failed_cleanup report.outcomes)

abbrev pub result_payload : AgentCancellationCleanupResult → JsonValue
result_payload result = object (
    members (
      ("target_kind", text (target_kind_value result.target_kind))
      ∷ ("target_ref", text result.target_ref)
      ∷ ("status", text (cleanup_status_value result.status))
      ∷ ("reason", text_or_null result.reason)
      ∷ ("error_code", text_or_null result.error_code)
      ∷ ("message", text_or_null result.message)
      ∷ ("metadata", object (members result.metadata))
      ∷ []))

unfoldable pub report_payload : AgentCancellationCleanupReport → JsonValue
unfolding succeeded_all
report_payload report = object (
    members (
      ("state_id", text report.state_id)
      ∷ ("signal_id", text report.signal_id)
      ∷ ("cleanup_succeeded", truth (succeeded_all report))
      ∷ ("outcomes", array (items (map result_payload report.outcomes)))
      ∷ []))

unfoldable pub begin_agent_cancellation : AgentState → AgentSignal → Result AgentState
unfolding require_cancel_signal require_signal_matches_state optional_string dict_set
begin_agent_cancellation state signal = elim (require_cancel_signal signal) [
  | raised e ↦ raised e
  | returned _ ↦ elim (require_signal_matches_state state signal) [
    | raised e ↦ raised e
    | returned _ ↦ returned (record state {
      status = AgentStatus.cancelling;
      transition = some to_cancelling;
      reason = some cancellation_requested;
      metadata =
          dict_set "cancellation_requested_by"
            (text_or_null (optional_string signal.payload "requested_by"))
            (dict_set "cancellation_reason" (text_or_null (optional_string signal.payload "reason"))
              (dict_set "cancellation_signal_id" (text signal.id) state.metadata));
    })
  ]
]

-- `replace` at the end of a cancellation that cleaned up, or did not.
unfoldable pub resolve_cancellation : Bool → JsonObject → AgentState → AgentState
resolve_cancellation true metadata state = record state {
  status = AgentStatus.cancelled;
  transition = some to_cancelled;
  reason = some cancellation_requested;
  metadata = metadata;
}
resolve_cancellation false metadata state = record state {
  status = AgentStatus.failed;
  transition = some to_failed;
  reason = some cancellation_cleanup_failed;
  metadata = metadata;
}

unfoldable pub complete_agent_cancellation :
    AgentState → AgentCancellationCleanupReport → Result AgentState
unfolding succeeded_all report_payload dict_set resolve_cancellation
complete_agent_cancellation state report =
    if state.id == report.state_id
    then returned (
        resolve_cancellation (succeeded_all report)
          (dict_set "cancellation_cleanup" (report_payload report) state.metadata) state)
    else raised agent_definition_error

-- `is_blank` is `not value.strip()`.
module _ (is_blank : String → Bool) where
  abbrev pub blank_option : Option String → Bool
  blank_option none = false
  blank_option (some value) = is_blank value

  -- The checks of `__post_init__`.
  unfoldable pub checked_request : AgentCancellationRequest → Result AgentCancellationRequest
  checked_request request =
      if is_blank request.state_id
        || is_blank request.signal_id
        || is_blank request.target_ref
        || blank_option request.reason
        || blank_option request.requested_by
      then raised agent_definition_error
      else returned request

  unfoldable pub checked_report :
      AgentCancellationCleanupReport → Result AgentCancellationCleanupReport
  checked_report report =
      if is_blank report.state_id || is_blank report.signal_id
      then raised agent_definition_error
      else returned report

  module _ {W : Type 0} (state : AgentState) (signal : AgentSignal) where
    unfoldable pub from_signal : AgentCancellationCleanupTask W → Result AgentCancellationRequest
    unfolding require_cancel_signal require_signal_matches_state optional_string checked_request
    from_signal task = elim (require_cancel_signal signal) [
      | raised e ↦ raised e
      | returned _ ↦ elim (require_signal_matches_state state signal) [
        | raised e ↦ raised e
        | returned _ ↦ checked_request (record {
          state_id = state.id;
          signal_id = signal.id;
          target_kind = task.target_kind;
          target_ref = task.target_ref;
          reason = optional_string signal.payload "reason";
          requested_by = optional_string signal.payload "requested_by";
          metadata = task.metadata;
        })
      ]
    ]

    -- The check of the target that the hook reports.
    unfoldable pub checked_target :
        AgentCancellationCleanupTask W
        → AgentCancellationCleanupResult
        → Result AgentCancellationCleanupResult
    checked_target task result =
        if same_kind result.target_kind task.target_kind && (result.target_ref == task.target_ref)
        then returned result
        else raised agent_definition_error

    unfoldable pub run_task : AgentCancellationCleanupTask W → Io W AgentCancellationCleanupResult
    unfolding from_signal checked_target
    run_task task w = elim (from_signal task) [
      | raised e ↦ (raised e, w)
      | returned request ↦
          and_then (task.cleanup request) (λ result w1. (checked_target task result, w1)) w
    ]

    unfoldable pub run_tasks :
        List (AgentCancellationCleanupTask W) → Io W (List AgentCancellationCleanupResult)
    unfolding run_task
    run_tasks [] = return_ []
    run_tasks (task ∷ rest) =
        and_then (run_task task)
          (λ outcome. and_then (run_tasks rest) (λ outcomes. return_ (outcome ∷ outcomes)))

    unfoldable pub run_agent_cancellation_cleanup :
        List (AgentCancellationCleanupTask W) → Io W AgentCancellationCleanupReport
    unfolding run_tasks checked_report require_cancel_signal
    run_agent_cancellation_cleanup tasks w = elim (require_cancel_signal signal) [
      | raised e ↦ (raised e, w)
      | returned _ ↦
          and_then (run_tasks tasks)
            (λ outcomes w1. (
              checked_report
                  (record { state_id = state.id; signal_id = signal.id; outcomes = outcomes }),
              w1,
            ))
            w
    ]
