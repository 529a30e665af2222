-- ===== src/Agent/Resolution.antt =====
-- core/spakky-agent/src/spakky/agent/cancellation.py: how a cancellation is resolved.
use spakky_framework.Common.{
  String, ◌≡◌, ◌∙◌, ap, sym, refl, Bool, true, false, not, ◌&&◌, ◌||◌, ◌⊎◌, inl, inr, List, [], ◌∷◌,
  ◌==◌, any, map, if◌then◌else◌, dict_set, Bool-cases, string_has_eq,
}
use spakky_framework.Effects.{
  returned, raised, Result-cases, and_then, and_then-inversion, return_, returned_subst,
  agent_definition_error,
}
use spakky_framework.Agent.State.{JsonObject, AgentStatus, AgentState, AgentSignal}
use spakky_framework.Agent.Cancellation.{
  AgentCancellationTargetKind, model_stream, tool_execution, delegate_execution, same_kind,
  AgentCancellationCleanupResult, AgentCancellationCleanupTask, AgentCancellationCleanupReport,
  require_cancel_signal, require_signal_matches_state, failed_cleanup, succeeded_all,
  report_payload, begin_agent_cancellation, resolve_cancellation, complete_agent_cancellation,
  from_signal, checked_target, checked_report, run_task, run_tasks, run_agent_cancellation_cleanup,
}

-- What a result and a task are about.
abbrev pub result_target : AgentCancellationCleanupResult → AgentCancellationTargetKind × String
result_target result = (result.target_kind, result.target_ref)

abbrev pub task_target :
    {W : Type 0} → AgentCancellationCleanupTask W → AgentCancellationTargetKind × String
task_target task = (task.target_kind, task.target_ref)

same_kind-true : (a b : AgentCancellationTargetKind) → same_kind a b ≡ true → a ≡ b
same_kind-true model_stream model_stream h = refl
same_kind-true tool_execution tool_execution h = refl
same_kind-true delegate_execution delegate_execution h = refl
same_kind-true model_stream tool_execution h = absurd (cc h)
same_kind-true model_stream delegate_execution h = absurd (cc h)
same_kind-true tool_execution model_stream h = absurd (cc h)
same_kind-true tool_execution delegate_execution h = absurd (cc h)
same_kind-true delegate_execution model_stream h = absurd (cc h)
same_kind-true delegate_execution tool_execution h = absurd (cc h)

both : (a b : Bool) → (a && b) ≡ true → (a ≡ true) × (b ≡ true)
both true b h = (refl, h)
both false b h = absurd (cc h)

checked_report-same :
    (is_blank : String → Bool) (made report : AgentCancellationCleanupReport)
    → checked_report is_blank made ≡ returned report
    → made ≡ report
unfolding checked_report
checked_report-same is_blank made report h =
    elim (Bool-cases (is_blank made.state_id || is_blank made.signal_id)) [
      | inl blank ↦ absurd (cc (rw blank at h))
      | inr named ↦ cc (rw named at h)
    ]

module _ (is_blank : String → Bool) {W : Type 0} (state : AgentState) (signal : AgentSignal) where
  checked_target-same :
      (task : AgentCancellationCleanupTask W) (result r : AgentCancellationCleanupResult)
      → checked_target is_blank state signal task result ≡ returned r
      → result_target r ≡ task_target task
  unfolding checked_target
  checked_target-same task result r h =
      let test =
        same_kind result.target_kind task.target_kind && (result.target_ref == task.target_ref) in
      elim (Bool-cases test) [
        | inr apart ↦ absurd (cc (rw apart at h))
        | inl same ↦
            let (kinds, refs) =
              both (same_kind result.target_kind task.target_kind)
                (result.target_ref == task.target_ref) same in
            returned_subst (λ r. result_target r ≡ task_target task) (rw same at h)
              (λ i. (
                same_kind-true result.target_kind task.target_kind kinds i,
                (string_has_eq.same_iff result.target_ref task.target_ref).0 refs i,
              ))
      ]

  run_task-target :
      (task : AgentCancellationCleanupTask W) (r : AgentCancellationCleanupResult) (w w' : W)
      → run_task is_blank state signal task w ≡ (returned r, w')
      → result_target r ≡ task_target task
  unfolding run_task
  run_task-target task r w w' h = elim (Result-cases (from_signal is_blank state signal task)) [
    | inr (e, broke) ↦ absurd (cc (ap (λ q. q.0) (rw (broke, run_task) at h)))
    | inl (request, made) ↦
        let (result, w1, _, checked) =
          and_then-inversion (task.cleanup request)
            (λ result w1. (checked_target is_blank state signal task result, w1)) w w' r
            (rw (made, run_task) at h) in
        checked_target-same task result r (ap (λ q. q.0) checked)
  ]

  run_tasks-targets :
      (tasks : List (AgentCancellationCleanupTask W)) (rs : List AgentCancellationCleanupResult)
      (w w' : W)
      → run_tasks is_blank state signal tasks w ≡ (returned rs, w')
      → map result_target rs ≡ map task_target tasks
  unfolding run_tasks
  run_tasks-targets [] rs w w' h =
      let empty : [] ≡ rs = cc (ap (λ q. q.0) h) in ap (map result_target) (sym empty)
  run_tasks-targets (task ∷ tasks) rs w w' h =
      let (r, w1, first, later) =
        and_then-inversion (run_task is_blank state signal task)
          (λ outcome.
            and_then (run_tasks is_blank state signal tasks)
              (λ outcomes. return_ (outcome ∷ outcomes)))
          w w' rs h in
      let (others, w2, rest, done) =
        and_then-inversion (run_tasks is_blank state signal tasks)
          (λ outcomes. return_ (r ∷ outcomes)) w1 w' rs later in
      let whole : r ∷ others ≡ rs = cc (ap (λ q. q.0) done) in
      ap (map result_target) (sym whole) ∙ λ i.
      run_task-target task r w w1 first i ∷ run_tasks-targets tasks others w1 w2 rest i

  run-report :
      (tasks : List (AgentCancellationCleanupTask W)) (report : AgentCancellationCleanupReport)
      (w w' : W)
      → run_agent_cancellation_cleanup is_blank state signal tasks w ≡ (returned report, w')
      → (report.state_id ≡ state.id) × (map result_target report.outcomes ≡ map task_target tasks)
  unfolding run_agent_cancellation_cleanup
  run-report tasks report w w' h = elim (Result-cases (require_cancel_signal signal)) [
    | inr (e, broke) ↦ absurd (cc (ap (λ q. q.0) (rw (broke, run_agent_cancellation_cleanup) at h)))
    | inl (u, cancels) ↦
        let report_of : List AgentCancellationCleanupResult → AgentCancellationCleanupReport =
          λ outcomes. record { state_id = state.id; signal_id = signal.id; outcomes = outcomes } in
        let (outcomes, w1, ran, checked) =
          and_then-inversion (run_tasks is_blank state signal tasks)
            (λ outcomes w1. (checked_report is_blank (report_of outcomes), w1)) w w' report
            (rw (cancels, run_agent_cancellation_cleanup) at h) in
        let same =
          checked_report-same is_blank (report_of outcomes) report (ap (λ q. q.0) checked) in
        (
          ap (λ r. r.state_id) (sym same),
          ap (λ r. map result_target r.outcomes) (sym same)
              ∙ run_tasks-targets tasks outcomes w w1 ran,
        )
  ]

begin-id :
    (state started : AgentState) (signal : AgentSignal)
    → begin_agent_cancellation state signal ≡ returned started
    → started.id ≡ state.id
unfolding begin_agent_cancellation
begin-id state started signal h = elim (Result-cases (require_cancel_signal signal)) [
  | inr (e, broke) ↦ absurd (cc (rw (broke, begin_agent_cancellation) at h))
  | inl (u, cancels) ↦ elim (Result-cases (require_signal_matches_state state signal)) [
    | inr (e, broke) ↦ absurd (cc (rw broke at (rw (cancels, begin_agent_cancellation) at h)))
    | inl (v, matches) ↦
        returned_subst (λ s. s.id ≡ state.id)
          (rw matches at (rw (cancels, begin_agent_cancellation) at h)) refl
  ]
]

-- The final status says whether a hook failed.
abbrev pub Resolved : AgentCancellationCleanupReport → AgentState → Type 0
Resolved report final =
    ((final.status ≡ AgentStatus.cancelled) × (any failed_cleanup report.outcomes ≡ false))
    ⊎ ((final.status ≡ AgentStatus.failed) × (any failed_cleanup report.outcomes ≡ true))

resolve_cancellation-Resolved :
    (report : AgentCancellationCleanupReport) (fails : Bool) (metadata : JsonObject)
    (state : AgentState)
    → any failed_cleanup report.outcomes ≡ fails
    → ((resolve_cancellation (not fails) metadata state).id ≡ state.id)
      × Resolved report (resolve_cancellation (not fails) metadata state)
unfolding resolve_cancellation
resolve_cancellation-Resolved report true metadata state h = (refl, inr (refl, h))
resolve_cancellation-Resolved report false metadata state h = (refl, inl (refl, h))

resolve-Resolved :
    (state : AgentState) (report : AgentCancellationCleanupReport)
    → state.id ≡ report.state_id
    → (final : AgentState) × (complete_agent_cancellation state report ≡ returned final)
      × (final.id ≡ state.id)
      × Resolved report final
unfolding complete_agent_cancellation succeeded_all
resolve-Resolved state report same =
    let metadata = dict_set "cancellation_cleanup" (report_payload report) state.metadata in
    let final = resolve_cancellation (succeeded_all report) metadata state in
    let (ids, resolved) =
      resolve_cancellation-Resolved report (any failed_cleanup report.outcomes) metadata state
        refl in
    (
      final,
      ap (λ b. if b then returned final else raised agent_definition_error)
          ((string_has_eq.same_iff state.id report.state_id).1 same),
      ids,
      resolved,
    )

-- A cancellation whose hooks were run is resolved: the report has one outcome for each task, in
-- order and about its target, the completion returns a state of the same agent, and this state is
-- CANCELLED if no outcome failed and FAILED if one did. It holds where the cancellation began and
-- the run of the hooks on the state that it began returned.
pub cancellation-Resolved :
    {W : Type 0} (is_blank : String → Bool) (state started : AgentState) (signal : AgentSignal)
    (tasks : List (AgentCancellationCleanupTask W)) (report : AgentCancellationCleanupReport)
    (w w' : W)
    → begin_agent_cancellation state signal ≡ returned started
    → run_agent_cancellation_cleanup is_blank started signal tasks w ≡ (returned report, w')
    → (map result_target report.outcomes ≡ map task_target tasks)
      × (final : AgentState) × (complete_agent_cancellation started report ≡ returned final)
      × (final.id ≡ state.id)
      × Resolved report final
cancellation-Resolved is_blank state started signal tasks report w w' begun ran =
    let (same, targets) = run-report is_blank started signal tasks report w w' ran in
    let (final, done, kept, resolved) = resolve-Resolved started report (sym same) in
    (targets, final, done, kept ∙ begin-id state started signal begun, resolved)
