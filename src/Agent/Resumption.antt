-- ===== src/Agent/Resumption.antt =====
-- core/spakky-agent/src/spakky/agent/approval.py: which signals let an agent go on.
use spakky_framework.Common.{
  String, ◌≡◌, ◌∙◌, ap, refl, subst, Bool, true, false, not, ◌||◌, ◌⊎◌, ◌↔◌, inl, inr, Option, none,
  some, ◌==◌, if◌then◌else◌, dict_get, Bool-cases, string_has_eq,
}
use spakky_framework.Effects.{Result, returned, raised, returned_subst, agent_definition_error}
use spakky_framework.Agent.State.{
  JsonValue, text, AgentStatus, AgentState, AgentSignal, ApprovalDecision, approve, reject, modify,
  defer, cancel_run,
}
use spakky_framework.Agent.Approval.{
  AgentApprovalRequest, AgentApprovalDecisionOutcome, decision_value, parse_approval_decision,
  decision_state_target, is_approval, payload_object, ◌>>=◌, non_blank_text, require_payload_text,
  optional_payload_text, matches_request, parse_agent_approval_decision_signal,
  materialize_agent_approval_decision_state,
}

-- A chain that returned: so did its first step.
inversion :
    {A B : Type 0} (r : Result A) (f : A → Result B) (b : B)
    → (r >>= f) ≡ returned b
    → (a : A) × (r ≡ returned a) × (f a ≡ returned b)
inversion (returned a) f b h = (a, refl, h)
inversion (raised e) f b h = absurd (cc h)

one_name :
    (value name : String) (d0 d : ApprovalDecision) (rest : Result ApprovalDecision)
    → (if value == name then returned d0 else rest) ≡ returned d
    → ((value ≡ name) × (d0 ≡ d)) ⊎ (rest ≡ returned d)
one_name value name d0 d rest h = elim (Bool-cases (value == name)) [
  | inl same ↦ inl ((string_has_eq.same_iff value name).0 same, cc (rw same at h))
  | inr apart ↦ inr (rw apart at h)
]

named :
    (value name : String) (d0 d : ApprovalDecision)
    → (value ≡ name) × (d0 ≡ d)
    → name ≡ decision_value d0
    → value ≡ decision_value d
named value name d0 d (same, equal) h = same ∙ h ∙ ap decision_value equal

parse-named :
    (value : String) (d : ApprovalDecision)
    → parse_approval_decision value ≡ returned d
    → value ≡ decision_value d
unfolding parse_approval_decision
parse-named value d h = elim (one_name value "approve" approve d _ h) [
  | inl found ↦ named value "approve" approve d found refl
  | inr h1 ↦ elim (one_name value "reject" reject d _ h1) [
    | inl found ↦ named value "reject" reject d found refl
    | inr h2 ↦ elim (one_name value "modify" modify d _ h2) [
      | inl found ↦ named value "modify" modify d found refl
      | inr h3 ↦ elim (one_name value "defer" defer d _ h3) [
        | inl found ↦ named value "defer" defer d found refl
        | inr h4 ↦ elim (one_name value "cancel" cancel_run d _ h4) [
          | inl found ↦ named value "cancel" cancel_run d found refl
          | inr h5 ↦ absurd (cc h5)
        ]
      ]
    ]
  ]
]

or-false : (a b : Bool) → (not a || not b) ≡ false → (a ≡ true) × (b ≡ true)
or-false true true h = (refl, refl)
or-false true false h = absurd (cc h)
or-false false b h = absurd (cc h)

module _ (is_blank : String → Bool) where
  non_blank_text-text :
      (value : JsonValue) (s : String) → non_blank_text is_blank value ≡ returned s → value ≡ text s
  unfolding non_blank_text
  non_blank_text-text (text t) s h = elim (Bool-cases (is_blank t)) [
    | inl blank ↦ absurd (cc (rw blank at h))
    | inr full ↦ ap text (cc (rw full at h))
  ]
  non_blank_text-text _ s h = absurd (cc h)

  payload_text-on :
      (found : Option JsonValue) (s : String)
      → elim found as (λ _. Result String) [
        | none ↦ raised agent_definition_error
        | some value ↦ non_blank_text is_blank value
      ]
        ≡ returned s
      → found ≡ some (text s)
  payload_text-on none s h = absurd (cc h)
  payload_text-on (some value) s h = ap some (non_blank_text-text value s h)

  matches_request-same :
      (request : AgentApprovalRequest) (signal : AgentSignal) (request_id : String) (u : Unit {0})
      → matches_request is_blank (some request) signal request_id ≡ returned u
      → (request_id ≡ request.id) × (signal.agent_state_id ≡ request.agent_state_id)
  unfolding matches_request
  matches_request-same request signal request_id u h =
      let ids = request_id == request.id in
      let states = signal.agent_state_id == request.agent_state_id in
      elim (Bool-cases (not ids || not states)) [
        | inl differ ↦ absurd (cc (rw differ at h))
        | inr agree ↦
            let (same, same') = or-false ids states agree in
            (
              (string_has_eq.same_iff request_id request.id).0 same,
              (string_has_eq.same_iff signal.agent_state_id request.agent_state_id).0 same',
            )
      ]

  resumes_cases :
      (d : ApprovalDecision)
      → ((decision_state_target d).0 ≡ AgentStatus.active) ↔ ((d ≡ approve) ⊎ (d ≡ modify))
  unfolding decision_state_target
  resumes_cases approve = (λ h. inl refl, λ h. refl)
  resumes_cases modify = (λ h. inr refl, λ h. refl)
  resumes_cases reject =
      (λ h. absurd (cc h), λ h. elim h [ inl k ↦ absurd (cc k) | inr k ↦ absurd (cc k) ])
  resumes_cases defer =
      (λ h. absurd (cc h), λ h. elim h [ inl k ↦ absurd (cc k) | inr k ↦ absurd (cc k) ])
  resumes_cases cancel_run =
      (λ h. absurd (cc h), λ h. elim h [ inl k ↦ absurd (cc k) | inr k ↦ absurd (cc k) ])

  -- What a decision does to a state, where its signal is parsed against a request that is given: the
  -- signal names the request and belongs to the request's state, the decision is the one that its
  -- payload names, and the state that is made from any current one is ACTIVE exactly if the decision
  -- approves or modifies the action, and has the same identity.
  pub materialize-resumes :
      (signal : AgentSignal) (request : AgentApprovalRequest)
      (outcome : AgentApprovalDecisionOutcome) (current : AgentState)
      → parse_agent_approval_decision_signal is_blank signal (some request) ≡ returned outcome
      → (dict_get "request_id" signal.payload ≡ some (text request.id))
        × (signal.agent_state_id ≡ request.agent_state_id)
        × (dict_get "decision" signal.payload ≡ some (text (decision_value outcome.decision)))
        × (((materialize_agent_approval_decision_state current outcome).status ≡ AgentStatus.active)
            ↔ ((outcome.decision ≡ approve) ⊎ (outcome.decision ≡ modify)))
        × ((materialize_agent_approval_decision_state current outcome).id ≡ current.id)
  unfolding parse_agent_approval_decision_signal require_payload_text
      materialize_agent_approval_decision_state
  materialize-resumes signal request outcome current h =
      elim (Bool-cases (is_approval signal.kind)) [
        | inr other ↦ absurd (cc (rw other at h))
        | inl approval ↦
            let chain = rw approval at h in
            let (request_id, e1, h1) =
              inversion (require_payload_text is_blank signal.payload "request_id") _ outcome
                chain in
            let (u, e2, h2) =
              inversion (matches_request is_blank (some request) signal request_id) _ outcome h1 in
            let (value, e3, h3) =
              inversion (require_payload_text is_blank signal.payload "decision") _ outcome h2 in
            let (decision, e4, h4) = inversion (parse_approval_decision value) _ outcome h3 in
            let (modified, e5, h5) =
              inversion (payload_object (dict_get "modified_payload" signal.payload)) _ outcome
                h4 in
            let (comment, e6, h6) =
              inversion (optional_payload_text is_blank signal.payload "comment") _ outcome h5 in
            let (same, same') = matches_request-same request signal request_id u e2 in
            let same_decision : decision ≡ outcome.decision =
              returned_subst (λ o. decision ≡ o.decision) h6 refl in
            let same_status : (decision_state_target decision).0 ≡ outcome.status =
              returned_subst (λ o. (decision_state_target decision).0 ≡ o.status) h6 refl in
            (
              payload_text-on (dict_get "request_id" signal.payload) request_id e1
                  ∙ ap (λ s. some (text s)) same,
              same',
              payload_text-on (dict_get "decision" signal.payload) value e3
                  ∙ ap (λ s. some (text s))
                      (parse-named value decision e4 ∙ ap decision_value same_decision),
              subst
                  (λ status.
                    (status ≡ AgentStatus.active)
                    ↔ ((outcome.decision ≡ approve) ⊎ (outcome.decision ≡ modify)))
                  same_status
                  (subst
                    (λ d.
                      ((decision_state_target decision).0 ≡ AgentStatus.active)
                      ↔ ((d ≡ approve) ⊎ (d ≡ modify)))
                    same_decision (resumes_cases decision)),
              refl,
            )
      ]
