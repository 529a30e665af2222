-- ===== src/Policy/Evaluator.antt =====
-- plugins/spakky-policy/src/spakky/plugins/policy/evaluator.py: `evaluate`, and the checks that
-- answer the ports of core/spakky-auth by it.
use spakky_framework.Common.{ℕ, Bool, true, false, Option, none, some, List, [], ◌∷◌, ◌++◌, String}
use spakky_framework.Effects.{Result, returned, raised}
use spakky_framework.Auth.Decision.{
  AuthorizationDecision, policy_denied, allow as allow_decision, deny as deny_decision,
}
use spakky_framework.Auth.Ports.{
  AuthorizationRequest, PermissionCheckRequest, RoleCheckRequest, ScopeCheckRequest,
}
use spakky_framework.Policy.Model.{
  PolicyRef, PolicyEffect, PolicyStatement, NamedPolicy, PolicyDocument, PolicyEvaluationInput,
  PolicyEvaluationEvidence, statement_matched, statement_skipped, default_deny,
  PolicyEvaluationResult,
}
use spakky_framework.Policy.Conditions.{get_last}
use spakky_framework.Policy.Matching.{Evidence, statement_matches}

-- How far the loops of `evaluate` came: a DENY matched and they returned, or they go on with
-- `allow_seen`.
pub data Progress : Type 0 where
  denied : Evidence → Progress
  going : Bool → Evidence → Progress

-- f"{statement.effect.value} statement matched"
abbrev pub matched_reason : PolicyEffect → String
matched_reason PolicyEffect.allow = "allow statement matched"
matched_reason PolicyEffect.deny = "deny statement matched"

abbrev pub matched_evidence : PolicyRef → PolicyStatement → PolicyEvaluationEvidence
matched_evidence policy_ref statement = record {
  kind = statement_matched;
  policy = some policy_ref;
  statement = some statement.ref;
  reason = matched_reason statement.effect;
}

abbrev pub skipped_evidence : PolicyRef → PolicyStatement → PolicyEvaluationEvidence
skipped_evidence policy_ref statement = record {
  kind = statement_skipped;
  policy = some policy_ref;
  statement = some statement.ref;
  reason = "statement did not match request";
}

-- What a matching statement does to the loop.
unfoldable pub on_match : PolicyEffect → Evidence → Progress
on_match PolicyEffect.deny evidence = denied evidence
on_match PolicyEffect.allow evidence = going true evidence

-- The body of the inner loop.
unfoldable pub evaluate_one :
    PolicyRef → PolicyStatement → Bool → Result (Bool × Evidence) → Result Progress
unfolding on_match
evaluate_one policy_ref statement allow_seen (raised e) = raised e
evaluate_one policy_ref statement allow_seen (returned (true, evidence)) =
    returned (on_match statement.effect (evidence ++ matched_evidence policy_ref statement ∷ []))
evaluate_one policy_ref statement allow_seen (returned (false, evidence)) =
    returned (going allow_seen (evidence ++ skipped_evidence policy_ref statement ∷ []))

-- After the loops.
unfoldable pub finish : Progress → PolicyEvaluationResult
finish (denied evidence) = record {
  allowed = false;
  effect = some PolicyEffect.deny;
  evidence = evidence;
}
finish (going true evidence) = record {
  allowed = true;
  effect = some PolicyEffect.allow;
  evidence = evidence;
}
finish (going false evidence) = record {
  allowed = false;
  effect = none;
  evidence =
      evidence
      ++ record {
        kind = default_deny;
        policy = none;
        statement = none;
        reason = "no allow statement matched";
      }
        ∷ [];
}

abbrev pub finished : Result Progress → Result PolicyEvaluationResult
finished (raised e) = raised e
finished (returned p) = returned (finish p)

abbrev pub optional_policy : Option NamedPolicy → List NamedPolicy
optional_policy none = []
optional_policy (some policy) = policy ∷ []

unfoldable pub decision : PolicyEvaluationResult → AuthorizationDecision
decision result = elim result.allowed [
  | true ↦ allow_decision
  | false ↦ deny_decision policy_denied
]

abbrev pub decided : Result PolicyEvaluationResult → Result AuthorizationDecision
decided (raised e) = raised e
decided (returned result) = returned (decision result)

module _ (document : PolicyDocument) where
  unfoldable pub selected_policies : Option PolicyRef → List NamedPolicy
  unfolding get_last
  selected_policies none = document.policies
  selected_policies (some ref) =
      optional_policy (get_last (λ policy. policy.ref) ref document.policies)

module _ (fuel : ℕ) (document : PolicyDocument) where
  unfoldable pub evaluate_statements :
      PolicyEvaluationInput → PolicyRef → List PolicyStatement → Bool → Evidence → Result Progress
  evaluate_statements request policy_ref [] allow_seen evidence =
      returned (going allow_seen evidence)
  evaluate_statements request policy_ref (statement ∷ rest) allow_seen evidence =
      elim (evaluate_one policy_ref statement allow_seen
        (statement_matches fuel document statement request evidence policy_ref)) [
          | raised e ↦ raised e
          | returned (denied evidence') ↦ returned (denied evidence')
          | returned (going seen evidence') ↦
              evaluate_statements request policy_ref rest seen evidence'
        ]

  unfoldable pub evaluate_policies :
      PolicyEvaluationInput → List NamedPolicy → Bool → Evidence → Result Progress
  evaluate_policies request [] allow_seen evidence = returned (going allow_seen evidence)
  evaluate_policies request (policy ∷ rest) allow_seen evidence =
      elim (evaluate_statements request policy.ref policy.statements allow_seen evidence) [
        | raised e ↦ raised e
        | returned (denied evidence') ↦ returned (denied evidence')
        | returned (going seen evidence') ↦ evaluate_policies request rest seen evidence'
      ]

  unfoldable pub evaluate : PolicyEvaluationInput → Result PolicyEvaluationResult
  unfolding evaluate_policies evaluate_statements selected_policies finish
  evaluate request =
      finished (evaluate_policies request (selected_policies document request.policy) false [])

  unfoldable pub evaluate_authorization : AuthorizationRequest → Result AuthorizationDecision
  unfolding evaluate decision
  evaluate_authorization request = decided (
      evaluate (record {
        auth_context = request.auth_context;
        resource = some request.resource;
        action = some request.action;
        tenant = request.tenant;
        permission = none;
        role = none;
        scope = none;
        policy = none;
      }))

  unfoldable pub check_permission : PermissionCheckRequest → Result AuthorizationDecision
  unfolding evaluate decision
  check_permission request = decided (
      evaluate (record {
        auth_context = request.auth_context;
        resource = request.resource;
        action = none;
        tenant = request.tenant;
        permission = some request.permission;
        role = none;
        scope = none;
        policy = none;
      }))

  unfoldable pub check_role : RoleCheckRequest → Result AuthorizationDecision
  unfolding evaluate decision
  check_role request = decided (
      evaluate (record {
        auth_context = request.auth_context;
        resource = none;
        action = none;
        tenant = request.tenant;
        permission = none;
        role = some request.role;
        scope = none;
        policy = none;
      }))

  unfoldable pub check_scope : ScopeCheckRequest → Result AuthorizationDecision
  unfolding evaluate decision
  check_scope request = decided (
      evaluate (record {
        auth_context = request.auth_context;
        resource = none;
        action = none;
        tenant = none;
        permission = none;
        role = none;
        scope = some request.scope;
        policy = none;
      }))
