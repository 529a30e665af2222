-- ===== src/Saga/Auth.antt =====
-- core/spakky-saga/src/spakky/saga/auth.py: verification of the snapshot and enforcement of the
-- requirements of a protected step.
use spakky_framework.Common.{
  String, Bool, true, false, Option, none, some, List, [], ◌∷◌, ◌==◌, if◌then◌else◌, string_has_eq,
}
use spakky_framework.Effects.{
  Exn, Result, returned, raised, Io, auth_requirement_denied, missing_snapshot, invalid_snapshot,
  expired_snapshot, provider_unavailable,
}
use spakky_framework.Auth.Context.{AuthContext, AuthInvocation, AuthClaimValue, text, null}
use spakky_framework.Auth.Decision.{
  AuthorizationDecision, AuthorizationDecisionState, allowed, allow, error, internal_error,
  missing_snapshot_decision, invalid_snapshot_decision, expired_snapshot_decision,
  verification_provider_unavailable_decision,
}
use spakky_framework.Auth.Metadata.{
  AuthRequirement, AuthRequirementKind, authenticated, permission, policy, relation, role, scope,
  AuthSource, Boundary, EffectiveAuthMetadata, protected, get_effective_auth_metadata,
}
use spakky_framework.Auth.Ports.{
  SnapshotVerifier, AuthorizationPolicyEvaluator, PermissionChecker, RelationChecker, RoleChecker,
  ScopeChecker,
}
use spakky_framework.Saga.Flow.{SagaData}

pub record SagaAuthExecutionContext (W : Type 0) : Type 0 where
  pub snapshot_verifier : Option (SnapshotVerifier W)
  pub authorization_policy_evaluator : Option (AuthorizationPolicyEvaluator W)
  pub permission_checker : Option (PermissionChecker W)
  pub relation_checker : Option (RelationChecker W)
  pub role_checker : Option (RoleChecker W)
  pub scope_checker : Option (ScopeChecker W)

provider_unavailable_decision : AuthorizationDecision
provider_unavailable_decision = error internal_error (some "Saga auth provider is unavailable")

snapshot_value : Option String → AuthClaimValue
snapshot_value none = null
snapshot_value (some s) = text s

module _ {P : Type 0} where
  unfoldable pub invocation : String → SagaData P → AuthInvocation
  unfolding snapshot_value
  invocation step_name data' = record {
    boundary = "saga";
    operation = step_name;
    subject = none;
    attributes =
        record { name = "saga_id"; value = text data'.saga_id }
        ∷ record {
          name = "auth_context_snapshot";
          value = snapshot_value data'.auth_context_snapshot;
        }
        ∷ [];
  }

-- The handlers of `_verify_snapshot`.
abbrev snapshot_error : Exn → Exn
snapshot_error missing_snapshot = auth_requirement_denied missing_snapshot_decision
snapshot_error invalid_snapshot = auth_requirement_denied invalid_snapshot_decision
snapshot_error expired_snapshot = auth_requirement_denied expired_snapshot_decision
snapshot_error provider_unavailable =
    auth_requirement_denied verification_provider_unavailable_decision
snapshot_error e = e

verified : Result AuthContext → Result AuthContext
verified (returned c) = returned c
verified (raised e) = raised (snapshot_error e)

unfoldable pub is_allowed : AuthorizationDecisionState → Bool
is_allowed allowed = true
is_allowed _ = false

module _ {W : Type 0} (auth : SagaAuthExecutionContext W) where
  verify_with : Option (SnapshotVerifier W) → String → AuthInvocation → Io W AuthContext
  unfolding verified
  verify_with none envelope inv w =
      (raised (auth_requirement_denied verification_provider_unavailable_decision), w)
  verify_with (some verifier) envelope inv w =
      let (result, w') = verifier envelope inv w in (verified result, w')

  unfoldable pub verify_snapshot : Option String → AuthInvocation → Io W AuthContext
  unfolding verify_with
  verify_snapshot none inv w = (raised (auth_requirement_denied missing_snapshot_decision), w)
  verify_snapshot (some envelope) inv w =
      if envelope == ""
      then (raised (auth_requirement_denied missing_snapshot_decision), w)
      else verify_with auth.snapshot_verifier envelope inv w

  -- The `None` port of each kind of requirement.
  unavailable : Io W AuthorizationDecision
  unavailable w = (returned provider_unavailable_decision, w)

  check_permission :
      Option (PermissionChecker W) → AuthRequirement → AuthContext → Io W AuthorizationDecision
  check_permission none requirement context = unavailable
  check_permission (some checker) requirement context = checker (record {
    auth_context = context;
    permission = requirement.ref;
    resource = requirement.resource;
    tenant = requirement.tenant;
  })

  evaluate_policy :
      Option (AuthorizationPolicyEvaluator W)
      → Option String
      → Option String
      → AuthRequirement
      → AuthContext
      → Io W AuthorizationDecision
  evaluate_policy (some evaluator) (some resource) (some action) requirement context =
      evaluator (record {
        auth_context = context;
        resource = resource;
        action = action;
        tenant = requirement.tenant;
      })
  evaluate_policy _ _ _ requirement context = unavailable

  check_relation :
      Option (RelationChecker W)
      → Option String
      → AuthRequirement
      → AuthContext
      → Io W AuthorizationDecision
  check_relation (some checker) (some resource) requirement context = checker (record {
    auth_context = context;
    relation = requirement.ref;
    resource = resource;
    tenant = requirement.tenant;
  })
  check_relation _ _ requirement context = unavailable

  check_role : Option (RoleChecker W) → AuthRequirement → AuthContext → Io W AuthorizationDecision
  check_role none requirement context = unavailable
  check_role (some checker) requirement context =
      checker
        (record { auth_context = context; role = requirement.ref; tenant = requirement.tenant })

  check_scope : Option (ScopeChecker W) → AuthRequirement → AuthContext → Io W AuthorizationDecision
  check_scope none requirement context = unavailable
  check_scope (some checker) requirement context =
      checker (record { auth_context = context; scope = requirement.ref })

  by_kind : AuthRequirementKind → AuthRequirement → AuthContext → Io W AuthorizationDecision
  by_kind authenticated requirement context = λ w. (returned allow, w)
  by_kind permission requirement context =
      check_permission auth.permission_checker requirement context
  by_kind policy requirement context =
      evaluate_policy auth.authorization_policy_evaluator requirement.resource requirement.action
        requirement context
  by_kind relation requirement context =
      check_relation auth.relation_checker requirement.resource requirement context
  by_kind role requirement context = check_role auth.role_checker requirement context
  by_kind scope requirement context = check_scope auth.scope_checker requirement context

  unfoldable pub evaluate_requirement : AuthRequirement → AuthContext → Io W AuthorizationDecision
  unfolding by_kind check_permission evaluate_policy check_relation check_role check_scope
      unavailable provider_unavailable_decision
  evaluate_requirement requirement context = by_kind requirement.kind requirement context

  -- The `for` loop over the requirements: the first decision that is not ALLOW is raised.
  unfoldable pub enforce : List AuthRequirement → AuthContext → Io W (Unit {0})
  enforce [] context w = (returned tt, w)
  enforce (requirement ∷ rest) context w =
      let (result, w') = evaluate_requirement requirement context w in
      elim result [
        | raised e ↦ (raised e, w')
        | returned decision ↦ elim (is_allowed decision.state) [
          | true ↦ enforce rest context w'
          | false ↦ (raised (auth_requirement_denied decision), w')
        ]
      ]

  unfoldable pub enforce_verified : Result AuthContext → List AuthRequirement → Io W (Unit {0})
  enforce_verified (raised e) requirements w = (raised e, w)
  enforce_verified (returned context) requirements w = enforce requirements context w

  module _ {P : Type 0} (step_name : String) (data' : SagaData P) where
    unfoldable pub with_metadata : Result EffectiveAuthMetadata → Io W (Unit {0})
    with_metadata (raised e) w = (raised e, w)
    with_metadata (returned metadata) w =
        if protected metadata
        then (let (result, w') =
              verify_snapshot data'.auth_context_snapshot (invocation step_name data') w in
            enforce_verified result metadata.requirements w')
        else (returned tt, w)

    unfoldable pub authorize_step : Option Boundary → Option AuthSource → Io W (Unit {0})
    authorize_step none owner_type w = (returned tt, w)
    authorize_step (some boundary) owner_type w =
        with_metadata (get_effective_auth_metadata boundary owner_type) w
