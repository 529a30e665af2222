-- ===== src/Auth/Aspect.antt =====
-- core/spakky-auth/src/spakky/auth/aspects/authorization.py: the aspect around a protected method,
-- and `require_auth_context` of auth/context.py.
use spakky_framework.Common.{
  String, Bool, true, false, Option, none, some, List, [], ◌∷◌, if◌then◌else◌,
}
use spakky_framework.Effects.{
  Result, returned, raised, Io, and_then, return_, raise, auth_requirement_denied,
  auth_requirement_provider_unavailable, auth_context_not_found, invalid_auth_context_value,
}
use spakky_framework.Auth.Context.{AuthContext}
use spakky_framework.Auth.Decision.{
  AuthorizationDecision, AuthorizationDecisionState, allowed, allow,
}
use spakky_framework.Auth.Metadata.{
  AuthRequirement, authenticated, permission, policy, relation, role, scope, Boundary,
  EffectiveAuthMetadata, protected, get_effective_auth_metadata,
}
use spakky_framework.Auth.Ports.{
  AuthorizationPolicyEvaluator, PermissionChecker, RelationChecker, RoleChecker, ScopeChecker,
}

-- What the context of the application holds under the key of the auth context.
pub data ContextValue : Type 0 where
  auth_context_value : AuthContext → ContextValue
  other_value : ContextValue

unfoldable pub require_auth_context : Option ContextValue → Result AuthContext
require_auth_context (some (auth_context_value auth_context)) = returned auth_context
require_auth_context (some other_value) = raised invalid_auth_context_value
require_auth_context none = raised auth_context_not_found

-- AuthorizationAspect, and AsyncAuthorizationAspect, whose code is the same with awaits. The
-- application's context is read from the world.
pub record AuthorizationAspect (W : Type 0) : Type 0 where
  pub application_context : Option (W → Option ContextValue)
  pub authorization_policy_evaluator : Option (AuthorizationPolicyEvaluator W)
  pub permission_checker : Option (PermissionChecker W)
  pub relation_checker : Option (RelationChecker W)
  pub role_checker : Option (RoleChecker W)
  pub scope_checker : Option (ScopeChecker W)

unfoldable pub allows : AuthorizationDecisionState → Bool
allows allowed = true
allows _ = false

module _ {W : Type 0} where
  unfoldable pub ask_permission :
      Option (PermissionChecker W) → AuthRequirement → AuthContext → Io W AuthorizationDecision
  ask_permission none requirement auth_context = raise auth_requirement_provider_unavailable
  ask_permission (some checker) requirement auth_context = checker (record {
    auth_context = auth_context;
    permission = requirement.ref;
    resource = requirement.resource;
    tenant = requirement.tenant;
  })

  unfoldable pub ask_policy :
      Option (AuthorizationPolicyEvaluator W)
      → Option String
      → Option String
      → AuthRequirement
      → AuthContext
      → Io W AuthorizationDecision
  ask_policy (some evaluator) (some resource) (some action) requirement auth_context =
      evaluator (record {
        auth_context = auth_context;
        resource = resource;
        action = action;
        tenant = requirement.tenant;
      })
  ask_policy _ _ _ requirement auth_context = raise auth_requirement_provider_unavailable

  unfoldable pub ask_relation :
      Option (RelationChecker W)
      → Option String
      → AuthRequirement
      → AuthContext
      → Io W AuthorizationDecision
  ask_relation (some checker) (some resource) requirement auth_context = checker (record {
    auth_context = auth_context;
    relation = requirement.ref;
    resource = resource;
    tenant = requirement.tenant;
  })
  ask_relation _ _ requirement auth_context = raise auth_requirement_provider_unavailable

  unfoldable pub ask_role :
      Option (RoleChecker W) → AuthRequirement → AuthContext → Io W AuthorizationDecision
  ask_role none requirement auth_context = raise auth_requirement_provider_unavailable
  ask_role (some checker) requirement auth_context =
      checker (record {
        auth_context = auth_context;
        role = requirement.ref;
        tenant = requirement.tenant;
      })

  unfoldable pub ask_scope :
      Option (ScopeChecker W) → AuthRequirement → AuthContext → Io W AuthorizationDecision
  ask_scope none requirement auth_context = raise auth_requirement_provider_unavailable
  ask_scope (some checker) requirement auth_context =
      checker (record { auth_context = auth_context; scope = requirement.ref })

module _ {W : Type 0} (aspect : AuthorizationAspect W) where
  -- `_evaluate_requirement`
  unfoldable pub decide : AuthRequirement → AuthContext → Io W AuthorizationDecision
  unfolding ask_permission ask_policy ask_relation ask_role ask_scope
  decide requirement auth_context = elim requirement.kind [
    | authenticated ↦ return_ allow
    | permission ↦ ask_permission aspect.permission_checker requirement auth_context
    | policy ↦
        ask_policy aspect.authorization_policy_evaluator requirement.resource requirement.action
          requirement auth_context
    | relation ↦ ask_relation aspect.relation_checker requirement.resource requirement auth_context
    | role ↦ ask_role aspect.role_checker requirement auth_context
    | scope ↦ ask_scope aspect.scope_checker requirement auth_context
  ]

  -- The loop over the requirements.
  unfoldable pub require_all : List AuthRequirement → AuthContext → Io W (Unit {0})
  unfolding decide allows
  require_all [] auth_context = return_ tt
  require_all (requirement ∷ rest) auth_context =
      let others = require_all rest auth_context in
      and_then (decide requirement auth_context) (λ decision.
        if allows decision.state then others else raise (auth_requirement_denied decision))

  -- `require_auth_context(self._required_application_context())`
  unfoldable pub current_auth_context : W → Result AuthContext
  unfolding require_auth_context
  current_auth_context w = elim aspect.application_context [
    | none ↦ raised auth_context_not_found
    | some get_value ↦ require_auth_context (get_value w)
  ]

  unfoldable pub authorize : EffectiveAuthMetadata → Io W (Unit {0})
  unfolding current_auth_context require_all
  authorize metadata w = elim (current_auth_context w) [
    | raised e ↦ (raised e, w)
    | returned auth_context ↦ require_all metadata.requirements auth_context w
  ]

  -- `around`, on a method whose metadata is that of `boundary`.
  unfoldable pub around_protected : {X A : Type 0} → Boundary → (X → Io W A) → X → Io W A
  unfolding authorize get_effective_auth_metadata
  around_protected boundary joinpoint x = elim (get_effective_auth_metadata boundary none) [
    | raised e ↦ raise e
    | returned metadata ↦
        if protected metadata then and_then (authorize metadata) (λ _. joinpoint x) else joinpoint x
  ]
