-- ===== src/Auth/Tests.antt =====
-- core/spakky-auth: a method that needs a role, and a caller with and without it.
use spakky_framework.Common.{
  ℕ, suc, ◌≡◌, refl, ◌⊎◌, false, some, none, [], ◌∷◌, contains, if◌then◌else◌, string_has_eq,
}
use spakky_framework.Effects.{Exn, Result, returned, raised, Io, and_then, auth_requirement_denied}
use spakky_framework.Auth.Context.{AuthContext}
use spakky_framework.Auth.Decision.{allow, deny, insufficient_role}
use spakky_framework.Auth.Metadata.{
  AuthRequirement, role, Boundary, EffectiveAuthMetadata, get_effective_auth_metadata,
}
use spakky_framework.Auth.Aspect.{
  AuthorizationAspect, auth_context_value, current_auth_context, require_auth_context, allows,
  ask_role, decide, require_all, authorize, around_protected,
}
use spakky_framework.Auth.Enforcement.{Enforced, around_protected-Enforced}

abbrev needs_admin : AuthRequirement
needs_admin = record { kind = role; ref = "admin"; resource = none; action = none; tenant = none }

abbrev admin_only : Boundary
admin_only = record {
  is_type = false;
  source = record { public_marker = false; declared = needs_admin ∷ [] };
  self_owner = none;
}

abbrev metadata : EffectiveAuthMetadata
metadata = record { public_access = false; requirements = needs_admin ∷ [] }

abbrev alice : AuthContext
alice = record {
  subject = record { id = "alice"; display_name = none };
  issuer = "test";
  tenant = none;
  roles = "user" ∷ [];
  scopes = [];
  claims = [];
  credential_carrier = none;
  metadata = [];
}

-- The world counts the calls of the method.
abbrev aspect : AuthorizationAspect ℕ
aspect = record {
  application_context = some (λ w. some (auth_context_value alice));
  authorization_policy_evaluator = none;
  permission_checker = none;
  relation_checker = none;
  role_checker = some (λ request w. (
    returned (
        if contains request.role request.auth_context.roles then allow else deny insufficient_role),
    w,
  ));
  scope_checker = none;
}

abbrev method : ℕ → Io ℕ ℕ
method x w = (returned x, suc w)

alice_denied :
    around_protected aspect admin_only method 3 0
    ≡ (raised (auth_requirement_denied (deny insufficient_role)), 0)
unfolding around_protected authorize require_all decide ask_role allows current_auth_context
    require_auth_context get_effective_auth_metadata contains
alice_denied = refl

around_protected-Enforced_example :
    ((e : Exn) × (current_auth_context aspect 0 ≡ raised e)
      × (around_protected aspect admin_only method 3 0 ≡ (raised e, 0)))
    ⊎ ((auth_context : AuthContext) × (end : Result (Unit {0}) × ℕ) × (current_auth_context aspect 0
          ≡ returned auth_context)
        × Enforced aspect auth_context (needs_admin ∷ []) 0 end
        × (around_protected aspect admin_only method 3 0 ≡ and_then (λ _. end) (λ _. method 3) 0))
unfolding get_effective_auth_metadata
around_protected-Enforced_example =
    around_protected-Enforced aspect admin_only metadata method 3 0 refl refl
