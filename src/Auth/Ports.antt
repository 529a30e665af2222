-- ===== src/Auth/Ports.antt =====
-- core/spakky-auth/src/spakky/auth/ports.py: what enforcement asks of a provider. A provider is a
-- function that may read and change the outside world, and may raise.
use spakky_framework.Common.{String, Option}
use spakky_framework.Effects.{Io}
use spakky_framework.Auth.Context.{AuthContext, AuthInvocation}
use spakky_framework.Auth.Decision.{AuthorizationDecision}

pub record AuthorizationRequest : Type 0 where
  pub auth_context : AuthContext
  pub resource : String
  pub action : String
  pub tenant : Option String

pub record PermissionCheckRequest : Type 0 where
  pub auth_context : AuthContext
  pub permission : String
  pub resource : Option String
  pub tenant : Option String

pub record RoleCheckRequest : Type 0 where
  pub auth_context : AuthContext
  pub role : String
  pub tenant : Option String

pub record ScopeCheckRequest : Type 0 where
  pub auth_context : AuthContext
  pub scope : String

pub record RelationCheckRequest : Type 0 where
  pub auth_context : AuthContext
  pub relation : String
  pub resource : String
  pub tenant : Option String

abbrev pub AuthorizationPolicyEvaluator : Type 0 → Type 0
AuthorizationPolicyEvaluator W = AuthorizationRequest → Io W AuthorizationDecision

abbrev pub PermissionChecker : Type 0 → Type 0
PermissionChecker W = PermissionCheckRequest → Io W AuthorizationDecision

abbrev pub RoleChecker : Type 0 → Type 0
RoleChecker W = RoleCheckRequest → Io W AuthorizationDecision

abbrev pub ScopeChecker : Type 0 → Type 0
ScopeChecker W = ScopeCheckRequest → Io W AuthorizationDecision

abbrev pub RelationChecker : Type 0 → Type 0
RelationChecker W = RelationCheckRequest → Io W AuthorizationDecision

abbrev pub SnapshotVerifier : Type 0 → Type 0
SnapshotVerifier W = String → AuthInvocation → Io W AuthContext
