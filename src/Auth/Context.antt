-- ===== src/Auth/Context.antt =====
-- core/spakky-auth/src/spakky/auth/context.py, credential.py and invocation.py: who calls, and
-- where. A number in a claim is only ever compared: it stands by a code, one for each value that
-- Python's `==` tells apart.
use spakky_framework.Common.{ℕ, String, Bool, Option, List}

pub data AuthClaimValue : Type 0 where
  null : AuthClaimValue
  text : String → AuthClaimValue
  truth : Bool → AuthClaimValue
  number : ℕ → AuthClaimValue

pub record AuthClaim : Type 0 where
  pub name : String
  pub value : AuthClaimValue

pub record AuthSubject : Type 0 where
  pub id : String
  pub display_name : Option String

pub data CredentialCarrierKind : Type 0 where
  bearer_token api_key basic client_certificate auth_context_snapshot : CredentialCarrierKind

pub data CredentialCarrierLocation : Type 0 where
  authorization_header header query_parameter metadata : CredentialCarrierLocation
  cookie cli_option application_context : CredentialCarrierLocation

pub record CredentialCarrier : Type 0 where
  pub kind : CredentialCarrierKind
  pub location : CredentialCarrierLocation
  pub material : String
  pub name : Option String
  pub scheme : Option String

pub record AuthContext : Type 0 where
  pub subject : AuthSubject
  pub issuer : String
  pub tenant : Option String
  pub roles : List String
  pub scopes : List String
  pub claims : List AuthClaim
  pub credential_carrier : Option CredentialCarrier
  pub metadata : List AuthClaim

pub record AuthInvocationAttribute : Type 0 where
  pub name : String
  pub value : AuthClaimValue

pub record AuthInvocation : Type 0 where
  pub boundary : String
  pub operation : String
  pub subject : Option AuthSubject
  pub attributes : List AuthInvocationAttribute
