-- ===== src/Policy/Matching.antt =====
-- plugins/spakky-policy/src/spakky/plugins/policy/evaluator.py: which statements match a request.
use spakky_framework.Common.{
  ℕ, Bool, true, false, ◌&&◌, ◌||◌, Option, none, some, List, [], ◌∷◌, ◌++◌, any, contains,
  is_empty, if◌then◌else◌, string_has_eq,
}
use spakky_framework.Effects.{Result, returned, raised}
use spakky_framework.Auth.Context.{AuthContext}
use spakky_framework.Policy.Model.{
  PolicyRef, PolicySubject, PolicyRole, PolicyScope, PolicyStatement, PolicyDocument,
  PolicyEvaluationInput, PolicyEvaluationEvidence, condition_matched, condition_failed,
}
use spakky_framework.Policy.Conditions.{get_last, condition_matches}

-- `tuple(dict.fromkeys(xs))`: the first of each; `seen` are the keys so far.
unfoldable pub from_keys : List PolicyRef → List PolicyRef → List PolicyRef
unfolding contains
from_keys seen [] = []
from_keys seen (x ∷ xs) =
    let old = from_keys seen xs in
    let new = from_keys (x ∷ seen) xs in if contains x seen then old else x ∷ new

unfoldable pub intersects : List PolicyRef → List PolicyRef → Bool
unfolding any contains
intersects expected actual = any (λ item. contains item actual) expected

-- A test that an empty list passes.
abbrev pub unless_empty : List PolicyRef → Bool → Bool
unless_empty wanted test = is_empty wanted || test

abbrev pub is_wanted : Option PolicyRef → List PolicyRef → Bool
is_wanted none wanted = false
is_wanted (some ref) wanted = contains ref wanted

abbrev pub or_default : Option PolicyRef → Option PolicyRef → Option PolicyRef
or_default none default = default
or_default (some ref) default = some ref

unfoldable pub roles_of : Option PolicySubject → List PolicyRef
roles_of none = []
roles_of (some subject) = subject.roles

unfoldable pub scopes_of : Option PolicySubject → List PolicyRef
scopes_of none = []
scopes_of (some subject) = subject.scopes

unfoldable pub permissions_of : Option PolicySubject → List PolicyRef
permissions_of none = []
permissions_of (some subject) = subject.permissions

-- `for ref in refs: permissions.extend(get(ref))`
unfoldable pub extend_all : (PolicyRef → List PolicyRef) → List PolicyRef → List PolicyRef
extend_all get [] = []
extend_all get (ref ∷ refs) = get ref ++ extend_all get refs

module _ (document : PolicyDocument) where
  -- `self._subjects.get(…)`
  unfoldable pub subject_of : AuthContext → Option PolicySubject
  unfolding get_last
  subject_of auth_context =
      get_last (λ subject. subject.ref) auth_context.subject.id document.subjects

  unfoldable pub subject_roles : AuthContext → List PolicyRef
  unfolding subject_of roles_of
  subject_roles auth_context = auth_context.roles ++ roles_of (subject_of auth_context)

  unfoldable pub subject_scopes : AuthContext → List PolicyRef
  unfolding subject_of scopes_of
  subject_scopes auth_context = auth_context.scopes ++ scopes_of (subject_of auth_context)

  role_entry : Option PolicyRole → List PolicyRef
  role_entry none = []
  role_entry (some role) = role.permissions

  scope_entry : Option PolicyScope → List PolicyRef
  scope_entry none = []
  scope_entry (some scope) = scope.permissions

  unfoldable pub role_permissions : PolicyRef → List PolicyRef
  unfolding get_last role_entry
  role_permissions ref = role_entry (get_last (λ role. role.ref) ref document.roles)

  unfoldable pub scope_permissions : PolicyRef → List PolicyRef
  unfolding get_last scope_entry
  scope_permissions ref = scope_entry (get_last (λ scope. scope.ref) ref document.scopes)

  unfoldable pub subject_permissions : AuthContext → List PolicyRef
  unfolding from_keys extend_all permissions_of roles_of scopes_of subject_of role_permissions
      scope_permissions
  subject_permissions auth_context =
      let subject = subject_of auth_context in
      from_keys [] (
        permissions_of subject
        ++ (extend_all role_permissions (roles_of subject)
            ++ (extend_all scope_permissions (scopes_of subject)
                ++ (extend_all role_permissions auth_context.roles
                    ++ extend_all scope_permissions auth_context.scopes))))

  unfoldable pub matches_subject : PolicyStatement → AuthContext → Bool
  unfolding contains
  matches_subject statement auth_context =
      unless_empty statement.subjects (contains auth_context.subject.id statement.subjects)

  unfoldable pub matches_roles : PolicyStatement → AuthContext → Bool
  unfolding intersects subject_roles
  matches_roles statement auth_context =
      unless_empty statement.roles (intersects statement.roles (subject_roles auth_context))

  unfoldable pub matches_scopes : PolicyStatement → AuthContext → Bool
  unfolding intersects subject_scopes
  matches_scopes statement auth_context =
      unless_empty statement.scopes (intersects statement.scopes (subject_scopes auth_context))

  unfoldable pub matches_permissions : PolicyStatement → PolicyEvaluationInput → Bool
  unfolding intersects subject_permissions
  matches_permissions statement request =
      unless_empty statement.permissions
        (intersects statement.permissions (subject_permissions request.auth_context))

  unfoldable pub permission_granted : PolicyStatement → PolicyRef → AuthContext → Bool
  unfolding contains subject_permissions
  permission_granted statement permission auth_context =
      unless_empty statement.permissions (contains permission statement.permissions)
      && contains permission (subject_permissions auth_context)

  unfoldable pub matches_requested_permission : PolicyStatement → PolicyEvaluationInput → Bool
  unfolding permission_granted
  matches_requested_permission statement request = elim request.permission [
    | none ↦ true
    | some permission ↦ permission_granted statement permission request.auth_context
  ]

  unfoldable pub matches_resources : PolicyStatement → Option PolicyRef → Bool
  unfolding contains
  matches_resources statement resource =
      unless_empty statement.resources (is_wanted resource statement.resources)

  unfoldable pub matches_actions : PolicyStatement → Option PolicyRef → Bool
  unfolding contains
  matches_actions statement action =
      unless_empty statement.actions (is_wanted action statement.actions)

  unfoldable pub matches_tenants : PolicyStatement → PolicyEvaluationInput → Bool
  unfolding contains
  matches_tenants statement request =
      unless_empty statement.tenants
        (is_wanted (or_default request.tenant request.auth_context.tenant) statement.tenants)

  unfoldable pub matches_requested_role : PolicyStatement → Option PolicyRef → Bool
  unfolding contains
  matches_requested_role statement none = true
  matches_requested_role statement (some role) =
      unless_empty statement.roles (contains role statement.roles)

  unfoldable pub matches_requested_scope : PolicyStatement → Option PolicyRef → Bool
  unfolding contains
  matches_requested_scope statement none = true
  matches_requested_scope statement (some scope) =
      unless_empty statement.scopes (contains scope statement.scopes)

  -- `_statement_matches` up to the condition.
  unfoldable pub matches_request : PolicyStatement → PolicyEvaluationInput → Bool
  unfolding matches_subject matches_roles matches_scopes matches_permissions
      matches_requested_permission matches_resources matches_actions matches_tenants
      matches_requested_role matches_requested_scope
  matches_request statement request =
      matches_subject statement request.auth_context
      && matches_roles statement request.auth_context
      && matches_scopes statement request.auth_context
      && matches_permissions statement request
      && matches_requested_permission statement request
      && matches_resources statement request.resource
      && matches_actions statement request.action
      && matches_tenants statement request
      && matches_requested_role statement request.role
      && matches_requested_scope statement request.scope

-- The evidence of a condition.
abbrev pub condition_evidence : Bool → PolicyRef → PolicyRef → PolicyEvaluationEvidence
condition_evidence true policy statement = record {
  kind = condition_matched;
  policy = some policy;
  statement = some statement;
  reason = "statement condition matched";
}
condition_evidence false policy statement = record {
  kind = condition_failed;
  policy = some policy;
  statement = some statement;
  reason = "statement condition failed";
}

abbrev pub Evidence : Type 0
Evidence = List PolicyEvaluationEvidence

module _ (fuel : ℕ) (document : PolicyDocument) where
  unfoldable pub matches_condition :
      PolicyStatement → PolicyEvaluationInput → Evidence → PolicyRef → Result (Bool × Evidence)
  unfolding condition_matches
  matches_condition statement request evidence policy_ref = elim statement.condition [
    | none ↦ returned (true, evidence)
    | some c ↦ elim (condition_matches fuel document.conditions request.auth_context.claims c) [
      | raised e ↦ raised e
      | returned matched ↦
          returned (matched, evidence ++ condition_evidence matched policy_ref statement.ref ∷ [])
    ]
  ]

  unfoldable pub statement_matches :
      PolicyStatement → PolicyEvaluationInput → Evidence → PolicyRef → Result (Bool × Evidence)
  unfolding matches_request matches_condition
  statement_matches statement request evidence policy_ref =
      elim (matches_request document statement request) [
        | true ↦ matches_condition statement request evidence policy_ref
        | false ↦ returned (false, evidence)
      ]
