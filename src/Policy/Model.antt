-- ===== src/Policy/Model.antt =====
-- plugins/spakky-policy/src/spakky/plugins/policy/model.py: policy documents, and the result of
-- an evaluation. A scalar of JSON is a claim's value: as in a claim, a number stands by a code, and
-- 0 and 1 stand by themselves.
use spakky_framework.Common.{String, Bool, Option, List}
use spakky_framework.Auth.Context.{AuthClaimValue, AuthContext}

abbrev pub ClaimValue : Type 0
ClaimValue = AuthClaimValue

abbrev pub PolicyRef : Type 0
PolicyRef = String

pub data PolicyEffect : Type 0 where
  allow deny : PolicyEffect

pub data ConditionOperator : Type 0 where
  equals not_equals is_in contains exists : ConditionOperator

pub data ConditionComposition : Type 0 where
  all any not : ConditionComposition

pub data PolicyEvidenceKind : Type 0 where
  statement_matched statement_skipped : PolicyEvidenceKind
  condition_matched condition_failed default_deny : PolicyEvidenceKind

pub record PolicyMetadata : Type 0 where
  pub name : String
  pub description : Option String
  pub labels : List String

-- A pair of a claim's name and its value.
pub record BoundClaim : Type 0 where
  pub name : String
  pub value : ClaimValue

pub record PolicySubject : Type 0 where
  pub ref : PolicyRef
  pub roles : List PolicyRef
  pub scopes : List PolicyRef
  pub permissions : List PolicyRef
  pub claims : List BoundClaim
  pub tenant : Option PolicyRef

pub record PolicyResource : Type 0 where
  pub ref : PolicyRef
  pub tenant : Option PolicyRef

pub record PolicyAction : Type 0 where
  pub ref : PolicyRef

pub record PolicyPermission : Type 0 where
  pub ref : PolicyRef
  pub resources : List PolicyRef
  pub actions : List PolicyRef

pub record PolicyRole : Type 0 where
  pub ref : PolicyRef
  pub permissions : List PolicyRef

pub record PolicyScope : Type 0 where
  pub ref : PolicyRef
  pub permissions : List PolicyRef

-- `ClaimValue | tuple[ClaimValue, ...]`
pub data ConditionValue : Type 0 where
  scalar : ClaimValue → ConditionValue
  tuple : List ClaimValue → ConditionValue

-- A condition holds a tuple of conditions: `Children`.
mutual
  pub data PolicyCondition : Type 0 where
    policy_condition :
        (ref : Option PolicyRef) (operator : Option ConditionOperator) (key : Option String)
        (value : ConditionValue) (composition : Option ConditionComposition) (children : Children)
        → PolicyCondition

  pub data Children : Type 0 where
    no_children : Children
    child_then : PolicyCondition → Children → Children

pub record PolicyStatement : Type 0 where
  pub ref : PolicyRef
  pub effect : PolicyEffect
  pub subjects : List PolicyRef
  pub roles : List PolicyRef
  pub scopes : List PolicyRef
  pub permissions : List PolicyRef
  pub resources : List PolicyRef
  pub actions : List PolicyRef
  pub tenants : List PolicyRef
  pub condition : Option PolicyCondition

pub record NamedPolicy : Type 0 where
  pub ref : PolicyRef
  pub statements : List PolicyStatement
  pub description : Option String

pub record PolicyDocument : Type 0 where
  pub version : String
  pub metadata : PolicyMetadata
  pub subjects : List PolicySubject
  pub resources : List PolicyResource
  pub actions : List PolicyAction
  pub permissions : List PolicyPermission
  pub roles : List PolicyRole
  pub scopes : List PolicyScope
  pub policies : List NamedPolicy
  pub conditions : List PolicyCondition

pub record PolicyEvaluationEvidence : Type 0 where
  pub kind : PolicyEvidenceKind
  pub policy : Option PolicyRef
  pub statement : Option PolicyRef
  pub reason : String

pub record PolicyEvaluationResult : Type 0 where
  pub allowed : Bool
  pub effect : Option PolicyEffect
  pub evidence : List PolicyEvaluationEvidence

-- evaluator.py: the input of one evaluation.
pub record PolicyEvaluationInput : Type 0 where
  pub auth_context : AuthContext
  pub resource : Option PolicyRef
  pub action : Option PolicyRef
  pub tenant : Option PolicyRef
  pub permission : Option PolicyRef
  pub role : Option PolicyRef
  pub scope : Option PolicyRef
  pub policy : Option PolicyRef
