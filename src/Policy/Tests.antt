-- ===== src/Policy/Tests.antt =====
-- A small policy document, and the theorems about evaluation applied to it.
use spakky_framework.Common.{
  ℕ, subst, ◌≤◌, ◌≡◌, refl, Bool, true, false, inl, inr, Option, none, some, List, [], ◌∷◌, ◌==◌,
  string_has_eq, Bool-cases, arith,
}
use spakky_framework.Effects.{Result, returned, raised, recursion_error}
use spakky_framework.Auth.Context.{AuthContext, AuthClaimValue, truth}
use spakky_framework.Auth.Decision.{allow as allow_decision, deny as deny_decision, policy_denied}
use spakky_framework.Auth.Ports.{PermissionCheckRequest}
use spakky_framework.Policy.Model.{
  PolicyRef, PolicyEffect, equals, ConditionComposition, scalar, PolicyCondition, policy_condition,
  no_children, child_then, PolicyStatement, PolicyDocument, PolicyEvaluationInput,
  PolicyEvaluationResult,
}
use spakky_framework.Policy.Conditions.{
  named, condition_matches, resolved_matches, resolve_condition,
}
use spakky_framework.Policy.Matching.{subject_permissions, statement_matches}
use spakky_framework.Policy.Evaluator.{evaluate, evaluate_one, selected_policies, check_permission}
use spakky_framework.Policy.Decisions.{Verdict, is_allow, statements_of, evaluate-Verdict}
use spakky_framework.Policy.Termination.{
  Formed, Ranked, depth, depth_inside, condition_matches-cyclic,
}
use spakky_framework.Policy.Totality.{evaluate-Returns}
use spakky_framework.Policy.Permissions.{Granted, check_permission-Granted}

abbrev reference : PolicyRef → PolicyCondition
reference ref = policy_condition (some ref) none none (scalar AuthClaimValue.null) none no_children

abbrev active : PolicyCondition
active =
    policy_condition (some "active") (some equals) (some "active") (scalar (truth true)) none
      no_children

abbrev not_of : Option PolicyRef → PolicyCondition → PolicyCondition
not_of ref c =
    policy_condition ref none none (scalar AuthClaimValue.null) (some ConditionComposition.not)
      (child_then c no_children)

abbrev statement :
    PolicyRef → PolicyEffect → List PolicyRef → Option PolicyCondition → PolicyStatement
statement ref effect permissions condition = record {
  ref = ref;
  effect = effect;
  subjects = [];
  roles = [];
  scopes = [];
  permissions = permissions;
  resources = [];
  actions = [];
  tenants = [];
  condition = condition;
}

abbrev document : PolicyDocument
document = record {
  version = "1";
  metadata = record { name = "docs"; description = none; labels = [] };
  subjects =
      record {
        ref = "alice";
        roles = "editor" ∷ [];
        scopes = [];
        permissions = [];
        claims = [];
        tenant = none;
      }
      ∷ [];
  resources = [];
  actions = [];
  permissions = [];
  roles = record { ref = "editor"; permissions = "doc:write" ∷ [] } ∷ [];
  scopes = [];
  policies =
      record {
        ref = "p";
        statements =
            statement "write" PolicyEffect.allow ("doc:write" ∷ []) none
            ∷ statement "idle" PolicyEffect.deny [] (some (not_of none (reference "active")))
            ∷ [];
        description = none;
      }
      ∷ [];
  conditions = active ∷ [];
}

abbrev alice : Bool → AuthContext
alice is_active = record {
  subject = record { id = "alice"; display_name = none };
  issuer = "test";
  tenant = none;
  roles = [];
  scopes = [];
  claims = record { name = "active"; value = truth is_active } ∷ [];
  credential_carrier = none;
  metadata = [];
}

abbrev asks : Bool → PermissionCheckRequest
asks is_active = record {
  auth_context = alice is_active;
  permission = "doc:write";
  resource = none;
  tenant = none;
}

abbrev input : Bool → PolicyEvaluationInput
input is_active = record {
  auth_context = alice is_active;
  resource = none;
  action = none;
  tenant = none;
  permission = some "doc:write";
  role = none;
  scope = none;
  policy = none;
}

program : Unit {0}
unfolding evaluate check_permission condition_matches selected_policies subject_permissions
    evaluate_one statement_matches resolved_matches resolve_condition
program = tt

allows_active : check_permission 9 document (asks true) ≡ returned allow_decision
unfolding program
allows_active = refl

denies_idle : check_permission 9 document (asks false) ≡ returned (deny_decision policy_denied)
unfolding program
denies_idle = refl

abbrev result_or : Result PolicyEvaluationResult → PolicyEvaluationResult
result_or (returned r) = r
result_or (raised _) = record { allowed = false; effect = none; evidence = [] }

evaluate-Verdict_example :
    ((result_or (evaluate 9 document (input false))).allowed
      ≡ is_allow (result_or (evaluate 9 document (input false))).effect)
    × Verdict 9 document
        (input false)
        (statements_of (selected_policies document none))
        (result_or (evaluate 9 document (input false))).effect
unfolding program
evaluate-Verdict_example = evaluate-Verdict 9 document (input false) _ refl

abbrev rank : PolicyRef → ℕ
rank _ = 1

some-injective : {A : Type 0} {a b : A} → some a ≡ some b → a ≡ b
some-injective h = cc

document-Ranked : Ranked rank document.conditions
unfolding named depth
document-Ranked ref entry h = elim (Bool-cases (ref == "active")) [
  | inl is ↦
      subst (λ e. (depth_inside rank e.1 ≤ 1) × Formed e.1) (some-injective (rw is at h))
        (omega arith, (tt, tt))
  | inr other ↦ absurd (cc (rw other at h))
]

evaluate-Returns_example :
    (r : PolicyEvaluationResult) × (evaluate 9 document (input true) ≡ returned r)
unfolding selected_policies depth
evaluate-Returns_example =
    evaluate-Returns rank 9 document (input true) document-Ranked
      (tt, (((tt, ((tt, tt), tt)), omega arith), tt))

check_permission-Granted_example : Granted document (alice true) "doc:write"
check_permission-Granted_example =
    check_permission-Granted 9 document (asks true) allow_decision allows_active refl

-- A condition named "loop" that negates itself.
condition_matches-cyclic_example :
    condition_matches 100 (not_of (some "loop") (reference "loop") ∷ []) [] (reference "loop")
    ≡ raised recursion_error
unfolding named
condition_matches-cyclic_example =
    condition_matches-cyclic (not_of (some "loop") (reference "loop") ∷ []) [] "loop" "loop"
      (some "loop") none none none (scalar AuthClaimValue.null) (scalar AuthClaimValue.null)
      no_children no_children 100 refl
