-- ===== src/Policy/Conditions.antt =====
-- plugins/spakky-policy/src/spakky/plugins/policy/evaluator.py: conditions on the caller's claims.
-- Running out of fuel is Python's RecursionError: the fuel is the depth of calls left.
use package.text.Mathlib.Text.{find?}
use spakky_framework.Common.{
  ℕ, zero, suc, String, Bool, true, false, not, Option, none, some, List, [], ◌∷◌, ◌==◌, nat_eq,
  if◌then◌else◌, any, string_has_eq,
}
use spakky_framework.Effects.{Result, returned, raised, index_error, recursion_error}
use spakky_framework.Auth.Context.{AuthClaim, null, text, truth, number}
use spakky_framework.Policy.Model.{
  PolicyRef, ClaimValue, ConditionOperator, equals, not_equals, is_in, exists, ConditionComposition,
  ConditionValue, scalar, tuple, PolicyCondition, policy_condition, Children, no_children,
  child_then,
}

-- The last element of the list under that key: `{key(x): x for x in xs}.get(k)`.
unfoldable pub get_last {ℓ} : {A : Type ℓ} → (A → String) → String → List A → Option A
get_last key k [] = none
get_last key k (x ∷ xs) = elim (get_last key k xs) [
  | some y ↦ some y
  | none ↦ if k == key x then some x else none
]

abbrev pub truth_number : Bool → ℕ
truth_number true = 1
truth_number false = 0

-- Python's `==` on scalars: True is 1 and False is 0.
abbrev pub truth_eq : Bool → Bool → Bool
truth_eq a b = nat_eq (truth_number a) (truth_number b)

unfoldable pub claim_eq : ClaimValue → ClaimValue → Bool
claim_eq null null = true
claim_eq (text s) (text t) = s == t
claim_eq (truth a) (truth b) = truth_eq a b
claim_eq (truth a) (number n) = nat_eq (truth_number a) n
claim_eq (number n) (truth a) = nat_eq n (truth_number a)
claim_eq (number m) (number n) = nat_eq m n
claim_eq _ _ = false

-- A scalar never equals a tuple.
unfoldable pub value_eq : ClaimValue → ConditionValue → Bool
unfolding claim_eq
value_eq actual (scalar expected) = claim_eq actual expected
value_eq actual (tuple _) = false

unfoldable pub is_among : ClaimValue → ConditionValue → Bool
unfolding claim_eq any
is_among actual (scalar expected) = claim_eq actual expected
is_among actual (tuple expected) = any (claim_eq actual) expected

abbrev pub found : Option ℕ → Bool
found none = false
found (some _) = true

unfoldable pub has_text : ClaimValue → ConditionValue → Bool
has_text (text actual) (scalar (text expected)) = found (find? actual expected)
has_text _ _ = false

abbrev pub is_null : ClaimValue → Bool
is_null null = true
is_null _ = false

unfoldable pub operator_matches : Option ConditionOperator → ClaimValue → ConditionValue → Bool
unfolding value_eq is_among has_text
operator_matches (some exists) actual expected = not (is_null actual)
operator_matches (some equals) actual expected = value_eq actual expected
operator_matches (some not_equals) actual expected = not (value_eq actual expected)
operator_matches (some is_in) actual expected = is_among actual expected
operator_matches (some ConditionOperator.contains) actual expected = has_text actual expected
operator_matches none actual expected = false

pub first_claim : String → List AuthClaim → ClaimValue
first_claim key [] = null
first_claim key (claim ∷ claims) =
    let rest = first_claim key claims in if claim.name == key then claim.value else rest

unfoldable pub claim_value : List AuthClaim → Option String → ClaimValue
unfolding first_claim
claim_value claims none = null
claim_value claims (some key) = first_claim key claims

-- The comprehension of `__init__` drops conditions with no ref.
unfoldable pub named_conditions : List PolicyCondition → List (PolicyRef × PolicyCondition)
named_conditions [] = []
named_conditions (policy_condition (some ref) o k v c cs ∷ rest) =
    (ref, policy_condition (some ref) o k v c cs) ∷ named_conditions rest
named_conditions (policy_condition none o k v c cs ∷ rest) = named_conditions rest

unfoldable pub named : List PolicyCondition → PolicyRef → Option (PolicyRef × PolicyCondition)
unfolding named_conditions get_last
named conditions ref = get_last (λ entry. entry.0) ref (named_conditions conditions)

abbrev pub or_itself : PolicyCondition → Option (PolicyRef × PolicyCondition) → PolicyCondition
or_itself c none = c
or_itself c (some (_, found')) = found'

unfoldable pub resolve_condition : List PolicyCondition → PolicyCondition → PolicyCondition
unfolding named
resolve_condition conditions (policy_condition (some ref) none k v none cs) =
    or_itself (policy_condition (some ref) none k v none cs) (named conditions ref)
resolve_condition conditions c = c

-- Python's `all` and `any` over the children: they stop at the first that decides, or raises.
unfoldable pub all_children : (PolicyCondition → Result Bool) → Children → Result Bool
all_children matches no_children = returned true
all_children matches (child_then c cs) = elim (matches c) [
  | returned true ↦ all_children matches cs
  | returned false ↦ returned false
  | raised e ↦ raised e
]

unfoldable pub any_child : (PolicyCondition → Result Bool) → Children → Result Bool
any_child matches no_children = returned false
any_child matches (child_then c cs) = elim (matches c) [
  | returned true ↦ returned true
  | returned false ↦ any_child matches cs
  | raised e ↦ raised e
]

abbrev pub negate : Result Bool → Result Bool
negate (returned b) = returned (not b)
negate (raised e) = raised e

-- `not self._condition_matches(resolved.children[0], …)`
unfoldable pub not_first_child : (PolicyCondition → Result Bool) → Children → Result Bool
not_first_child matches no_children = raised index_error
not_first_child matches (child_then c cs) = negate (matches c)

-- What `_condition_matches` does with a resolved condition.
unfoldable pub resolved_matches :
    (PolicyCondition → Result Bool) → List AuthClaim → PolicyCondition → Result Bool
unfolding all_children any_child not_first_child operator_matches claim_value
resolved_matches matches claims (policy_condition r o k v (some ConditionComposition.all) cs) =
    all_children matches cs
resolved_matches matches claims (policy_condition r o k v (some ConditionComposition.any) cs) =
    any_child matches cs
resolved_matches matches claims (policy_condition r o k v (some ConditionComposition.not) cs) =
    not_first_child matches cs
resolved_matches matches claims (policy_condition r o k v none cs) =
    returned (operator_matches o (claim_value claims k) v)

unfoldable pub condition_matches :
    ℕ → List PolicyCondition → List AuthClaim → PolicyCondition → Result Bool
condition_matches zero conditions claims c = raised recursion_error
condition_matches (suc fuel) conditions claims c =
    resolved_matches (condition_matches fuel conditions claims) claims
      (resolve_condition conditions c)
