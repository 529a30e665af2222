-- ===== src/Policy/Termination.antt =====
-- plugins/spakky-policy/src/spakky/plugins/policy/evaluator.py: when the recursion over conditions
-- ends. A rank orders the names of conditions so that none refers to itself, however indirectly.
use spakky_framework.Common.{
  not, ℕ, String, zero, suc, ◌≤◌, Bool, true, false, ◌≡◌, refl, inl, inr, Option, none, some, List,
  arith, Option-cases, ltb, if◌then◌else◌,
}
use spakky_framework.Effects.{Result, returned, raised, recursion_error}
use spakky_framework.Auth.Context.{AuthClaim}
use spakky_framework.Policy.Model.{
  PolicyRef, ConditionOperator, ConditionComposition, ConditionValue, PolicyCondition,
  policy_condition, Children, no_children, child_then,
}
use spakky_framework.Policy.Conditions.{
  named, resolve_condition, all_children, any_child, not_first_child, resolved_matches,
  condition_matches,
}

abbrev max : ℕ → ℕ → ℕ
max a b = if ltb a b then b else a

max_left : (a b : ℕ) → a ≤ max a b
max_left a b = ground arith

max_right : (a b : ℕ) → b ≤ max a b
max_right a b = ground arith

abbrev pub Returns : {A : Type 0} → Result A → Type 0
Returns {A} r = (a : A) × (r ≡ returned a)

-- A negation has a child.
abbrev HasChild : Option ConditionComposition → Children → Type 0
HasChild (some ConditionComposition.not) no_children = ⊥
HasChild _ _ = Unit

abbrev mutual
  pub Formed : PolicyCondition → Type 0
  Formed (policy_condition r o k v composition cs) = HasChild composition cs × FormedChildren cs

  pub FormedChildren : Children → Type 0
  FormedChildren no_children = Unit
  FormedChildren (child_then c cs) = Formed c × FormedChildren cs

abbrev pub children_of : PolicyCondition → Children
children_of (policy_condition r o k v composition cs) = cs

-- Every child satisfies `P`.
abbrev Each : (PolicyCondition → Type 0) → Children → Type 0
Each P no_children = Unit
Each P (child_then c cs) = P c × Each P cs

children_Formed : (c : PolicyCondition) → Formed c → FormedChildren (children_of c)
children_Formed (policy_condition r o k v composition cs) (_, formed) = formed

all_children-Returns :
    (matches : PolicyCondition → Result Bool) (cs : Children)
    → Each (λ c. Returns (matches c)) cs
    → Returns (all_children matches cs)
unfolding all_children
all_children-Returns matches no_children _ = (true, refl)
all_children-Returns matches (child_then c cs) ((true, h), hs) =
    rw (h, all_children) (all_children-Returns matches cs hs)
all_children-Returns matches (child_then c cs) ((false, h), hs) = (false, rw (h, all_children))

any_child-Returns :
    (matches : PolicyCondition → Result Bool) (cs : Children)
    → Each (λ c. Returns (matches c)) cs
    → Returns (any_child matches cs)
unfolding any_child
any_child-Returns matches no_children _ = (false, refl)
any_child-Returns matches (child_then c cs) ((false, h), hs) =
    rw (h, any_child) (any_child-Returns matches cs hs)
any_child-Returns matches (child_then c cs) ((true, h), hs) = (true, rw (h, any_child))

resolved_matches-Returns :
    (matches : PolicyCondition → Result Bool) (claims : List AuthClaim) (c : PolicyCondition)
    → Formed c
    → Each (λ c. Returns (matches c)) (children_of c)
    → Returns (resolved_matches matches claims c)
unfolding resolved_matches not_first_child
resolved_matches-Returns matches claims (policy_condition r o k v none cs) _ hs = (_, refl)
resolved_matches-Returns matches claims
      (policy_condition r o k v (some ConditionComposition.all) cs) _ hs =
    all_children-Returns matches cs hs
resolved_matches-Returns matches claims
      (policy_condition r o k v (some ConditionComposition.any) cs) _ hs =
    any_child-Returns matches cs hs
resolved_matches-Returns matches claims
      (policy_condition r o k v (some ConditionComposition.not) no_children) (h, _) hs =
    absurd h
resolved_matches-Returns matches claims
      (policy_condition r o k v (some ConditionComposition.not) (child_then c cs)) _ ((b, h), hs) =
    (not b, rw (h, resolved_matches))

module _ (rank : PolicyRef → ℕ) where
  -- The depth of calls that a condition takes: a reference takes that of its name.
  unfoldable mutual
    pub depth : PolicyCondition → ℕ
    depth (policy_condition (some ref) none k v none cs) = max (rank ref) (suc (depth_children cs))
    depth (policy_condition r o k v c cs) = suc (depth_children cs)

    pub depth_children : Children → ℕ
    depth_children no_children = 0
    depth_children (child_then c cs) = max (depth c) (depth_children cs)

  abbrev pub depth_inside : PolicyCondition → ℕ
  depth_inside c = suc (depth_children (children_of c))

  module _ (conditions : List PolicyCondition) where
    -- Each named condition is well formed, and deeper than none that it refers to.
    abbrev pub Ranked : Type 0
    Ranked =
        (ref : PolicyRef) (entry : PolicyRef × PolicyCondition)
        → named conditions ref ≡ some entry
        → (depth_inside entry.1 ≤ rank ref) × Formed entry.1

    resolve_condition-Formed :
        (c : PolicyCondition) (fuel : ℕ)
        → Ranked
        → Formed c
        → depth c ≤ suc fuel
        → Formed (resolve_condition conditions c)
          × (depth_children (children_of (resolve_condition conditions c)) ≤ fuel)
    unfolding resolve_condition depth
    resolve_condition-Formed (policy_condition (some ref) none k v none cs) fuel ranked formed h =
        let bound : max (rank ref) (suc (depth_children cs)) ≤ suc fuel = h in
        elim (Option-cases (named conditions ref)) [
          | inl missing ↦
              rw missing
                (formed, omega (arith, bound, max_right (rank ref) (suc (depth_children cs))))
          | inr (entry, there) ↦ rw there (
            (ranked ref entry there).1,
            omega (
              arith,
              bound,
              max_left (rank ref) (suc (depth_children cs)),
              (ranked ref entry there).0,
            ),
          )
        ]
    resolve_condition-Formed (policy_condition none o k v c cs) fuel ranked formed h =
        (formed, omega arith)
    resolve_condition-Formed (policy_condition (some ref) (some o) k v c cs) fuel ranked formed h =
        (formed, omega arith)
    resolve_condition-Formed (policy_condition (some ref) none k v (some c) cs) fuel ranked formed
          h =
        (formed, omega arith)

    depth-positive : (c : PolicyCondition) → 1 ≤ depth c
    unfolding depth
    depth-positive (policy_condition (some ref) none k v none cs) =
        omega (arith, max_right (rank ref) (suc (depth_children cs)))
    depth-positive (policy_condition none o k v c cs) = omega arith
    depth-positive (policy_condition (some ref) (some o) k v c cs) = omega arith
    depth-positive (policy_condition (some ref) none k v (some c) cs) = omega arith

    module _ (claims : List AuthClaim) where
      Each-Returns :
          (fuel : ℕ) (matches : PolicyCondition → Result Bool)
          → ((c : PolicyCondition) → Formed c → depth c ≤ fuel → Returns (matches c))
          → (cs : Children) → FormedChildren cs
          → depth_children cs ≤ fuel
          → Each (λ c. Returns (matches c)) cs
      unfolding depth
      Each-Returns fuel matches ends no_children _ _ = tt
      Each-Returns fuel matches ends (child_then c cs) (formed, rest) h = (
        ends c formed (omega (arith, h, max_left (depth c) (depth_children cs))),
        Each-Returns fuel matches ends cs rest
            (omega (arith, h, max_right (depth c) (depth_children cs))),
      )

      -- A condition of a document without cyclic references is evaluated to the end, given fuel
      -- for its depth.
      pub condition_matches-Returns :
          Ranked
          → (fuel : ℕ) (c : PolicyCondition) → Formed c
          → depth c ≤ fuel
          → Returns (condition_matches fuel conditions claims c)
      unfolding condition_matches
      condition_matches-Returns ranked zero c formed h = absurd (omega (arith, h, depth-positive c))
      condition_matches-Returns ranked (suc fuel) c formed h =
          let (ok, inside) = resolve_condition-Formed c fuel ranked formed h in
          resolved_matches-Returns (condition_matches fuel conditions claims) claims
            (resolve_condition conditions c) ok
            (Each-Returns fuel (condition_matches fuel conditions claims)
              (condition_matches-Returns ranked fuel) (children_of (resolve_condition conditions c))
              (children_Formed _ ok) inside)

-- If a named condition is the negation of a reference to itself, the evaluation of that reference
-- raises RecursionError, whatever the depth of calls allowed.
pub condition_matches-cyclic :
    (conditions : List PolicyCondition) (claims : List AuthClaim) (ref : PolicyRef)
    (entry_ref : PolicyRef) (r : Option PolicyRef) (o : Option ConditionOperator)
    (k k' : Option String) (v v' : ConditionValue) (cs cs' : Children) (fuel : ℕ)
    → named conditions ref
      ≡ some (
        entry_ref,
        policy_condition r o k v
            (some ConditionComposition.not)
            (child_then (policy_condition (some ref) none k' v' none cs') cs),
      )
    → condition_matches fuel conditions claims (policy_condition (some ref) none k' v' none cs')
      ≡ raised recursion_error
unfolding condition_matches resolve_condition resolved_matches not_first_child
condition_matches-cyclic conditions claims ref entry_ref r o k k' v v' cs cs' zero h = refl
condition_matches-cyclic conditions claims ref entry_ref r o k k' v v' cs cs' (suc fuel) h =
    rw h (
      rw (condition_matches-cyclic conditions claims ref entry_ref r o k k' v v' cs cs' fuel h)
        refl)
