-- ===== src/Policy/Totality.antt =====
-- plugins/spakky-policy/src/spakky/plugins/policy/evaluator.py: `evaluate` returns.
use spakky_framework.Common.{
  ℕ, ◌≤◌, Bool, true, false, ◌≡◌, refl, inl, inr, Option, none, some, List, [], ◌∷◌, ◌++◌, All,
  Bool-cases,
}
use spakky_framework.Effects.{returned}
use spakky_framework.Policy.Model.{
  PolicyRef, PolicyStatement, PolicyCondition, NamedPolicy, PolicyDocument, PolicyEvaluationInput,
  PolicyEvaluationResult,
}
use spakky_framework.Policy.Conditions.{condition_matches}
use spakky_framework.Policy.Matching.{Evidence, matches_request, statement_matches}
use spakky_framework.Policy.Evaluator.{
  Progress, denied, going, evaluate_one, finish, evaluate_statements, evaluate_policies,
  selected_policies, evaluate,
}
use spakky_framework.Policy.Decisions.{applies, statement_matches-applies, statements_of}
use spakky_framework.Policy.Termination.{Returns, Formed, Ranked, depth, condition_matches-Returns}

All-left {ℓ κ} :
    {A : Type ℓ} (P : A → Type κ) (xs ys : List A) → All P (xs ++ ys) → All P xs × All P ys
All-left P [] ys h = (tt, h)
All-left P (x ∷ xs) ys (p, h) = let (ps, qs) = All-left P xs ys h in ((p, ps), qs)

module _ (rank : PolicyRef → ℕ) (fuel : ℕ) (document : PolicyDocument)
    (request : PolicyEvaluationInput) where
  -- The condition of a statement, if it has one, is well formed and not too deep.
  abbrev pub Bounded : PolicyStatement → Type 0
  Bounded s = elim s.condition as (λ _. Type 0) [
    | none ↦ Unit
    | some c ↦ Formed c × (depth rank c ≤ fuel)
  ]

  applies-when :
      (s : PolicyStatement) (condition : Option PolicyCondition)
      → Ranked rank document.conditions
      → elim condition as (λ _. Type 0) [ none ↦ Unit | some c ↦ Formed c × (depth rank c ≤ fuel) ]
      → Returns {A = Bool} (elim condition [
        | none ↦ returned true
        | some c ↦ condition_matches fuel document.conditions request.auth_context.claims c
      ])
  applies-when s none ranked _ = (true, refl)
  applies-when s (some c) ranked (formed, h) =
      condition_matches-Returns rank document.conditions request.auth_context.claims ranked fuel c
        formed h

  applies-Returns :
      (s : PolicyStatement)
      → Ranked rank document.conditions
      → Bounded s
      → Returns (applies fuel document request s)
  applies-Returns s ranked h = elim (Bool-cases (matches_request document s request)) [
    | inl yes' ↦ rw (yes', applies) (applies-when s s.condition ranked h)
    | inr no' ↦ rw (no', applies) (false, refl)
  ]

  evaluate_one-Returns :
      (s : PolicyStatement) (ref : PolicyRef) (seen : Bool) (evidence : Evidence)
      → Returns (applies fuel document request s)
      → Returns (evaluate_one ref s seen (statement_matches fuel document s request evidence ref))
  unfolding evaluate_one
  evaluate_one-Returns s ref seen evidence (true, h) =
      rw (statement_matches-applies fuel document request s evidence ref true h) (_, refl)
  evaluate_one-Returns s ref seen evidence (false, h) =
      rw (statement_matches-applies fuel document request s evidence ref false h) (_, refl)

  evaluate_statements-step :
      (s : PolicyStatement) (ss : List PolicyStatement) (ref : PolicyRef) (seen : Bool)
      (evidence : Evidence) (p : Progress)
      → evaluate_one ref s seen (statement_matches fuel document s request evidence ref)
        ≡ returned p
      → ((seen' : Bool) (ev : Evidence)
          → Returns (evaluate_statements fuel document request ref ss seen' ev))
      → Returns (evaluate_statements fuel document request ref (s ∷ ss) seen evidence)
  unfolding evaluate_statements
  evaluate_statements-step s ss ref seen evidence (denied ev) h later =
      (denied ev, rw (h, evaluate_statements))
  evaluate_statements-step s ss ref seen evidence (going seen' ev) h later =
      rw (h, evaluate_statements) (later seen' ev)

  evaluate_statements-Returns :
      (ss : List PolicyStatement) (ref : PolicyRef)
      → Ranked rank document.conditions
      → All Bounded ss
      → (seen : Bool) (evidence : Evidence)
      → Returns (evaluate_statements fuel document request ref ss seen evidence)
  unfolding evaluate_statements
  evaluate_statements-Returns [] ref ranked _ seen evidence = (going seen evidence, refl)
  evaluate_statements-Returns (s ∷ ss) ref ranked (b, bs) seen evidence =
      let (p, h) = evaluate_one-Returns s ref seen evidence (applies-Returns s ranked b) in
      evaluate_statements-step s ss ref seen evidence p h
        (evaluate_statements-Returns ss ref ranked bs)

  evaluate_policies-step :
      (policy : NamedPolicy) (ps : List NamedPolicy) (seen : Bool) (evidence : Evidence)
      (p : Progress)
      → evaluate_statements fuel document request policy.ref policy.statements seen evidence
        ≡ returned p
      → ((seen' : Bool) (ev : Evidence)
          → Returns (evaluate_policies fuel document request ps seen' ev))
      → Returns (evaluate_policies fuel document request (policy ∷ ps) seen evidence)
  unfolding evaluate_policies
  evaluate_policies-step policy ps seen evidence (denied ev) h later =
      (denied ev, rw (h, evaluate_policies))
  evaluate_policies-step policy ps seen evidence (going seen' ev) h later =
      rw (h, evaluate_policies) (later seen' ev)

  evaluate_policies-Returns :
      (ps : List NamedPolicy)
      → Ranked rank document.conditions
      → All Bounded (statements_of ps)
      → (seen : Bool) (evidence : Evidence)
      → Returns (evaluate_policies fuel document request ps seen evidence)
  unfolding evaluate_policies
  evaluate_policies-Returns [] ranked _ seen evidence = (going seen evidence, refl)
  evaluate_policies-Returns (policy ∷ ps) ranked bs seen evidence =
      let (here, later) = All-left Bounded policy.statements (statements_of ps) bs in
      let (p, h) =
        evaluate_statements-Returns policy.statements policy.ref ranked here seen evidence in
      evaluate_policies-step policy ps seen evidence p h (evaluate_policies-Returns ps ranked later)

  -- An evaluation returns, if no named condition refers to itself, however indirectly, each
  -- negation has a child, and the fuel is enough for the depth of the conditions of the selected
  -- policies' statements.
  pub evaluate-Returns :
      Ranked rank document.conditions
      → All Bounded (statements_of (selected_policies document request.policy))
      → (r : PolicyEvaluationResult) × (evaluate fuel document request ≡ returned r)
  unfolding evaluate
  evaluate-Returns ranked bs =
      let (p, h) =
        evaluate_policies-Returns (selected_policies document request.policy) ranked bs false [] in
      (finish p, rw h)
