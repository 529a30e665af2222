-- ===== src/Policy/Decisions.antt =====
-- plugins/spakky-policy/src/spakky/plugins/policy/evaluator.py: what `evaluate` decides.
use spakky_framework.Common.{
  ℕ, Bool, true, false, ◌≡◌, refl, ◌⊎◌, inl, inr, Option, none, some, List, [], ◌∷◌, ◌++◌, arith,
  All, Some, Some-left, Some-right, All-append, All-map,
}
use spakky_framework.Effects.{Exn, Result, returned, raised, Result-cases, returned_subst}
use spakky_framework.Policy.Model.{
  PolicyRef, PolicyEffect, PolicyStatement, NamedPolicy, PolicyDocument, PolicyEvaluationInput,
  PolicyEvaluationResult,
}
use spakky_framework.Policy.Conditions.{condition_matches}
use spakky_framework.Policy.Matching.{
  Evidence, matches_request, matches_condition, statement_matches, condition_evidence,
}
use spakky_framework.Policy.Evaluator.{
  Progress, denied, going, on_match, evaluate_one, finish, evaluate_statements, evaluate_policies,
  selected_policies, evaluate,
}

effect-cases : (e : PolicyEffect) → (e ≡ PolicyEffect.allow) ⊎ (e ≡ PolicyEffect.deny)
effect-cases PolicyEffect.allow = inl refl
effect-cases PolicyEffect.deny = inr refl

abbrev pub is_allow : Option PolicyEffect → Bool
is_allow (some PolicyEffect.allow) = true
is_allow _ = false

-- The statements of the policies, in order.
abbrev pub statements_of : List NamedPolicy → List PolicyStatement
statements_of [] = []
statements_of (policy ∷ rest) = policy.statements ++ statements_of rest

module _ (fuel : ℕ) (document : PolicyDocument) (request : PolicyEvaluationInput) where
  -- Whether a statement applies to the request: it matches it, and its condition holds.
  abbrev pub applies : PolicyStatement → Result Bool
  applies s = elim (matches_request document s request) [
    | false ↦ returned false
    | true ↦ elim s.condition [
      | none ↦ returned true
      | some c ↦ condition_matches fuel document.conditions request.auth_context.claims c
    ]
  ]

  abbrev pub Skips : PolicyStatement → Type 0
  Skips s = applies s ≡ returned false

  abbrev pub Allows : PolicyStatement → Type 0
  Allows s = (applies s ≡ returned true) × (s.effect ≡ PolicyEffect.allow)

  abbrev pub Denies : PolicyStatement → Type 0
  Denies s = (applies s ≡ returned true) × (s.effect ≡ PolicyEffect.deny)

  abbrev pub Permits : PolicyStatement → Type 0
  Permits s = Skips s ⊎ Allows s

  -- What the effect of an evaluation over these statements says.
  abbrev pub Verdict : List PolicyStatement → Option PolicyEffect → Type 0
  Verdict ss (some PolicyEffect.deny) = Some Denies ss
  Verdict ss (some PolicyEffect.allow) = All Permits ss × Some Allows ss
  Verdict ss none = All Skips ss

  -- The same in the middle of the loops, from `seen`.
  abbrev Scanned : List PolicyStatement → Bool → Progress → Type 0
  Scanned ss seen (denied _) = Some Denies ss
  Scanned ss seen (going true _) = All Permits ss × ((seen ≡ true) ⊎ Some Allows ss)
  Scanned ss seen (going false _) = (seen ≡ false) × All Skips ss

  abbrev pub evidence_after : PolicyStatement → Evidence → PolicyRef → Bool → Evidence
  evidence_after s evidence ref b = elim (matches_request document s request) [
    | false ↦ evidence
    | true ↦ elim s.condition [
      | none ↦ evidence
      | some _ ↦ evidence ++ condition_evidence b ref s.ref ∷ []
    ]
  ]

  pub statement_matches-applies :
      (s : PolicyStatement) (evidence : Evidence) (ref : PolicyRef) (b : Bool)
      → applies s ≡ returned b
      → statement_matches fuel document s request evidence ref
        ≡ returned (b, evidence_after s evidence ref b)
  unfolding statement_matches matches_condition
  statement_matches-applies s evidence ref b h = ground arith

  statement_matches-raises :
      (s : PolicyStatement) (evidence : Evidence) (ref : PolicyRef) (e : Exn)
      → applies s ≡ raised e
      → statement_matches fuel document s request evidence ref ≡ raised e
  unfolding statement_matches matches_condition
  statement_matches-raises s evidence ref e h = ground arith

  Scanned-append :
      (xs ys : List PolicyStatement) (seen seen' : Bool) (evidence : Evidence) (p : Progress)
      → Scanned xs seen (going seen' evidence)
      → Scanned ys seen' p
      → Scanned (xs ++ ys) seen p
  Scanned-append xs ys seen seen' evidence (denied _) h k = Some-right Denies xs ys k
  Scanned-append xs ys seen true evidence (going true _) (ps, h) (qs, k) = (
    All-append Permits xs ys ps qs,
    elim h [ inl old ↦ inl old | inr some_x ↦ inr (Some-left Allows xs ys some_x) ],
  )
  Scanned-append xs ys seen false evidence (going true _) (old, ps) (qs, inl new) = cc new
  Scanned-append xs ys seen false evidence (going true _) (old, ps) (qs, inr k) = (
    All-append Permits xs ys (All-map Skips Permits (λ s skips. inl skips) xs ps) qs,
    inr (Some-right Allows xs ys k),
  )
  Scanned-append xs ys seen true evidence (going false _) h (k, qs) = absurd (cc k)
  Scanned-append xs ys seen false evidence (going false _) (h, ps) (k, qs) =
      (h, All-append Skips xs ys ps qs)

  Scanned-nil : (seen : Bool) (evidence : Evidence) → Scanned [] seen (going seen evidence)
  Scanned-nil true evidence = (tt, inl refl)
  Scanned-nil false evidence = (refl, tt)

  Scanned-match :
      (s : PolicyStatement) (ref : PolicyRef) (seen : Bool) (evidence : Evidence) (p : Progress)
      → applies s ≡ returned true
      → evaluate_one ref s seen (returned (true, evidence)) ≡ returned p
      → Scanned (s ∷ []) seen p
  unfolding evaluate_one on_match
  Scanned-match s ref seen evidence p holds h = elim (effect-cases s.effect) [
    | inl allows ↦
        returned_subst (Scanned (s ∷ []) seen) (rw allows at h)
          ((inr (holds, allows), tt), inr (inl (holds, allows)))
    | inr denies ↦ returned_subst (Scanned (s ∷ []) seen) (rw denies at h) (inl (holds, denies))
  ]

  Scanned-skip :
      (s : PolicyStatement) (ref : PolicyRef) (seen : Bool) (evidence : Evidence) (p : Progress)
      → applies s ≡ returned false
      → evaluate_one ref s seen (returned (false, evidence)) ≡ returned p
      → Scanned (s ∷ []) seen p
  unfolding evaluate_one
  Scanned-skip s ref true evidence p fails h =
      returned_subst (Scanned (s ∷ []) true) h ((inl fails, tt), inl refl)
  Scanned-skip s ref false evidence p fails h =
      returned_subst (Scanned (s ∷ []) false) h (refl, (fails, tt))

  -- One statement.
  Scanned-one :
      (s : PolicyStatement) (ref : PolicyRef) (seen : Bool) (evidence : Evidence) (p : Progress)
      → evaluate_one ref s seen (statement_matches fuel document s request evidence ref)
        ≡ returned p
      → Scanned (s ∷ []) seen p
  unfolding evaluate_one
  Scanned-one s ref seen evidence p h = elim (Result-cases (applies s)) [
    | inr (e, breaks) ↦ absurd (cc (rw (statement_matches-raises s evidence ref e breaks) at h))
    | inl (true, holds) ↦
        Scanned-match s ref seen _ p holds
          (rw (statement_matches-applies s evidence ref true holds) at h)
    | inl (false, fails) ↦
        Scanned-skip s ref seen _ p fails
          (rw (statement_matches-applies s evidence ref false fails) at h)
  ]

  Scanned-statements :
      (ss : List PolicyStatement) (ref : PolicyRef) (seen : Bool) (evidence : Evidence)
      (p : Progress)
      → evaluate_statements fuel document request ref ss seen evidence ≡ returned p
      → Scanned ss seen p
  unfolding evaluate_statements
  Scanned-statements [] ref seen evidence p h =
      returned_subst (Scanned [] seen) h (Scanned-nil seen evidence)
  Scanned-statements (s ∷ ss) ref seen evidence p h =
      elim (Result-cases
        (evaluate_one ref s seen (statement_matches fuel document s request evidence ref))) [
          | inr (e, breaks) ↦ absurd (cc (rw (breaks, evaluate_statements) at h))
          | inl (denied ev, stop) ↦
              returned_subst (Scanned (s ∷ ss) seen) (rw (stop, evaluate_statements) at h)
                (Some-left Denies (s ∷ []) ss (Scanned-one s ref seen evidence (denied ev) stop))
          | inl (going seen' ev, goes) ↦
              Scanned-append (s ∷ []) ss seen seen' ev p (Scanned-one s ref seen evidence _ goes)
                (Scanned-statements ss ref seen' ev p (rw (goes, evaluate_statements) at h))
        ]

  Scanned-policies :
      (ps : List NamedPolicy) (seen : Bool) (evidence : Evidence) (p : Progress)
      → evaluate_policies fuel document request ps seen evidence ≡ returned p
      → Scanned (statements_of ps) seen p
  unfolding evaluate_policies
  Scanned-policies [] seen evidence p h =
      returned_subst (Scanned [] seen) h (Scanned-nil seen evidence)
  Scanned-policies (policy ∷ ps) seen evidence p h =
      elim (Result-cases
        (evaluate_statements fuel document request policy.ref policy.statements seen evidence)) [
          | inr (e, breaks) ↦ absurd (cc (rw (breaks, evaluate_policies) at h))
          | inl (denied ev, stop) ↦
              returned_subst (Scanned (policy.statements ++ statements_of ps) seen)
                (rw (stop, evaluate_policies) at h)
                (Some-left Denies policy.statements (statements_of ps)
                  (Scanned-statements policy.statements policy.ref seen evidence (denied ev) stop))
          | inl (going seen' ev, goes) ↦
              Scanned-append policy.statements (statements_of ps) seen seen' ev p
                (Scanned-statements policy.statements policy.ref seen evidence _ goes)
                (Scanned-policies ps seen' ev p (rw (goes, evaluate_policies) at h))
        ]

  Verdict-finish :
      (ss : List PolicyStatement) (p : Progress)
      → Scanned ss false p
      → ((finish p).allowed ≡ is_allow (finish p).effect) × Verdict ss (finish p).effect
  unfolding finish
  Verdict-finish ss (denied _) h = (refl, h)
  Verdict-finish ss (going true _) (ps, inl h) = absurd (cc h)
  Verdict-finish ss (going true _) (ps, inr h) = (refl, (ps, h))
  Verdict-finish ss (going false _) (_, h) = (refl, h)

  -- An evaluation that returns is right about the statements of the selected policies. Its effect
  -- is DENY only if one that denies applies; ALLOW only if one that allows applies and each other
  -- that applies allows too; and none only if no statement applies. It is allowed exactly if its
  -- effect is ALLOW.
  pub evaluate-Verdict :
      (r : PolicyEvaluationResult)
      → evaluate fuel document request ≡ returned r
      → (r.allowed ≡ is_allow r.effect)
        × Verdict (statements_of (selected_policies document request.policy)) r.effect
  unfolding evaluate
  evaluate-Verdict r h =
      elim (Result-cases (
        evaluate_policies fuel document request (selected_policies document request.policy) false
          [])) [
            | inr (e, breaks) ↦ absurd (cc (rw breaks at h))
            | inl (p, ok) ↦
                returned_subst
                  (λ q.
                    (q.allowed ≡ is_allow q.effect)
                    × Verdict (statements_of (selected_policies document request.policy)) q.effect)
                  (rw ok at h)
                  (Verdict-finish (statements_of (selected_policies document request.policy)) p
                    (Scanned-policies (selected_policies document request.policy) false [] p ok))
          ]
