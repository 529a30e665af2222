-- ===== src/Policy/Permissions.antt =====
-- plugins/spakky-policy/src/spakky/plugins/policy/evaluator.py: which permissions a check allows.
use spakky_framework.Common.{
  ℕ, subst, sym, ◌∙◌, true, ◌≡◌, refl, ◌⊎◌, inl, inr, Option, none, some, List, [], ◌∷◌, ◌++◌,
  arith, string_has_eq, contains, Some, Bool-cases,
}
use spakky_framework.Effects.{returned, Result-cases, returned_subst}
use spakky_framework.Auth.Context.{AuthContext}
use spakky_framework.Auth.Decision.{AuthorizationDecision, allowed, denied}
use spakky_framework.Auth.Ports.{PermissionCheckRequest}
use spakky_framework.Policy.Model.{
  PolicyRef, PolicyEffect, PolicyDocument, PolicyStatement, PolicyEvaluationInput,
  PolicyEvaluationResult,
}
use spakky_framework.Policy.Matching.{
  from_keys, extend_all, subject_of, permissions_of, roles_of, scopes_of, role_permissions,
  scope_permissions, subject_permissions, permission_granted, matches_requested_permission,
  matches_request,
}
use spakky_framework.Policy.Evaluator.{selected_policies, evaluate, check_permission, decision}
use spakky_framework.Policy.Decisions.{
  applies, Allows, Verdict, is_allow, statements_of, evaluate-Verdict,
}

contains-from_keys :
    (p : PolicyRef) (seen xs : List PolicyRef)
    → contains p (from_keys seen xs) ≡ true
    → contains p xs ≡ true
unfolding from_keys contains
contains-from_keys p seen [] h = h
contains-from_keys p seen (x ∷ xs) h = elim (Bool-cases (contains x seen)) [
  | inl old ↦ ground (arith, contains-from_keys p seen xs (rw old at h))
  | inr new ↦ ground (arith, contains-from_keys p (x ∷ seen) xs, rw new at h)
]

contains-append :
    (p : PolicyRef) (xs ys : List PolicyRef)
    → contains p (xs ++ ys) ≡ true
    → (contains p xs ≡ true) ⊎ (contains p ys ≡ true)
unfolding contains
contains-append p [] ys h = inr h
contains-append p (x ∷ xs) ys h = ground (arith, contains-append p xs ys)

contains-extend_all :
    (p : PolicyRef) (get : PolicyRef → List PolicyRef) (refs : List PolicyRef)
    → contains p (extend_all get refs) ≡ true
    → Some (λ ref. contains p (get ref) ≡ true) refs
unfolding extend_all contains
contains-extend_all p get [] h = absurd (cc h)
contains-extend_all p get (ref ∷ refs) h =
    elim (contains-append p (get ref) (extend_all get refs) h) [
      | inl here ↦ inl here
      | inr later ↦ inr (contains-extend_all p get refs later)
    ]

module _ (document : PolicyDocument) where
  -- How a document and a caller's own roles and scopes grant a permission.
  abbrev pub Granted : AuthContext → PolicyRef → Type 0
  Granted auth_context p =
      let subject = subject_of document auth_context in
      (contains p (permissions_of subject) ≡ true)
      ⊎ Some (λ ref. contains p (role_permissions document ref) ≡ true) (roles_of subject)
      ⊎ Some (λ ref. contains p (scope_permissions document ref) ≡ true) (scopes_of subject)
      ⊎ Some (λ ref. contains p (role_permissions document ref) ≡ true) auth_context.roles
      ⊎ Some (λ ref. contains p (scope_permissions document ref) ≡ true) auth_context.scopes

  subject_permissions-Granted :
      (auth_context : AuthContext) (p : PolicyRef)
      → contains p (subject_permissions document auth_context) ≡ true
      → Granted auth_context p
  unfolding subject_permissions
  subject_permissions-Granted auth_context p h =
      let subject = subject_of document auth_context in
      let roles = role_permissions document in
      let scopes = scope_permissions document in
      elim (contains-append p (permissions_of subject) _ (contains-from_keys p [] _ h)) [
        | inl own ↦ inl own
        | inr h1 ↦ elim (contains-append p (extend_all roles (roles_of subject)) _ h1) [
          | inl a ↦ inr (inl (contains-extend_all p roles (roles_of subject) a))
          | inr h2 ↦ elim (contains-append p (extend_all scopes (scopes_of subject)) _ h2) [
            | inl a ↦ inr (inr (inl (contains-extend_all p scopes (scopes_of subject) a)))
            | inr h3 ↦ elim (contains-append p (extend_all roles auth_context.roles) _ h3) [
              | inl a ↦ inr (inr (inr (inl (contains-extend_all p roles auth_context.roles a))))
              | inr a ↦ inr (inr (inr (inr (contains-extend_all p scopes auth_context.scopes a))))
            ]
          ]
        ]
      ]

Some-elim :
    {A : Type 0} {Q : Type 0} (P : A → Type 0) (xs : List A) → ((a : A) → P a → Q) → Some P xs → Q
Some-elim P [] f h = absurd h
Some-elim P (x ∷ xs) f (inl p) = f x p
Some-elim P (x ∷ xs) f (inr h) = Some-elim P xs f h

-- A statement that applies to a request for a permission finds it among the caller's.
applies-requested :
    (fuel : ℕ) (document : PolicyDocument) (request : PolicyEvaluationInput) (p : PolicyRef)
    (s : PolicyStatement)
    → request.permission ≡ some p
    → applies fuel document request s ≡ returned true
    → contains p (subject_permissions document request.auth_context) ≡ true
unfolding matches_request matches_requested_permission permission_granted
applies-requested fuel document request p s wanted h = ground arith

-- An allowed result has the effect ALLOW.
allow-effect :
    (effect : Option PolicyEffect) → true ≡ is_allow effect → effect ≡ some PolicyEffect.allow
allow-effect none h = absurd (cc h)
allow-effect (some PolicyEffect.allow) h = refl
allow-effect (some PolicyEffect.deny) h = absurd (cc h)

module _ (fuel : ℕ) (document : PolicyDocument) (request : PermissionCheckRequest) where
  abbrev input : PolicyEvaluationInput
  input = record {
    auth_context = request.auth_context;
    resource = request.resource;
    action = none;
    tenant = request.tenant;
    permission = some request.permission;
    role = none;
    scope = none;
    policy = none;
  }

  allowed-Granted :
      (r : PolicyEvaluationResult)
      → evaluate fuel document input ≡ returned r
      → r.allowed ≡ true
      → Granted document request.auth_context request.permission
  allowed-Granted r ok passed =
      let (effect, verdict) = evaluate-Verdict fuel document input r ok in
      let is : r.effect ≡ some PolicyEffect.allow = allow-effect r.effect (sym passed ∙ effect) in
      let (_, allows) =
        subst (Verdict fuel document input (statements_of (selected_policies document none))) is
          verdict in
      subject_permissions-Granted document request.auth_context request.permission (
        Some-elim (Allows fuel document input) (statements_of (selected_policies document none))
          (λ s a. applies-requested fuel document input request.permission s refl a.0) allows)

  -- A permission check is allowed only if the caller has the permission: by the document's entry
  -- for the subject, or through a role or a scope of that entry or of the caller's context.
  pub check_permission-Granted :
      (d : AuthorizationDecision)
      → check_permission fuel document request ≡ returned d
      → d.state ≡ allowed
      → Granted document request.auth_context request.permission
  unfolding check_permission decision
  check_permission-Granted d h allows = elim (Result-cases (evaluate fuel document input)) [
    | inr (e, breaks) ↦ absurd (cc (rw breaks at h))
    | inl (r, ok) ↦ elim (Bool-cases r.allowed) [
      | inl yes' ↦ allowed-Granted r ok yes'
      | inr no' ↦
          let refused : d.state ≡ denied =
            returned_subst (λ q. q.state ≡ denied) (rw no' at (rw ok at h)) refl in
          absurd (cc (refused, allows))
    ]
  ]
