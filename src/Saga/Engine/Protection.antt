-- ===== src/Saga/Engine/Protection.antt =====
-- core/spakky-saga/src/spakky/saga/engine.py and auth.py: the action of a protected step runs only
-- after its requirements are allowed.
use spakky_framework.Common.{
  String, ◌≡◌, refl, true, ◌⊎◌, inl, inr, Option, some, List, [], ◌∷◌, Bool-cases, sym,
}
use spakky_framework.Effects.{Exn, returned, raised, Io, Result-cases, auth_requirement_denied}
use spakky_framework.Auth.Context.{AuthContext}
use spakky_framework.Auth.Decision.{AuthorizationDecision, AuthorizationDecisionState, allowed}
use spakky_framework.Auth.Metadata.{
  AuthRequirement, AuthSource, Boundary, EffectiveAuthMetadata, protected,
  get_effective_auth_metadata,
}
use spakky_framework.Saga.Flow.{SagaData}
use spakky_framework.Saga.Auth.{
  SagaAuthExecutionContext, verify_snapshot, invocation, evaluate_requirement, is_allowed, enforce,
  enforce_verified, with_metadata, authorize_step,
}
use spakky_framework.Saga.Engine.Normalize.{NormalizedStep}
use spakky_framework.Saga.Engine.State.{Asyncio}
use spakky_framework.Saga.Engine.Steps.{invoke_action, invoke_step_action}

is_allowed-true : (state : AuthorizationDecisionState) → is_allowed state ≡ true → state ≡ allowed
unfolding is_allowed
is_allowed-true allowed h = refl
is_allowed-true AuthorizationDecisionState.challenged h = absurd (cc h)
is_allowed-true AuthorizationDecisionState.denied h = absurd (cc h)
is_allowed-true AuthorizationDecisionState.errored h = absurd (cc h)

module _ {W : Type 0} (auth : SagaAuthExecutionContext W) where
  -- Each requirement in turn is evaluated to ALLOW, from `w` to `w'`.
  pub data Allowed (context : AuthContext) : List AuthRequirement → W → W → Type 0 where
    all_allowed : (w : W) → Allowed context [] w w
    one_allowed :
        (r : AuthRequirement) (rs : List AuthRequirement) (d : AuthorizationDecision) (w w' : W)
        → (evaluate_requirement auth r context w).0 ≡ returned d
        → d.state ≡ allowed
        → Allowed context rs (evaluate_requirement auth r context w).1 w'
        → Allowed context (r ∷ rs) w w'

  -- Either the loop over the requirements raised, or each is allowed.
  enforce-Allowed :
      (rs : List AuthRequirement) (context : AuthContext) (w : W)
      → ((e : Exn) × ((enforce auth rs context w).0 ≡ raised e))
        ⊎ (((enforce auth rs context w).0 ≡ returned (tt {0}))
            × Allowed context rs w (enforce auth rs context w).1)
  unfolding enforce
  enforce-Allowed [] context w = inr (refl, all_allowed w)
  enforce-Allowed (r ∷ rs) context w =
      elim (Result-cases (evaluate_requirement auth r context w).0) [
        | inr (e, breaks) ↦ inl (e, rw (breaks, enforce))
        | inl (d, ok) ↦ elim (Bool-cases (is_allowed d.state)) [
          | inr refused ↦ inl (auth_requirement_denied d, rw (ok, enforce) (rw refused))
          | inl passes ↦
              elim (enforce-Allowed rs context (evaluate_requirement auth r context w).1) [
                | inl (e, later) ↦ inl (e, rw (ok, enforce) (rw (passes, enforce) later))
                | inr (done, rest) ↦ inr (
                  rw (ok, enforce) (rw (passes, enforce) done),
                  rw (ok, enforce)
                      (rw (passes, enforce)
                        (one_allowed r rs d w _ ok (is_allowed-true d.state passes) rest)),
                )
              ]
        ]
      ]

  module _ {P : Type 0} (name : String) (current : SagaData P) (boundary : Boundary)
      (owner : Option AuthSource) (metadata : EffectiveAuthMetadata) where
    abbrev pub verification_of : Io W AuthContext
    verification_of = verify_snapshot auth current.auth_context_snapshot (invocation name current)

    -- Either the authorization of a protected boundary raised, or the snapshot was verified, and each requirement is allowed.
    authorize_step-Allowed :
        (w : W)
        → get_effective_auth_metadata boundary owner ≡ returned metadata
        → protected metadata ≡ true
        → ((e : Exn) × ((authorize_step auth name current (some boundary) owner w).0 ≡ raised e))
          ⊎ (((authorize_step auth name current (some boundary) owner w).0 ≡ returned (tt {0}))
              × (context : AuthContext) × ((verification_of w).0 ≡ returned context)
              × Allowed context metadata.requirements
                  (verification_of w).1
                  (authorize_step auth name current (some boundary) owner w).1)
    unfolding authorize_step with_metadata enforce_verified
    authorize_step-Allowed w found is_protected = elim (Result-cases (verification_of w).0) [
      | inr (e, breaks) ↦ inl (e, rw (found, authorize_step) (rw (is_protected, breaks)))
      | inl (context, ok) ↦
          elim (enforce-Allowed metadata.requirements context (verification_of w).1) [
            | inl (e, breaks) ↦ inl (e, rw (found, authorize_step) (rw (is_protected, ok) breaks))
            | inr (done, all) ↦ inr (
              rw (found, authorize_step) (rw (is_protected, ok) done),
              context,
              ok,
              rw (found, authorize_step) (rw (is_protected, ok) all),
            )
          ]
    ]

-- The action of a step with a protected boundary runs only after its authorization. Either the
-- authorization raised, and the step raises the same without a call of its action; or the saga's
-- snapshot was verified, every requirement of the boundary was allowed for the context that it
-- stands for, and the step is the call of its action after that.
pub invoke_step_action-Allowed :
    {P W : Type 0} (asyncio : Asyncio P W) (auth : SagaAuthExecutionContext W)
    (item : NormalizedStep P W) (current : SagaData P) (boundary : Boundary)
    (metadata : EffectiveAuthMetadata) (w : W)
    → item.auth_boundary ≡ some boundary
    → get_effective_auth_metadata boundary item.auth_owner_type ≡ returned metadata
    → protected metadata ≡ true
    → ((e : Exn) × ((authorize_step auth item.name current item.auth_boundary item.auth_owner_type
            w).0
          ≡ raised e)
        × (invoke_step_action asyncio auth item current w ≡ (
          raised e,
          (authorize_step auth item.name current item.auth_boundary item.auth_owner_type w).1,
        )))
      ⊎ ((context : AuthContext) × (w1 : W) × ((verify_snapshot auth current.auth_context_snapshot
              (invocation item.name current)
              w).0
            ≡ returned context)
          × Allowed auth context metadata.requirements
              (verify_snapshot auth current.auth_context_snapshot
                (invocation item.name current)
                w).1
              w1
          × (invoke_step_action asyncio auth item current w
              ≡ invoke_action asyncio auth item.action item.step_timeout current w1))
unfolding invoke_step_action
invoke_step_action-Allowed asyncio auth item current boundary metadata w at_boundary found
      is_protected =
    let authorization = rw (sym at_boundary) at (
      authorize_step-Allowed auth item.name current boundary item.auth_owner_type metadata w found
        is_protected) in
    elim authorization [
      | inl (e, refused) ↦ inl (e, refused, rw (refused, invoke_step_action))
      | inr (granted, context, ok, all) ↦ inr (
        context,
        (authorize_step auth item.name current item.auth_boundary item.auth_owner_type w).1,
        ok,
        all,
        rw (granted, invoke_step_action),
      )
    ]
