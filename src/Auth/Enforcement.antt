-- ===== src/Auth/Enforcement.antt =====
-- core/spakky-auth/src/spakky/auth/aspects/authorization.py: a protected method runs only after every
-- requirement is allowed.
use spakky_framework.Common.{
  ◌≡◌, ◌≢◌, ◌∙◌, ap, refl, true, false, ◌⊎◌, inl, inr, none, List, [], ◌∷◌, Bool-cases,
  if◌then◌else◌,
}
use spakky_framework.Effects.{
  Exn, Result, returned, raised, Io, Result-cases, and_then, raise, auth_requirement_denied,
}
use spakky_framework.Auth.Context.{AuthContext}
use spakky_framework.Auth.Decision.{AuthorizationDecision, AuthorizationDecisionState, allowed}
use spakky_framework.Auth.Metadata.{
  AuthRequirement, Boundary, EffectiveAuthMetadata, protected, get_effective_auth_metadata,
}
use spakky_framework.Auth.Aspect.{
  AuthorizationAspect, allows, decide, require_all, current_auth_context, authorize,
  around_protected,
}

allows-true : (state : AuthorizationDecisionState) → allows state ≡ true → state ≡ allowed
unfolding allows
allows-true allowed h = refl
allows-true _ h = absurd (cc h)

allows-false : (state : AuthorizationDecisionState) → allows state ≡ false → state ≢ allowed
unfolding allows
allows-false allowed h k = absurd (cc h)
allows-false AuthorizationDecisionState.challenged h k = cc k
allows-false AuthorizationDecisionState.denied h k = cc k
allows-false AuthorizationDecisionState.errored h k = cc k

module _ {W : Type 0} (aspect : AuthorizationAspect W) (auth_context : AuthContext) where
  -- How the requirements in turn end: each is allowed; or after some that are, the decision on one
  -- breaks, or is not to allow it and is raised.
  pub data Enforced : List AuthRequirement → W → Result (Unit {0}) × W → Type 0 where
    all_allowed : (w : W) → Enforced [] w (returned tt, w)
    broke :
        (r : AuthRequirement) (rs : List AuthRequirement) (e : Exn) (w w' : W)
        → decide aspect r auth_context w ≡ (raised e, w')
        → Enforced (r ∷ rs) w (raised e, w')
    refused :
        (r : AuthRequirement) (rs : List AuthRequirement) (d : AuthorizationDecision) (w w' : W)
        → decide aspect r auth_context w ≡ (returned d, w')
        → d.state ≢ allowed
        → Enforced (r ∷ rs) w (raised (auth_requirement_denied d), w')
    one_allowed :
        (r : AuthRequirement) (rs : List AuthRequirement) (d : AuthorizationDecision) (w w' : W)
        (end : Result (Unit {0}) × W)
        → decide aspect r auth_context w ≡ (returned d, w')
        → d.state ≡ allowed
        → Enforced rs w' end
        → Enforced (r ∷ rs) w end

  one-Enforced :
      (r : AuthRequirement) (rs : List AuthRequirement) (others : Io W (Unit {0})) (w : W)
      (q : Result AuthorizationDecision × W)
      → decide aspect r auth_context w ≡ q
      → ((w1 : W) → Enforced rs w1 (others w1))
      → Enforced (r ∷ rs) w (
          and_then
            (λ _. q)
            (λ d. if allows d.state then others else raise (auth_requirement_denied d))
            w)
  one-Enforced r rs others w (raised e, w') h k = broke r rs e w w' h
  one-Enforced r rs others w (returned d, w') h k = elim (Bool-cases (allows d.state)) [
    | inl permits ↦
        rw permits (one_allowed r rs d w w' (others w') h (allows-true d.state permits) (k w'))
    | inr refuses ↦ rw refuses (refused r rs d w w' h (allows-false d.state refuses))
  ]

  require_all-Enforced :
      (rs : List AuthRequirement) (w : W) → Enforced rs w (require_all aspect rs auth_context w)
  unfolding require_all
  require_all-Enforced [] w = all_allowed w
  require_all-Enforced (r ∷ rs) w =
      one-Enforced r rs (require_all aspect rs auth_context) w (decide aspect r auth_context w) refl
        (require_all-Enforced rs)

module _ {W : Type 0} (aspect : AuthorizationAspect W) where
  authorize-current :
      (metadata : EffectiveAuthMetadata) (w : W) {r : Result AuthContext}
      → current_auth_context aspect w ≡ r
      → authorize aspect metadata w ≡ elim r [
        | raised e ↦ (raised e, w)
        | returned auth_context ↦ require_all aspect metadata.requirements auth_context w
      ]
  unfolding authorize
  authorize-current metadata w h =
      ap
        (λ r. elim r as (λ _. Result (Unit {0}) × W) [
          | raised e ↦ (raised e, w)
          | returned auth_context ↦ require_all aspect metadata.requirements auth_context w
        ])
        h

module _ {W X A : Type 0} (aspect : AuthorizationAspect W) where
  around_protected-authorize :
      (boundary : Boundary) (metadata : EffectiveAuthMetadata) (joinpoint : X → Io W A) (x : X)
      (w : W)
      → get_effective_auth_metadata boundary none ≡ returned metadata
      → protected metadata ≡ true
      → around_protected aspect boundary joinpoint x w
        ≡ and_then (authorize aspect metadata) (λ _. joinpoint x) w
  unfolding around_protected
  around_protected-authorize boundary metadata joinpoint x w read guarded =
      ap
        (λ r.
          (elim r as (λ _. Io W A) [
            | raised e ↦ raise e
            | returned m ↦
                if protected m
                then and_then (authorize aspect m) (λ _. joinpoint x)
                else joinpoint x
          ])
            w)
        read
      ∙ ap
          (λ b.
            (if b then and_then (authorize aspect metadata) (λ _. joinpoint x) else joinpoint x) w)
          guarded

  -- A protected method is called only after its caller is known and every requirement in turn is
  -- allowed, and then with nothing in between; else the call raises what the search for the caller
  -- or the first requirement that is not allowed raises, without a call of the method. It holds
  -- where the metadata of the method can be read and protects it.
  pub around_protected-Enforced :
      (boundary : Boundary) (metadata : EffectiveAuthMetadata) (joinpoint : X → Io W A) (x : X)
      (w : W)
      → get_effective_auth_metadata boundary none ≡ returned metadata
      → protected metadata ≡ true
      → ((e : Exn) × (current_auth_context aspect w ≡ raised e)
          × (around_protected aspect boundary joinpoint x w ≡ (raised e, w)))
        ⊎ ((auth_context : AuthContext) × (end : Result (Unit {0}) × W) × (current_auth_context
                aspect w
              ≡ returned auth_context)
            × Enforced aspect auth_context metadata.requirements w end
            × (around_protected aspect boundary joinpoint x w
                ≡ and_then (λ _. end) (λ _. joinpoint x) w))
  around_protected-Enforced boundary metadata joinpoint x w read guarded =
      let start = around_protected-authorize boundary metadata joinpoint x w read guarded in
      let then_call : Result (Unit {0}) × W → Result A × W =
        λ end. and_then (λ _. end) (λ _. joinpoint x) w in
      elim (Result-cases (current_auth_context aspect w)) [
        | inr (e, h) ↦ inl (e, h, start ∙ ap then_call (authorize-current aspect metadata w h))
        | inl (auth_context, h) ↦ inr (
          auth_context,
          require_all aspect metadata.requirements auth_context w,
          h,
          require_all-Enforced aspect auth_context metadata.requirements w,
          start ∙ ap then_call (authorize-current aspect metadata w h),
        )
      ]
