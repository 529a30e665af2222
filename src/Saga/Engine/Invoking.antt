-- ===== src/Saga/Engine/Invoking.antt =====
-- core/spakky-saga/src/spakky/saga/engine.py: the calls that a serial step makes, one after the other
-- from world to world.
use spakky_framework.Common.{
  ℕ, zero, suc, ◌+◌, ◌-◌, ◌≡◌, refl, Bool, true, false, ◌⊎◌, inl, inr, Option, none, some,
}
use spakky_framework.Effects.{Exn, Result, returned, raised}
use spakky_framework.Saga.Strategy.{ErrorStrategy, Retry, retry, delay_for}
use spakky_framework.Saga.Flow.{SagaData}
use spakky_framework.Saga.Auth.{SagaAuthExecutionContext, authorize_step}
use spakky_framework.Saga.Engine.Normalize.{NormalizedStep}
use spakky_framework.Saga.Engine.State.{Asyncio}
use spakky_framework.Saga.Engine.Steps.{leave_timeout, invoke_action, invoke_step_action}

module _ {P W : Type 0} (asyncio : Asyncio P W) (auth : SagaAuthExecutionContext W)
    (item : NormalizedStep P W) (current : SagaData P) where
  -- The step was authorized, and then its action was called once with the data and returned `r`.
  abbrev pub Succeeded : Option (SagaData P) → W → W → Type 0
  Succeeded r w w' =
      (granted : Unit {0}) × (w1 : W) × (authorize_step auth item.name current item.auth_boundary
          item.auth_owner_type w
        ≡ (returned granted, w1))
      × (item.action.call current w1 ≡ (returned r, w'))

  -- The authorization raised, or it granted and the action was called once and raised.
  abbrev pub Tried : W → W → Type 0
  Tried w w' =
      ((e : Exn) × (authorize_step auth item.name current item.auth_boundary item.auth_owner_type w
          ≡ (raised e, w')))
      ⊎ ((granted : Unit {0}) × (w1 : W) × (e : Exn) × (authorize_step auth item.name current
              item.auth_boundary item.auth_owner_type w
            ≡ (returned granted, w1))
          × (item.action.call current w1 ≡ (raised e, w')))

  -- The retries from number `k` on, each after its delay: so many failed, and then one succeeded, or
  -- they ended, by themselves or by what a delay or an attempt raised.
  abbrev pub Retried : Retry → ℕ → ℕ → Bool → W → W → Type 0
  Retried how k zero true w w' =
      (u : Unit {0}) × (w1 : W) × (r : Option (SagaData P)) × (asyncio.sleep
          (delay_for how.backoff (k - 1)) w
        ≡ (returned u, w1))
      × Succeeded r w1 w'
  Retried how k zero false w w' =
      (w ≡ w')
      ⊎ ((e : Exn) × (asyncio.sleep (delay_for how.backoff (k - 1)) w ≡ (raised e, w')))
      ⊎ ((u : Unit {0}) × (w1 : W) × (asyncio.sleep (delay_for how.backoff (k - 1)) w
            ≡ (returned u, w1))
          × Tried w1 w')
  Retried how k (suc n) success w w' =
      (u : Unit {0}) × (w1 w2 : W) × (asyncio.sleep (delay_for how.backoff (k - 1)) w
        ≡ (returned u, w1))
      × Tried w1 w2
      × Retried how (k + 1) n success w2 w'

  -- What follows a first attempt that failed.
  abbrev pub Later : ErrorStrategy → ℕ → Bool → W → W → Type 0
  Later (retry how) n success w w' = Retried how 2 n success w w'
  Later _ n success w w' = (n ≡ 0) × (success ≡ false) × (w ≡ w')

  -- All attempts of a serial step: `n` that failed and are recorded, and one that succeeded, if
  -- `success`; none but the first goes without its delay.
  abbrev pub Attempted : ℕ → Bool → W → W → Type 0
  Attempted zero true w w' = (r : Option (SagaData P)) × Succeeded r w w'
  Attempted zero false w w' = Tried w w'
  Attempted (suc n) success w w' = (w1 : W) × Tried w w1 × Later item.on_error n success w1 w'

  leave_timeout-returned :
      (limit : ℕ) (w : W) (q : Result (Option (SagaData P)) × W) (r : Option (SagaData P))
      → (leave_timeout asyncio auth limit w q).0 ≡ returned r
      → q ≡ (returned r, (leave_timeout asyncio auth limit w q).1)
  leave_timeout-returned limit w (returned r', w') r h = λ i. (h i, w')
  leave_timeout-returned limit w (raised e, w') r h = absurd (cc h)

  leave_timeout-raised :
      (limit : ℕ) (w : W) (q : Result (Option (SagaData P)) × W) (e : Exn)
      → (leave_timeout asyncio auth limit w q).0 ≡ raised e
      → (x : Exn) × (q ≡ (raised x, (leave_timeout asyncio auth limit w q).1))
  leave_timeout-raised limit w (returned r', w') e h = absurd (cc h)
  leave_timeout-raised limit w (raised x, w') e h = (x, refl)

  invoke_action-returned :
      (limit : Option ℕ) (w : W) (r : Option (SagaData P))
      → (invoke_action asyncio auth item.action limit current w).0 ≡ returned r
      → item.action.call current w
        ≡ (returned r, (invoke_action asyncio auth item.action limit current w).1)
  unfolding invoke_action
  invoke_action-returned none w r h = λ i. (h i, (item.action.call current w).1)
  invoke_action-returned (some limit) w r h =
      leave_timeout-returned limit w (item.action.call current w) r h

  invoke_action-raised :
      (limit : Option ℕ) (w : W) (e : Exn)
      → (invoke_action asyncio auth item.action limit current w).0 ≡ raised e
      → (x : Exn) × (item.action.call current w
          ≡ (raised x, (invoke_action asyncio auth item.action limit current w).1))
  unfolding invoke_action
  invoke_action-raised none w e h = (e, λ i. (h i, (item.action.call current w).1))
  invoke_action-raised (some limit) w e h =
      leave_timeout-raised limit w (item.action.call current w) e h

  -- The step from what its authorization answered.
  abbrev invoked_after : Result (Unit {0}) × W → Result (Option (SagaData P)) × W
  invoked_after q = elim q.0 [
    | raised e ↦ (raised e, q.1)
    | returned _ ↦ invoke_action asyncio auth item.action item.step_timeout current q.1
  ]

  invoked_after-Succeeded :
      (w : W) (q : Result (Unit {0}) × W) (r : Option (SagaData P))
      → authorize_step auth item.name current item.auth_boundary item.auth_owner_type w ≡ q
      → (invoked_after q).0 ≡ returned r
      → Succeeded r w (invoked_after q).1
  invoked_after-Succeeded w (raised e, w1) r asks h = absurd (cc h)
  invoked_after-Succeeded w (returned u, w1) r asks h =
      (u, w1, asks, invoke_action-returned item.step_timeout w1 r h)

  invoked_after-Tried :
      (w : W) (q : Result (Unit {0}) × W) (e : Exn)
      → authorize_step auth item.name current item.auth_boundary item.auth_owner_type w ≡ q
      → (invoked_after q).0 ≡ raised e
      → Tried w (invoked_after q).1
  invoked_after-Tried w (raised x, w1) e asks h = inl (x, asks)
  invoked_after-Tried w (returned u, w1) e asks h =
      let (x, broke) = invoke_action-raised item.step_timeout w1 e h in inr (u, w1, x, asks, broke)

  pub invoke_step_action-Succeeded :
      (w : W) (r : Option (SagaData P))
      → (invoke_step_action asyncio auth item current w).0 ≡ returned r
      → Succeeded r w (invoke_step_action asyncio auth item current w).1
  unfolding invoke_step_action
  invoke_step_action-Succeeded w r h = invoked_after-Succeeded w _ r refl h

  pub invoke_step_action-Tried :
      (w : W) (e : Exn)
      → (invoke_step_action asyncio auth item current w).0 ≡ raised e
      → Tried w (invoke_step_action asyncio auth item current w).1
  unfolding invoke_step_action
  invoke_step_action-Tried w e h = invoked_after-Tried w _ e refl h
