-- ===== src/Saga/Engine/Attempts.antt =====
-- core/spakky-saga/src/spakky/saga/engine.py: one compensation with its authorization, and the
-- handler of a compensation that failed.
use spakky_framework.Common.{◌≡◌, refl, ◌∙◌, inl, inr, Option, none, some}
use spakky_framework.Effects.{Exn, Result, returned, raised, Result-cases, saga_compensation_failed}
use spakky_framework.Saga.Flow.{SagaData, Callable}
use spakky_framework.Saga.Auth.{SagaAuthExecutionContext, authorize_step}
use spakky_framework.Saga.Engine.State.{Asyncio, CompensableStep, Executor}
use spakky_framework.Saga.Engine.Run.{attempt_compensation, escalate}
use spakky_framework.Saga.Engine.Undoing.{Called, Broke, Escalated}

module _ {P W : Type 0} (asyncio : Asyncio P W) (auth : SagaAuthExecutionContext W)
    (handler : Option (Callable P W)) where
  pub escalate_raises :
      (h : Option (Callable P W)) (s : Executor P W)
      → (e : Exn) × (w : W) × (escalate asyncio auth handler h s
          ≡ (raised e, record s { world = w }))
        × Escalated auth s.saga_data h s.world e w
  unfolding escalate
  escalate_raises none s = (saga_compensation_failed, s.world, refl, (refl, refl))
  escalate_raises (some f) s = elim (Result-cases (f.call s.saga_data s.world).0) [
    | inl (r, returns) ↦ (
      saga_compensation_failed,
      (f.call s.saga_data s.world).1,
      rw returns,
      inl (r, (λ i. (returns i, (f.call s.saga_data s.world).1)), refl),
    )
    | inr (e, breaks) ↦ (
      e,
      (f.call s.saga_data s.world).1,
      rw breaks,
      inr (λ i. (breaks i, (f.call s.saga_data s.world).1)),
    )
  ]

  -- How the attempt of one compensation went, from what its authorization answered.
  module _ (c : CompensableStep P W) (current : SagaData P) (w : W) where
    abbrev pub asked : Result (Unit {0}) × W
    asked = authorize_step auth c.name current c.auth_boundary c.auth_owner_type w

    abbrev after_asking : Result (Unit {0}) × W → Result (Option (SagaData P)) × W
    after_asking q = elim q.0 [
      | raised e ↦ (raised e, q.1)
      | returned _ ↦ c.compensate.call current q.1
    ]

    asked-Called :
        (q : Result (Unit {0}) × W) (r : Option (SagaData P))
        → asked ≡ q
        → (after_asking q).0 ≡ returned r
        → Called auth current c w (after_asking q).1
    asked-Called (raised e, w1) r asks h = absurd (cc h)
    asked-Called (returned u, w1) r asks h =
        (u, w1, r, asks, λ i. (h i, (c.compensate.call current w1).1))

    asked-Broke :
        (q : Result (Unit {0}) × W) (e : Exn)
        → asked ≡ q
        → (after_asking q).0 ≡ raised e
        → Broke auth current c w e (after_asking q).1
    asked-Broke (raised x, w1) e asks h =
        let same : x ≡ e = cc h in inl (asks ∙ λ i. (raised (same i), w1))
    asked-Broke (returned u, w1) e asks h =
        inr (u, w1, asks, λ i. (h i, (c.compensate.call current w1).1))

    pub attempt-Called :
        (r : Option (SagaData P))
        → (attempt_compensation asyncio auth handler c current w).0 ≡ returned r
        → Called auth current c w (attempt_compensation asyncio auth handler c current w).1
    unfolding attempt_compensation
    attempt-Called r h = asked-Called asked r refl h

    pub attempt-Broke :
        (e : Exn)
        → (attempt_compensation asyncio auth handler c current w).0 ≡ raised e
        → Broke auth current c w e (attempt_compensation asyncio auth handler c current w).1
    unfolding attempt_compensation
    attempt-Broke e h = asked-Broke asked e refl h
