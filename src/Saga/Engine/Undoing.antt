-- ===== src/Saga/Engine/Undoing.antt =====
-- core/spakky-saga/src/spakky/saga/engine.py: what a run of compensations is, call by call. Each
-- call starts in the world where the one before it ended.
use spakky_framework.Common.{◌≡◌, true, false, ◌⊎◌, Option, none, some, List, [], ◌∷◌, ◌++◌}
use spakky_framework.Effects.{Exn, Result, returned, raised, is_exception, saga_compensation_failed}
use spakky_framework.Saga.Strategy.{failed}
use spakky_framework.Saga.Flow.{SagaData, Callable}
use spakky_framework.Saga.Auth.{SagaAuthExecutionContext, authorize_step}
use spakky_framework.Saga.Engine.State.{CompensableStep, Executor}
use spakky_framework.Saga.Engine.Trace.{Event, events, names, compensations}

module _ {P W : Type 0} where
  abbrev pub compensated_events : List (CompensableStep P W) → List Event
  compensated_events cs = compensations (names cs)

module _ {P W : Type 0} (auth : SagaAuthExecutionContext W) (current : SagaData P) where
  -- The step was authorized, and then its compensation was called with the data and returned.
  abbrev pub Called : CompensableStep P W → W → W → Type 0
  Called c w w' =
      (granted : Unit {0}) × (w1 : W) × (r : Option (SagaData P)) × (authorize_step auth c.name
          current c.auth_boundary c.auth_owner_type w
        ≡ (returned granted, w1))
      × (c.compensate.call current w1 ≡ (returned r, w'))

  -- The compensations were called one after the other, and all returned.
  abbrev pub Undone : List (CompensableStep P W) → W → W → Type 0
  Undone [] w w' = w ≡ w'
  Undone (c ∷ cs) w w' = (w1 : W) × Called c w w1 × Undone cs w1 w'

  -- The authorization raised `e`, or it granted and the compensation was called and raised `e`.
  abbrev pub Broke : CompensableStep P W → W → Exn → W → Type 0
  Broke c w e w' =
      (authorize_step auth c.name current c.auth_boundary c.auth_owner_type w ≡ (raised e, w'))
      ⊎ ((granted : Unit {0}) × (w1 : W) × (authorize_step auth c.name current c.auth_boundary
              c.auth_owner_type w
            ≡ (returned granted, w1))
          × (c.compensate.call current w1 ≡ (raised e, w')))

  -- The handler, if there is one, was called; what it raised, or else the failure of the
  -- compensation, is raised as `x`.
  abbrev pub Escalated : Option (Callable P W) → W → Exn → W → Type 0
  Escalated none w x w' = (x ≡ saga_compensation_failed) × (w' ≡ w)
  Escalated (some f) w x w' =
      ((r : Option (SagaData P)) × (f.call current w ≡ (returned r, w'))
        × (x ≡ saga_compensation_failed))
      ⊎ (f.call current w ≡ (raised x, w'))

  -- What ended the compensations with `rest` left: nothing, if all ran; else the first of `rest`
  -- broke. A cancellation is raised again and not recorded; an Exception is recorded as a failure
  -- and escalated.
  abbrev pub Ended :
      Option (Callable P W)
      → List (CompensableStep P W)
      → W
      → Result (Unit {0})
      → List Event
      → W
      → Type 0
  Ended handler rest w (returned _) evs w' = (rest ≡ []) × (evs ≡ []) × (w ≡ w')
  Ended handler rest w (raised x) evs w' =
      (c : CompensableStep P W) × (later : List (CompensableStep P W)) × (e : Exn) × (w1 : W)
      × (rest ≡ c ∷ later)
      × Broke c w e w1
      × (((is_exception e ≡ false) × (evs ≡ []) × (x ≡ e) × (w' ≡ w1))
          ⊎ ((is_exception e ≡ true) × (evs ≡ (c.name, failed) ∷ []) × Escalated handler w1 x w'))

-- The compensations `cs` ran from `s` up to `s'`: those of `done` were called in order and returned,
-- and then the run ended. Neither the data nor the list of compensations changed.
pub record CompensationRun {P W : Type 0} (auth : SagaAuthExecutionContext W)
    (handler : Option (Callable P W)) (cs : List (CompensableStep P W)) (s s' : Executor P W)
    (result : Result (Unit {0})) : Type 0 where
  pub done : List (CompensableStep P W)
  pub rest : List (CompensableStep P W)
  pub last : List Event
  pub between : W
  pub split : cs ≡ done ++ rest
  pub calls : Undone auth s.saga_data done s.world between
  pub ended : Ended auth s.saga_data handler rest between result last s'.world
  pub events_eq : events s'.history ≡ events s.history ++ (compensated_events done ++ last)
  pub data_eq : s'.saga_data ≡ s.saga_data
  pub compensable_eq : s'.compensable ≡ s.compensable
