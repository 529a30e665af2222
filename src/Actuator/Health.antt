-- ===== src/Actuator/Health.antt =====
-- core/spakky-actuator/src/spakky/actuator/result.py: results of components and their aggregate.
use spakky_framework.Common.{
  String, Bool, true, false, ◌&&◌, List, [], ◌∷◌, is_empty, if◌then◌else◌,
}

pub data HealthStatus : Type 0 where
  healthy unhealthy : HealthStatus

pub data ActuatorEndpoint : Type 0 where
  health readiness liveness : ActuatorEndpoint

-- The details are a mapping of the user's to values of any kind.
pub record ComponentHealthResult (D : Type 0) : Type 0 where
  pub name : String
  pub status : HealthStatus
  pub required : Bool
  pub details : List (String × D)

pub record ActuatorHealthResult (D : Type 0) : Type 0 where
  pub endpoint : ActuatorEndpoint
  pub status : HealthStatus
  pub components : List (ComponentHealthResult D)

abbrev pub is_unhealthy : HealthStatus → Bool
is_unhealthy healthy = false
is_unhealthy unhealthy = true

module _ {D : Type 0} where
  unfoldable pub healthy_baseline : ActuatorEndpoint → ActuatorHealthResult D
  healthy_baseline endpoint = record { endpoint = endpoint; status = healthy; components = [] }

  -- The loop over the components, with its `break`.
  unfoldable pub overall_status : List (ComponentHealthResult D) → HealthStatus
  overall_status [] = healthy
  overall_status (component ∷ rest) =
      let later = overall_status rest in
      if component.required && is_unhealthy component.status then unhealthy else later

  -- `name_sorted` sorts by name.
  unfoldable pub from_components :
      (List (ComponentHealthResult D) → List (ComponentHealthResult D))
      → ActuatorEndpoint
      → List (ComponentHealthResult D)
      → ActuatorHealthResult D
  unfolding overall_status healthy_baseline
  from_components name_sorted endpoint components =
      let ordered = name_sorted components in
      if is_empty ordered
      then healthy_baseline endpoint
      else record { endpoint = endpoint; status = overall_status ordered; components = ordered }
