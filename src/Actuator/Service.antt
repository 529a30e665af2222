-- ===== src/Actuator/Service.antt =====
-- core/spakky-actuator/src/spakky/actuator/service.py and registry.py: the probes of an endpoint are
-- checked one after the other.
use spakky_framework.Common.{
  String, Bool, true, false, List, [], ◌∷◌, ◌++◌, keep, any, is_empty, if◌then◌else◌,
}
use spakky_framework.Effects.{
  Exn, is_exception, Result, returned, raised, Io, and_then, return_, raise,
  cannot_evaluate_async_extension_synchronously,
}
use spakky_framework.Actuator.Health.{
  healthy, unhealthy, ActuatorEndpoint, health, readiness, liveness, ComponentHealthResult,
  ActuatorHealthResult, from_components,
}

-- AbstractHealthProbe, and AbstractAsyncHealthProbe, whose `check_async` is awaited.
pub record HealthProbe (W D : Type 0) : Type 0 where
  pub name : String
  pub required : Bool
  pub endpoints : List ActuatorEndpoint
  pub check : Io W (ComponentHealthResult D)

pub record ActuatorExtensionRegistry (W D : Type 0) : Type 0 where
  pub health_probes : List (HealthProbe W D)
  pub async_health_probes : List (HealthProbe W D)

-- `endpoint in probe.endpoints`
unfoldable pub endpoint_eq : ActuatorEndpoint → ActuatorEndpoint → Bool
endpoint_eq health health = true
endpoint_eq readiness readiness = true
endpoint_eq liveness liveness = true
endpoint_eq _ _ = false

module _ {W D : Type 0} where
  unfoldable pub register_health_probe :
      HealthProbe W D → ActuatorExtensionRegistry W D → ActuatorExtensionRegistry W D
  register_health_probe probe registry = record registry {
    health_probes = registry.health_probes ++ probe ∷ [];
  }

  unfoldable pub register_async_health_probe :
      HealthProbe W D → ActuatorExtensionRegistry W D → ActuatorExtensionRegistry W D
  register_async_health_probe probe registry = record registry {
    async_health_probes = registry.async_health_probes ++ probe ∷ [];
  }

  unfoldable pub matching : ActuatorEndpoint → List (HealthProbe W D) → List (HealthProbe W D)
  unfolding keep any endpoint_eq
  matching endpoint probes = keep (λ probe. any (endpoint_eq endpoint) probe.endpoints) probes

-- `include_details` is a field of the configuration.
unfoldable pub apply_details_policy :
    {D : Type 0} → Bool → ComponentHealthResult D → ComponentHealthResult D
apply_details_policy include_details result =
    if include_details then result else elim result.status [
      | healthy ↦ record {
        name = result.name;
        status = healthy;
        required = result.required;
        details = [];
      }
      | unhealthy ↦ record {
        name = result.name;
        status = unhealthy;
        required = result.required;
        details = [];
      }
    ]

-- `error_details` are the message and the type of an exception.
unfoldable pub exception_result :
    {D : Type 0} → Bool → (Exn → List (String × D)) → String → Bool → Exn → ComponentHealthResult D
unfolding apply_details_policy
exception_result include_details error_details name required e =
    apply_details_policy include_details
      (record { name = name; status = unhealthy; required = required; details = error_details e })

module _ {W D : Type 0} (include_details : Bool) (error_details : Exn → List (String × D)) where
  -- What `_check_sync_probe` makes of the outcome of `check`.
  unfoldable pub component_of :
      HealthProbe W D → Result (ComponentHealthResult D) → Result (ComponentHealthResult D)
  unfolding apply_details_policy exception_result
  component_of probe (returned result) = returned (apply_details_policy include_details result)
  component_of probe (raised e) =
      if is_exception e
      then returned (exception_result include_details error_details probe.name probe.required e)
      else raised e

  unfoldable pub check_probe : HealthProbe W D → Io W (ComponentHealthResult D)
  unfolding component_of
  check_probe probe w = let (outcome, w1) = probe.check w in (component_of probe outcome, w1)

  unfoldable pub check_probes : List (HealthProbe W D) → Io W (List (ComponentHealthResult D))
  unfolding check_probe
  check_probes [] = return_ []
  check_probes (probe ∷ rest) =
      and_then (check_probe probe)
        (λ component. and_then (check_probes rest) (λ components. return_ (component ∷ components)))

  -- `sorted` by name.
  module _ (probes_sorted : List (HealthProbe W D) → List (HealthProbe W D))
      (name_sorted : List (ComponentHealthResult D) → List (ComponentHealthResult D))
      (registry : ActuatorExtensionRegistry W D) where
    unfoldable pub matching_health_probes : ActuatorEndpoint → List (HealthProbe W D)
    unfolding matching
    matching_health_probes endpoint = matching endpoint (probes_sorted registry.health_probes)

    unfoldable pub matching_async_health_probes : ActuatorEndpoint → List (HealthProbe W D)
    unfolding matching
    matching_async_health_probes endpoint =
        matching endpoint (probes_sorted registry.async_health_probes)

    unfoldable pub evaluate_sync : ActuatorEndpoint → Io W (ActuatorHealthResult D)
    unfolding check_probes matching_health_probes matching_async_health_probes from_components
    evaluate_sync endpoint =
        if is_empty (matching_async_health_probes endpoint)
        then and_then (check_probes (matching_health_probes endpoint))
            (λ components. return_ (from_components name_sorted endpoint components))
        else raise cannot_evaluate_async_extension_synchronously

    unfoldable pub evaluate_async : ActuatorEndpoint → Io W (ActuatorHealthResult D)
    unfolding check_probes matching_health_probes matching_async_health_probes from_components
    evaluate_async endpoint =
        and_then (check_probes (matching_health_probes endpoint)) (λ sync_components.
          and_then (check_probes (matching_async_health_probes endpoint)) (λ async_components.
            return_ (from_components name_sorted endpoint (sync_components ++ async_components))))
