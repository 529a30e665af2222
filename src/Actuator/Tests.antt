-- ===== src/Actuator/Tests.antt =====
-- core/spakky-actuator/src/spakky/actuator: two probes, one of which raises.
use spakky_framework.Common.{
  ℕ, suc, ◌≡◌, refl, ◌⊎◌, true, false, String, List, [], ◌∷◌, is_empty, keep, any,
}
use mathlib.Core.List
use spakky_framework.Effects.{Exn, returned, raised, cannot_evaluate_async_extension_synchronously}
use spakky_framework.Actuator.Health.{
  healthy, unhealthy, health, readiness, liveness, ComponentHealthResult, ActuatorHealthResult,
  overall_status, from_components,
}
use spakky_framework.Actuator.Service.{
  HealthProbe, ActuatorExtensionRegistry, endpoint_eq, matching, apply_details_policy,
  exception_result, component_of, check_probe, check_probes, matching_health_probes,
  matching_async_health_probes, evaluate_sync, evaluate_async,
}
use spakky_framework.Actuator.Aggregate.{Checked, Reports, evaluate_async-Reports}
use spakky_framework.Actuator.Sync.{evaluate_sync-async}

abbrev disk : HealthProbe ℕ ℕ
disk = record {
  name = "disk";
  required = false;
  endpoints = health ∷ liveness ∷ [];
  check = λ w. (
    returned (record {
      name = "disk";
      status = unhealthy;
      required = false;
      details = ("free", 0) ∷ [];
    }),
    suc w,
  );
}

abbrev database : HealthProbe ℕ ℕ
database = record {
  name = "database";
  required = true;
  endpoints = health ∷ readiness ∷ [];
  check = λ w. (raised (Exn.exception 4), suc w);
}

abbrev registry : ActuatorExtensionRegistry ℕ ℕ
registry = record { health_probes = disk ∷ []; async_health_probes = database ∷ [] }

abbrev report : ActuatorHealthResult ℕ
report = record {
  endpoint = health;
  status = unhealthy;
  components =
      record { name = "disk"; status = unhealthy; required = false; details = [] }
      ∷ record { name = "database"; status = unhealthy; required = true; details = [] }
      ∷ [];
}

abbrev error_details : Exn → List (String × ℕ)
error_details e = ("error", 1) ∷ []

evaluating : Unit {0}
unfolding evaluate_async evaluate_sync matching_health_probes matching_async_health_probes matching
    check_probes check_probe component_of apply_details_policy exception_result from_components
    overall_status keep any endpoint_eq
evaluating = tt

database_down :
    evaluate_async false error_details (λ ps. ps) (λ cs. cs) registry health 0
    ≡ (returned report, 2)
unfolding evaluating
database_down = refl

-- The disk is not required.
still_alive : (evaluate_sync false error_details (λ ps. ps) (λ cs. cs) registry liveness 0) ≡ (
  returned (record {
    endpoint = liveness;
    status = healthy;
    components = record { name = "disk"; status = unhealthy; required = false; details = [] } ∷ [];
  }),
  1,
)
unfolding evaluating
still_alive = refl

evaluate_async-Reports_example :
    (cs : List (ComponentHealthResult ℕ)) × (w' : ℕ) × (report : ActuatorHealthResult ℕ)
    × (evaluate_async false error_details (λ ps. ps) (λ cs. cs) registry health 0
        ≡ (returned report, w'))
    × Checked false error_details (disk ∷ database ∷ []) 0 cs w'
    × Reports health cs report
unfolding evaluating
evaluate_async-Reports_example =
    evaluate_async-Reports false error_details (λ ps. ps) (λ cs. cs) (λ cs. List.Permᴰ.refl cs)
      registry health 0 (λ w. tt, tt) (λ w. refl, tt)

evaluate_sync-async_example :
    ((matching_async_health_probes false error_details (λ ps. ps) (λ cs. cs) registry health ≡ [])
      × (evaluate_sync false error_details (λ ps. ps) (λ cs. cs) registry health 0
          ≡ evaluate_async false error_details (λ ps. ps) (λ cs. cs) registry health 0))
    ⊎ ((is_empty
            (matching_async_health_probes false error_details (λ ps. ps) (λ cs. cs) registry health)
          ≡ false)
        × (evaluate_sync false error_details (λ ps. ps) (λ cs. cs) registry health 0
            ≡ (raised cannot_evaluate_async_extension_synchronously, 0)))
evaluate_sync-async_example =
    evaluate_sync-async false error_details (λ ps. ps) (λ cs. cs) registry health 0
