-- ===== src/Actuator/Sync.antt =====
-- core/spakky-actuator/src/spakky/actuator/service.py: synchronous against asynchronous evaluation.
use spakky_framework.Common.{
  ◌≡◌, ◌∙◌, ap, sym, refl, Bool, false, ◌⊎◌, append-nil, inl, inr, String, List, [], ◌∷◌, ◌++◌,
  is_empty, if◌then◌else◌,
}
use spakky_framework.Effects.{
  Exn, returned, raised, Io, and_then, and_then-ap, raise,
  cannot_evaluate_async_extension_synchronously, return_,
}
use spakky_framework.Actuator.Health.{
  ActuatorEndpoint, ComponentHealthResult, ActuatorHealthResult, from_components,
}
use spakky_framework.Actuator.Service.{
  HealthProbe, ActuatorExtensionRegistry, check_probes, matching_health_probes,
  matching_async_health_probes, evaluate_sync, evaluate_async,
}

is_empty-cases : {A : Type 0} (xs : List A) → (xs ≡ []) ⊎ (is_empty xs ≡ false)
is_empty-cases [] = inl refl
is_empty-cases (x ∷ xs) = inr refl

module _ {W D : Type 0} (include_details : Bool) (error_details : Exn → List (String × D))
    (probes_sorted : List (HealthProbe W D) → List (HealthProbe W D))
    (name_sorted : List (ComponentHealthResult D) → List (ComponentHealthResult D))
    (registry : ActuatorExtensionRegistry W D) where
  -- A synchronous evaluation is the asynchronous one where no asynchronous probe is of the
  -- endpoint; where one is, it raises before any probe is checked.
  pub evaluate_sync-async :
      (endpoint : ActuatorEndpoint) (w : W)
      → ((matching_async_health_probes include_details error_details probes_sorted name_sorted
              registry endpoint
            ≡ [])
          × (evaluate_sync include_details error_details probes_sorted name_sorted registry endpoint
                w
              ≡ evaluate_async include_details error_details probes_sorted name_sorted registry
                  endpoint w))
        ⊎ ((is_empty (
                matching_async_health_probes include_details error_details probes_sorted name_sorted
                  registry endpoint)
              ≡ false)
            × (evaluate_sync include_details error_details probes_sorted name_sorted registry
                  endpoint w
                ≡ (raised cannot_evaluate_async_extension_synchronously, w)))
  unfolding evaluate_sync evaluate_async check_probes
  evaluate_sync-async endpoint w =
      let ps =
        matching_health_probes include_details error_details probes_sorted name_sorted registry
          endpoint in
      let qs =
        matching_async_health_probes include_details error_details probes_sorted name_sorted
          registry endpoint in
      let check = check_probes include_details error_details in
      let sync : List (HealthProbe W D) → Io W (ActuatorHealthResult D) = λ qs.
        if is_empty qs
        then and_then (check ps) (λ cs. return_ (from_components name_sorted endpoint cs))
        else raise cannot_evaluate_async_extension_synchronously in
      let async : List (HealthProbe W D) → Io W (ActuatorHealthResult D) = λ qs.
        and_then (check ps) (λ cs.
          and_then (check qs) (λ ds. return_ (from_components name_sorted endpoint (cs ++ ds)))) in
      elim (is_empty-cases qs) [
        | inl h ↦ inl (
          h,
          ap (λ qs. sync qs w) h
              ∙ and_then-ap (check ps) (λ cs. return_ (from_components name_sorted endpoint cs))
                  (λ cs. return_ (from_components name_sorted endpoint (cs ++ []))) w
                  (λ cs w1.
                    ap (λ cs. (returned (from_components name_sorted endpoint cs), w1))
                      (sym (append-nil cs)))
              ∙ ap (λ qs. async qs w) (sym h),
        )
        | inr h ↦ inr (
          h,
          ap
              (λ b.
                (if b
                    then and_then (check ps)
                        (λ cs. return_ (from_components name_sorted endpoint cs))
                    else raise cannot_evaluate_async_extension_synchronously)
                  w)
              h,
        )
      ]
