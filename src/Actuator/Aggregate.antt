-- ===== src/Actuator/Aggregate.antt =====
-- core/spakky-actuator/src/spakky/actuator/service.py and result.py: what an evaluation reports.
use spakky_framework.Common.{
  ◌≡◌, ◌↔◌, ◌∙◌, ap, sym, refl, Bool, true, false, ◌&&◌, inl, inr, String, List, [], ◌∷◌, ◌++◌, All,
  Some, Bool-cases, is_empty, if◌then◌else◌, Permᴰ,
}
use spakky_framework.Effects.{
  Exn, Result, returned, raised, Ordinary, and_then, and_then-returned, return_,
}
use spakky_framework.Actuator.Health.{
  HealthStatus, healthy, unhealthy, is_unhealthy, ActuatorEndpoint, ComponentHealthResult,
  ActuatorHealthResult, overall_status, healthy_baseline, from_components,
}
use spakky_framework.Actuator.Service.{
  HealthProbe, ActuatorExtensionRegistry, apply_details_policy, exception_result, component_of,
  check_probe, check_probes, matching_health_probes, matching_async_health_probes, evaluate_async,
}

-- The component fails the aggregate.
abbrev pub Failing : {D : Type 0} → ComponentHealthResult D → Type 0
Failing component = (component.required ≡ true) × (component.status ≡ unhealthy)

and-true : (a b : Bool) → (a && b) ≡ true → (a ≡ true) × (b ≡ true)
and-true true b h = (refl, h)
and-true false b h = absurd (cc h)

is_unhealthy-true : (s : HealthStatus) → is_unhealthy s ≡ true → s ≡ unhealthy
is_unhealthy-true unhealthy h = refl
is_unhealthy-true healthy h = absurd (cc h)

module _ {D : Type 0} where
  overall_status-Some :
      (cs : List (ComponentHealthResult D)) → (overall_status cs ≡ unhealthy) ↔ Some Failing cs
  unfolding overall_status
  overall_status-Some [] = (λ h. absurd (cc h), λ h. absurd h)
  overall_status-Some (c ∷ cs) = elim (Bool-cases (c.required && is_unhealthy c.status)) [
    | inl fails ↦
        let (needed, ill) = and-true c.required (is_unhealthy c.status) fails in
        rw fails (λ _. inl (needed, is_unhealthy-true c.status ill), λ _. refl)
    | inr passes ↦
        let rest = overall_status-Some cs in
        rw passes (
          λ h. inr (rest.0 h),
          λ some_fails. elim some_fails [
            | inl (needed, ill) ↦
                let fails : (c.required && is_unhealthy c.status) ≡ true =
                  λ i. needed i && is_unhealthy (ill i) in
                absurd (cc (sym fails ∙ passes))
            | inr later ↦ rest.1 later
          ],
        )
  ]

  -- The report lists the components, in some order, and is unhealthy if a required one is.
  abbrev pub Reports :
      ActuatorEndpoint → List (ComponentHealthResult D) → ActuatorHealthResult D → Type 0
  Reports endpoint components report =
      (report.endpoint ≡ endpoint)
      × Permᴰ components report.components
      × ((report.status ≡ unhealthy) ↔ Some Failing report.components)

  Reports-ordered :
      (endpoint : ActuatorEndpoint) (cs ordered : List (ComponentHealthResult D))
      → Permᴰ cs ordered
      → Reports endpoint cs (
          if is_empty ordered then healthy_baseline endpoint else record {
            endpoint = endpoint;
            status = overall_status ordered;
            components = ordered;
          })
  unfolding healthy_baseline
  Reports-ordered endpoint cs [] same = (refl, same, (λ h. absurd (cc h), λ h. absurd h))
  Reports-ordered endpoint cs (c ∷ ordered) same = (refl, same, overall_status-Some (c ∷ ordered))

-- What is shown of a component: its details only if they are to be included.
unfoldable pub shown : {D : Type 0} → Bool → ComponentHealthResult D → ComponentHealthResult D
shown include_details c = record {
  name = c.name;
  status = c.status;
  required = c.required;
  details = if include_details then c.details else [];
}

-- A probe that raised: unhealthy, as required as the probe is.
unfoldable pub broken :
    {D : Type 0} → Bool → (Exn → List (String × D)) → String → Bool → Exn → ComponentHealthResult D
broken include_details error_details name required e = record {
  name = name;
  status = unhealthy;
  required = required;
  details = if include_details then error_details e else [];
}

policy-hides :
    {D : Type 0} (name : String) (status : HealthStatus) (required : Bool)
    (details : List (String × D))
    → apply_details_policy false
        (record { name = name; status = status; required = required; details = details })
      ≡ record { name = name; status = status; required = required; details = [] }
unfolding apply_details_policy
policy-hides name healthy required details = refl
policy-hides name unhealthy required details = refl

policy-shown :
    {D : Type 0} (include_details : Bool) (c : ComponentHealthResult D)
    → apply_details_policy include_details c ≡ shown include_details c
unfolding apply_details_policy shown
policy-shown true c = refl
policy-shown false c = policy-hides c.name c.status c.required c.details

exception-broken :
    {D : Type 0} (include_details : Bool) (error_details : Exn → List (String × D)) (name : String)
    (required : Bool) (e : Exn)
    → exception_result include_details error_details name required e
      ≡ broken include_details error_details name required e
unfolding exception_result apply_details_policy broken
exception-broken true error_details name required e = refl
exception-broken false error_details name required e = refl

module _ {W D : Type 0} (include_details : Bool) (error_details : Exn → List (String × D)) where
  -- The probes were checked in turn, and each component is what its probe answered, or the
  -- unhealthy result for the Exception that it raised, under the policy on details.
  pub data Checked : List (HealthProbe W D) → W → List (ComponentHealthResult D) → W → Type 0 where
    none_left : (w : W) → Checked [] w [] w
    answered :
        (p : HealthProbe W D) (ps : List (HealthProbe W D)) (c : ComponentHealthResult D)
        (cs : List (ComponentHealthResult D)) (w w1 w2 : W)
        → p.check w ≡ (returned c, w1)
        → Checked ps w1 cs w2
        → Checked (p ∷ ps) w (shown include_details c ∷ cs) w2
    failed :
        (p : HealthProbe W D) (ps : List (HealthProbe W D)) (e : Exn)
        (cs : List (ComponentHealthResult D)) (w w1 w2 : W)
        → p.check w ≡ (raised e, w1)
        → Checked ps w1 cs w2
        → Checked (p ∷ ps) w (broken include_details error_details p.name p.required e ∷ cs) w2

  Checked-append :
      (ps qs : List (HealthProbe W D)) (cs ds : List (ComponentHealthResult D)) (w w1 w2 : W)
      → Checked ps w cs w1
      → Checked qs w1 ds w2
      → Checked (ps ++ qs) w (cs ++ ds) w2
  Checked-append _ qs _ ds _ _ w2 (none_left w) k = k
  Checked-append _ qs _ ds _ _ w2 (answered p ps c cs w w1 w' e h) k =
      answered p (ps ++ qs) c (cs ++ ds) w w1 w2 e (Checked-append ps qs cs ds w1 w' w2 h k)
  Checked-append _ qs _ ds _ _ w2 (failed p ps x cs w w1 w' e h) k =
      failed p (ps ++ qs) x (cs ++ ds) w w1 w2 e (Checked-append ps qs cs ds w1 w' w2 h k)

  -- The probes raise nothing but Exceptions.
  abbrev pub Civil : List (HealthProbe W D) → Type 0
  Civil ps = All (λ p. (w : W) → Ordinary {A = ComponentHealthResult D} (p.check w).0) ps

  abbrev CheckedTo : List (HealthProbe W D) → W → Type 0
  CheckedTo ps w =
      (cs : List (ComponentHealthResult D)) × (w' : W) × (check_probes include_details error_details
          ps w
        ≡ (returned cs, w'))
      × Checked ps w cs w'

  first_then :
      (p : HealthProbe W D) (ps : List (HealthProbe W D)) (w w1 w' : W)
      (c : ComponentHealthResult D) (cs : List (ComponentHealthResult D))
      → check_probe include_details error_details p w ≡ (returned c, w1)
      → check_probes include_details error_details ps w1 ≡ (returned cs, w')
      → check_probes include_details error_details (p ∷ ps) w ≡ (returned (c ∷ cs), w')
  unfolding check_probes
  first_then p ps w w1 w' c cs h k =
      and_then-returned (check_probe include_details error_details p)
        (λ component.
          and_then (check_probes include_details error_details ps)
            (λ components. return_ (component ∷ components)))
        h
      ∙ and_then-returned (check_probes include_details error_details ps)
          (λ components. return_ (c ∷ components)) k

  CheckedTo-cons :
      (p : HealthProbe W D) (ps : List (HealthProbe W D)) (w : W)
      (q : Result (ComponentHealthResult D) × W)
      → p.check w ≡ q
      → Ordinary {A = ComponentHealthResult D} q.0
      → ((w1 : W) → CheckedTo ps w1)
      → CheckedTo (p ∷ ps) w
  unfolding check_probes check_probe component_of
  CheckedTo-cons p ps w (returned c, w1) h _ k =
      let (cs, w', done, checked) = k w1 in
      (
        shown include_details c ∷ cs,
        w',
        first_then p ps w w1 w' (shown include_details c) cs
            ((λ i. (component_of include_details error_details p (h i).0, (h i).1)) ∙ λ i.
              (returned (policy-shown include_details c i), w1))
            done,
        answered p ps c cs w w1 w' h checked,
      )
  CheckedTo-cons p ps w (raised e, w1) h civil k =
      let (cs, w', done, checked) = k w1 in
      let c = broken include_details error_details p.name p.required e in
      let kept : component_of include_details error_details p (raised e) ≡ returned c =
        rw civil
          (ap returned (exception-broken include_details error_details p.name p.required e)) in
      (
        c ∷ cs,
        w',
        first_then p ps w w1 w' c cs
            ((λ i. (component_of include_details error_details p (h i).0, (h i).1)) ∙ λ i.
              (kept i, w1))
            done,
        failed p ps e cs w w1 w' h checked,
      )

  check_probes-Checked : (ps : List (HealthProbe W D)) (w : W) → Civil ps → CheckedTo ps w
  unfolding check_probes
  check_probes-Checked [] w _ = ([], w, refl, none_left w)
  check_probes-Checked (p ∷ ps) w (civil, others) =
      CheckedTo-cons p ps w (p.check w) refl (civil w) (λ w1. check_probes-Checked ps w1 others)

  module _ (probes_sorted : List (HealthProbe W D) → List (HealthProbe W D))
      (name_sorted : List (ComponentHealthResult D) → List (ComponentHealthResult D))
      (sorted : (cs : List (ComponentHealthResult D)) → Permᴰ cs (name_sorted cs))
      (registry : ActuatorExtensionRegistry W D) where
    -- An asynchronous evaluation returns a report on all probes of the endpoint, the synchronous
    -- ones first. Each was checked in turn; its component is what it answered or, for the Exception
    -- that it raised, an unhealthy component of the probe's name, required if the probe is; details
    -- are shown only if they are included. The report lists the components in some order, and is
    -- unhealthy exactly if a required one is. It holds for probes that raise nothing but Exceptions
    -- and a sort that permutes.
    pub evaluate_async-Reports :
        (endpoint : ActuatorEndpoint) (w : W)
        → Civil (
            matching_health_probes include_details error_details probes_sorted name_sorted registry
              endpoint)
        → Civil (
            matching_async_health_probes include_details error_details probes_sorted name_sorted
              registry endpoint)
        → (cs : List (ComponentHealthResult D)) × (w' : W) × (report : ActuatorHealthResult D)
          × (evaluate_async include_details error_details probes_sorted name_sorted registry
                endpoint w
              ≡ (returned report, w'))
          × Checked
              (matching_health_probes include_details error_details probes_sorted name_sorted
                  registry endpoint
                ++ matching_async_health_probes include_details error_details probes_sorted
                    name_sorted registry endpoint)
              w
              cs
              w'
          × Reports endpoint cs report
    unfolding evaluate_async from_components
    evaluate_async-Reports endpoint w civil civil_async =
        let ps =
          matching_health_probes include_details error_details probes_sorted name_sorted registry
            endpoint in
        let qs =
          matching_async_health_probes include_details error_details probes_sorted name_sorted
            registry endpoint in
        let (cs, w1, done, checked) = check_probes-Checked ps w civil in
        let (ds, w2, done', checked') = check_probes-Checked qs w1 civil_async in
        (
          cs ++ ds,
          w2,
          from_components name_sorted endpoint (cs ++ ds),
          and_then-returned (check_probes include_details error_details ps)
                (λ cs.
                  and_then (check_probes include_details error_details qs)
                    (λ ds. return_ (from_components name_sorted endpoint (cs ++ ds))))
                done
              ∙ and_then-returned (check_probes include_details error_details qs)
                  (λ ds. return_ (from_components name_sorted endpoint (cs ++ ds))) done',
          Checked-append ps qs cs ds w w1 w2 checked checked',
          Reports-ordered endpoint (cs ++ ds) (name_sorted (cs ++ ds)) (sorted (cs ++ ds)),
        )
