-- ===== src/Container/Errors.antt =====
-- core/spakky/src/spakky/core/application/application_context.py: what `__resolve_candidate` raises.
use spakky_framework.Common.{
  String, Bool, true, false, Option, none, some, inl, inr, Option-cases, List, [], ◌∷◌, ◌==◌, all,
  string_has_eq, option_has_eq, nat_has_eq,
}
use spakky_framework.Effects.{
  Exn, Result, returned, raised, no_unique_pod, no_such_pod_binding_target,
}
use spakky_framework.Container.Registry.{PodType, Pod, PodBinding, ApplicationContext}
use spakky_framework.Container.Resolve.{
  Qualifier, Picked, missing, several, unique, picked_from, pick, by_qualifiers, picked_target,
  resolve_binding_candidate, by_parameter_name, by_primary, by_single, by_binding, by_name, choose,
  choose_among, resolve_candidate,
}

module _ (Raises : Exn → Type 0) (ambiguous : Raises no_unique_pod)
    (no_target : Raises no_such_pod_binding_target) where
  -- If it is raised, it is so.
  abbrev pub Raised : {A : Type 0} → Result A → Type 0
  Raised (returned _) = Unit
  Raised (raised e) = Raises e

  Raised-stage :
      (r : Picked) (on_missing on_several : Result (Option Pod))
      → Raised {A = Option Pod} on_missing
      → Raised {A = Option Pod} on_several
      → Raised {A = Option Pod}
          (elim r [ unique p ↦ returned (some p) | missing ↦ on_missing | several ↦ on_several ])
  Raised-stage missing _ _ h k = h
  Raised-stage several _ _ h k = k
  Raised-stage (unique p) _ _ h k = tt

  picked_target-Raised : (r : Picked) → Raised {A = Option Pod} (picked_target r)
  unfolding picked_target
  picked_target-Raised missing = no_target
  picked_target-Raised several = no_target
  picked_target-Raised (unique p) = tt

  module _ (ps : List Pod) where
    by_parameter_name-Raised :
        (name : Option String) (is_parameter : Bool)
        → Raised {A = Option Pod} (by_parameter_name name is_parameter ps)
    unfolding by_parameter_name
    by_parameter_name-Raised none is_parameter = ambiguous
    by_parameter_name-Raised (some name) false = ambiguous
    by_parameter_name-Raised (some name) true =
        Raised-stage (pick (λ p. p.name == name) ps) (raised no_unique_pod) (raised no_unique_pod)
          ambiguous ambiguous

    by_primary-Raised :
        (name : Option String) (is_parameter : Bool)
        → Raised {A = Option Pod} (by_primary name is_parameter ps)
    unfolding by_primary
    by_primary-Raised name is_parameter =
        Raised-stage (pick (λ p. p.is_primary) ps) (by_parameter_name name is_parameter ps)
          (raised no_unique_pod) (by_parameter_name-Raised name is_parameter) ambiguous

    by_single-Raised :
        (name : Option String) (is_parameter : Bool)
        → Raised {A = Option Pod} (by_single name is_parameter ps)
    unfolding by_single
    by_single-Raised name is_parameter =
        let next = by_primary-Raised name is_parameter in
        Raised-stage (picked_from ps) (by_primary name is_parameter ps)
          (by_primary name is_parameter ps) next next

    binding-Raised :
        (binding : Option PodBinding)
        → Raised {A = Option Pod} (resolve_binding_candidate binding ps)
    unfolding resolve_binding_candidate
    binding-Raised none = tt
    binding-Raised (some binding) = elim (Option-cases binding.implementation_name) [
      | inl e ↦
          rw e (picked_target-Raised (pick (λ p. some p.type_ == binding.implementation_type) ps))
      | inr (name, e) ↦ rw e (picked_target-Raised (pick (λ p. p.name == name) ps))
    ]

    found_or :
        (r next : Result (Option Pod))
        → Raised {A = Option Pod} r
        → Raised {A = Option Pod} next
        → Raised {A = Option Pod} (elim r [
          | returned (some pod) ↦ returned (some pod)
          | returned none ↦ next
          | raised e ↦ raised e
        ])
    found_or (returned (some pod)) next h k = tt
    found_or (returned none) next h k = k
    found_or (raised e) next h k = h

    by_binding-Raised :
        (binding : Option PodBinding) (name : Option String) (is_parameter : Bool)
        → Raised {A = Option Pod} (by_binding binding name is_parameter ps)
    unfolding by_binding
    by_binding-Raised binding name is_parameter =
        found_or (resolve_binding_candidate binding ps) (by_single name is_parameter ps)
          (binding-Raised binding) (by_single-Raised name is_parameter)

    by_name-Raised :
        (binding : Option PodBinding) (name : Option String) (is_parameter : Bool)
        → Raised {A = Option Pod} (by_name binding name is_parameter ps)
    unfolding by_name
    by_name-Raised binding none is_parameter = by_binding-Raised binding none is_parameter
    by_name-Raised binding (some name) true = by_binding-Raised binding (some name) true
    by_name-Raised binding (some name) false =
        Raised-stage (pick (λ p. p.name == name) ps) (returned none)
          (by_binding binding (some name) false ps) tt (by_binding-Raised binding (some name) false)

    choose-Raised :
        (binding : Option PodBinding) (name : Option String) (is_parameter : Bool)
        (qualifiers : List Qualifier)
        → Raised {A = Option Pod} (choose binding name is_parameter qualifiers ps)
    unfolding choose by_qualifiers
    choose-Raised binding name is_parameter [] = by_name-Raised binding name is_parameter
    choose-Raised binding name is_parameter (q ∷ qs) =
        Raised-stage (pick (λ p. all (λ q. q p) (q ∷ qs)) ps) (returned none) (raised no_unique_pod)
          tt ambiguous

  choose_among-Raised :
      (ps : List Pod) (binding : Option PodBinding) (name : Option String) (is_parameter : Bool)
      (qualifiers : List Qualifier)
      → Raised {A = Option Pod} (choose_among binding name is_parameter qualifiers ps)
  unfolding choose_among
  choose_among-Raised [] binding name is_parameter qualifiers = tt
  choose_among-Raised (p ∷ ps) binding name is_parameter qualifiers =
      choose-Raised (p ∷ ps) binding name is_parameter qualifiers

  pub resolve_candidate-Raised :
      (registry : ApplicationContext) (type_ : PodType) (name : Option String)
      (qualifiers : List Qualifier) (is_parameter : Bool)
      → Raised {A = Option Pod} (resolve_candidate registry type_ name qualifiers is_parameter)
  unfolding resolve_candidate
  resolve_candidate-Raised registry type_ name qualifiers is_parameter =
      choose_among-Raised (registry.type_cache type_) (registry.bindings type_) name is_parameter
        qualifiers
