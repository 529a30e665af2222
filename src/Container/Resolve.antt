-- ===== src/Container/Resolve.antt =====
-- core/spakky/src/spakky/core/application/application_context.py: `__resolve_candidate`.
use spakky_framework.Common.{
  String, Bool, true, false, Option, none, some, List, [], ◌∷◌, ◌==◌, all, keep, string_has_eq,
  option_has_eq, nat_has_eq,
}
use spakky_framework.Effects.{Result, returned, raised, no_unique_pod, no_such_pod_binding_target}
use spakky_framework.Container.Registry.{PodType, Pod, PodBinding, ApplicationContext}

-- `qualifier.selector`
abbrev pub Qualifier : Type 0
Qualifier = Pod → Bool

-- How many elements a set of Pods has, and the element if it has one.
pub data Picked : Type 0 where
  missing several : Picked
  unique : Pod → Picked

unfoldable pub picked_from : List Pod → Picked
picked_from [] = missing
picked_from (p ∷ []) = unique p
picked_from (p ∷ q ∷ ps) = several

-- `{pod for pod in pods if test(pod)}`
unfoldable pub pick : (Pod → Bool) → List Pod → Picked
unfolding picked_from keep
pick test pods = picked_from (keep test pods)

unfoldable pub by_qualifiers : List Qualifier → List Pod → Result (Option Pod)
unfolding pick all
by_qualifiers qualifiers pods = elim (pick (λ pod. all (λ q. q pod) qualifiers) pods) [
  | unique pod ↦ returned (some pod)
  | missing ↦ returned none
  | several ↦ raised no_unique_pod
]

unfoldable pub picked_target : Picked → Result (Option Pod)
picked_target (unique pod) = returned (some pod)
picked_target _ = raised no_such_pod_binding_target

unfoldable pub resolve_binding_candidate : Option PodBinding → List Pod → Result (Option Pod)
unfolding picked_target pick
resolve_binding_candidate none pods = returned none
resolve_binding_candidate (some binding) pods = elim binding.implementation_name [
  | some name ↦ picked_target (pick (λ pod. pod.name == name) pods)
  | none ↦ picked_target (pick (λ pod. some pod.type_ == binding.implementation_type) pods)
]

-- The last resort: the name of the parameter that asks.
unfoldable pub by_parameter_name : Option String → Bool → List Pod → Result (Option Pod)
unfolding pick
by_parameter_name (some name) true pods = elim (pick (λ pod. pod.name == name) pods) [
  | unique pod ↦ returned (some pod)
  | missing ↦ raised no_unique_pod
  | several ↦ raised no_unique_pod
]
by_parameter_name _ _ pods = raised no_unique_pod

unfoldable pub by_primary : Option String → Bool → List Pod → Result (Option Pod)
unfolding by_parameter_name pick
by_primary name is_parameter pods = elim (pick (λ pod. pod.is_primary) pods) [
  | unique pod ↦ returned (some pod)
  | several ↦ raised no_unique_pod
  | missing ↦ by_parameter_name name is_parameter pods
]

unfoldable pub by_single : Option String → Bool → List Pod → Result (Option Pod)
unfolding by_primary picked_from
by_single name is_parameter pods = elim (picked_from pods) [
  | unique pod ↦ returned (some pod)
  | _ ↦ by_primary name is_parameter pods
]

unfoldable pub by_binding :
    Option PodBinding → Option String → Bool → List Pod → Result (Option Pod)
unfolding resolve_binding_candidate by_single
by_binding binding name is_parameter pods = elim (resolve_binding_candidate binding pods) [
  | returned (some pod) ↦ returned (some pod)
  | returned none ↦ by_single name is_parameter pods
  | raised e ↦ raised e
]

unfoldable pub by_name : Option PodBinding → Option String → Bool → List Pod → Result (Option Pod)
unfolding by_binding pick
by_name binding (some name) false pods = elim (pick (λ pod. pod.name == name) pods) [
  | unique pod ↦ returned (some pod)
  | missing ↦ returned none
  | several ↦ by_binding binding (some name) false pods
]
by_name binding name is_parameter pods = by_binding binding name is_parameter pods

-- `if qualifiers:`
unfoldable pub choose :
    Option PodBinding → Option String → Bool → List Qualifier → List Pod → Result (Option Pod)
unfolding by_name by_qualifiers
choose binding name is_parameter [] pods = by_name binding name is_parameter pods
choose binding name is_parameter (q ∷ qs) pods = by_qualifiers (q ∷ qs) pods

unfoldable pub choose_among :
    Option PodBinding → Option String → Bool → List Qualifier → List Pod → Result (Option Pod)
unfolding choose
choose_among binding name is_parameter qualifiers [] = returned none
choose_among binding name is_parameter qualifiers (p ∷ ps) =
    choose binding name is_parameter qualifiers (p ∷ ps)

unfoldable pub resolve_candidate :
    ApplicationContext → PodType → Option String → List Qualifier → Bool → Result (Option Pod)
unfolding choose_among
resolve_candidate context type_ name qualifiers name_is_dependency_parameter =
    choose_among (context.bindings type_) name name_is_dependency_parameter qualifiers
      (context.type_cache type_)
