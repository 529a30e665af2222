-- ===== src/Container/Order.antt =====
-- core/spakky/src/spakky/core/application/application_context.py: the choice among candidates does
-- not depend on the order in which the set of candidates is listed.
use mathlib.Core.List.{Permᴰ}
use spakky_framework.Common.{
  keep-Perm, String, ◌≡◌, refl, ap, ◌∙◌, Bool, true, false, inl, inr, Option, none, some, List, [],
  ◌∷◌, ◌==◌, all, is_empty, Option-cases, string_has_eq, option_has_eq, nat_has_eq,
}
use spakky_framework.Effects.{returned, raised, no_unique_pod}
use spakky_framework.Container.Registry.{PodType, Pod, PodBinding, ApplicationContext}
use spakky_framework.Container.Resolve.{
  Qualifier, missing, several, unique, picked_from, pick, by_qualifiers, picked_target,
  resolve_binding_candidate, by_parameter_name, by_primary, by_single, by_binding, by_name, choose,
  choose_among, resolve_candidate,
}

is_empty-Perm : {A : Type 0} {xs ys : List A} → Permᴰ xs ys → is_empty xs ≡ is_empty ys
is_empty-Perm Permᴰ.nil = refl
is_empty-Perm (Permᴰ.cons e d) = refl
is_empty-Perm (Permᴰ.swap e f) = refl
is_empty-Perm (Permᴰ.trans d e) = is_empty-Perm d ∙ is_empty-Perm e

picked_from-cons :
    {p q : Pod} (ps qs : List Pod)
    → p ≡ q
    → is_empty ps ≡ is_empty qs
    → picked_from (p ∷ ps) ≡ picked_from (q ∷ qs)
unfolding picked_from
picked_from-cons [] [] e h = ap unique e
picked_from-cons [] (q ∷ qs) e h = absurd (cc h)
picked_from-cons (p ∷ ps) [] e h = absurd (cc h)
picked_from-cons (p ∷ ps) (q ∷ qs) e h = refl

picked_from-Perm : {ps qs : List Pod} → Permᴰ ps qs → picked_from ps ≡ picked_from qs
unfolding picked_from
picked_from-Perm Permᴰ.nil = refl
picked_from-Perm (Permᴰ.cons {l₁ = ps} {l₂ = qs} e d) = picked_from-cons ps qs e (is_empty-Perm d)
picked_from-Perm (Permᴰ.swap e f) = refl
picked_from-Perm (Permᴰ.trans d e) = picked_from-Perm d ∙ picked_from-Perm e

module _ {ps qs : List Pod} (d : Permᴰ ps qs) where
  pick-Perm : (test : Pod → Bool) → pick test ps ≡ pick test qs
  unfolding pick
  pick-Perm test = picked_from-Perm (keep-Perm test d)

  by_qualifiers-Perm :
      (qualifiers : List Qualifier) → by_qualifiers qualifiers ps ≡ by_qualifiers qualifiers qs
  unfolding by_qualifiers
  by_qualifiers-Perm qualifiers = λ i. elim (pick-Perm (λ pod. all (λ q. q pod) qualifiers) i) [
    | unique pod ↦ returned (some pod)
    | missing ↦ returned none
    | several ↦ raised no_unique_pod
  ]

  resolve_binding_candidate-Perm :
      (binding : Option PodBinding)
      → resolve_binding_candidate binding ps ≡ resolve_binding_candidate binding qs
  unfolding resolve_binding_candidate
  resolve_binding_candidate-Perm none = refl
  resolve_binding_candidate-Perm (some binding) = elim (Option-cases binding.implementation_name) [
    | inl unnamed ↦ rw unnamed (ap picked_target (pick-Perm _))
    | inr (name, named) ↦ rw named (ap picked_target (pick-Perm _))
  ]

  by_parameter_name-Perm :
      (name : Option String) (is_parameter : Bool)
      → by_parameter_name name is_parameter ps ≡ by_parameter_name name is_parameter qs
  unfolding by_parameter_name
  by_parameter_name-Perm none is_parameter = refl
  by_parameter_name-Perm (some name) false = refl
  by_parameter_name-Perm (some name) true = λ i. elim (pick-Perm (λ pod. pod.name == name) i) [
    | unique pod ↦ returned (some pod)
    | missing ↦ raised no_unique_pod
    | several ↦ raised no_unique_pod
  ]

  by_primary-Perm :
      (name : Option String) (is_parameter : Bool)
      → by_primary name is_parameter ps ≡ by_primary name is_parameter qs
  unfolding by_primary
  by_primary-Perm name is_parameter = λ i. elim (pick-Perm (λ pod. pod.is_primary) i) [
    | unique pod ↦ returned (some pod)
    | several ↦ raised no_unique_pod
    | missing ↦ by_parameter_name-Perm name is_parameter i
  ]

  by_single-Perm :
      (name : Option String) (is_parameter : Bool)
      → by_single name is_parameter ps ≡ by_single name is_parameter qs
  unfolding by_single
  by_single-Perm name is_parameter = λ i. elim (picked_from-Perm d i) [
    | unique pod ↦ returned (some pod)
    | _ ↦ by_primary-Perm name is_parameter i
  ]

  by_binding-Perm :
      (binding : Option PodBinding) (name : Option String) (is_parameter : Bool)
      → by_binding binding name is_parameter ps ≡ by_binding binding name is_parameter qs
  unfolding by_binding
  by_binding-Perm binding name is_parameter = λ i. elim (resolve_binding_candidate-Perm binding i) [
    | returned (some pod) ↦ returned (some pod)
    | returned none ↦ by_single-Perm name is_parameter i
    | raised e ↦ raised e
  ]

  by_name-Perm :
      (binding : Option PodBinding) (name : Option String) (is_parameter : Bool)
      → by_name binding name is_parameter ps ≡ by_name binding name is_parameter qs
  unfolding by_name
  by_name-Perm binding none is_parameter = by_binding-Perm binding none is_parameter
  by_name-Perm binding (some name) true = by_binding-Perm binding (some name) true
  by_name-Perm binding (some name) false = λ i. elim (pick-Perm (λ pod. pod.name == name) i) [
    | unique pod ↦ returned (some pod)
    | missing ↦ returned none
    | several ↦ by_binding-Perm binding (some name) false i
  ]

  choose-Perm :
      (binding : Option PodBinding) (name : Option String) (is_parameter : Bool)
      (qualifiers : List Qualifier)
      → choose binding name is_parameter qualifiers ps
        ≡ choose binding name is_parameter qualifiers qs
  unfolding choose
  choose-Perm binding name is_parameter [] = by_name-Perm binding name is_parameter
  choose-Perm binding name is_parameter (q ∷ qs') = by_qualifiers-Perm (q ∷ qs')

choose_among-Perm :
    (binding : Option PodBinding) (name : Option String) (is_parameter : Bool)
    (qualifiers : List Qualifier) (ps qs : List Pod)
    → Permᴰ ps qs
    → choose_among binding name is_parameter qualifiers ps
      ≡ choose_among binding name is_parameter qualifiers qs
unfolding choose_among
choose_among-Perm binding name is_parameter qualifiers [] [] d = refl
choose_among-Perm binding name is_parameter qualifiers [] (q ∷ qs) d = absurd (cc (is_empty-Perm d))
choose_among-Perm binding name is_parameter qualifiers (p ∷ ps) [] d = absurd (cc (is_empty-Perm d))
choose_among-Perm binding name is_parameter qualifiers (p ∷ ps) (q ∷ qs) d =
    choose-Perm d binding name is_parameter qualifiers

-- The Pod that is chosen for a request, or the error, depends on the set of candidates of the type
-- and not on the order in which the set is listed.
pub resolve_candidate-Perm :
    (context : ApplicationContext) (cache : PodType → List Pod) (type_ : PodType)
    (name : Option String) (qualifiers : List Qualifier) (is_parameter : Bool)
    → Permᴰ (context.type_cache type_) (cache type_)
    → resolve_candidate context type_ name qualifiers is_parameter
      ≡ resolve_candidate (record context { type_cache = cache }) type_ name qualifiers is_parameter
unfolding resolve_candidate
resolve_candidate-Perm context cache type_ name qualifiers is_parameter d =
    choose_among-Perm (context.bindings type_) name is_parameter qualifiers
      (context.type_cache type_) (cache type_) d
