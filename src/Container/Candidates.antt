-- ===== src/Container/Candidates.antt =====
-- core/spakky/src/spakky/core/application/application_context.py: the Pod that is chosen is one of
-- the candidates of the type.
use spakky_framework.Common.{
  String, ◌≡◌, refl, sym, ap, ◌∙◌, Bool, true, false, ◌⊎◌, inl, inr, Option, none, some, List, [],
  ◌∷◌, ◌==◌, all, keep, Bool-cases, Option-cases, Some, string_has_eq, option_has_eq, nat_has_eq,
}
use spakky_framework.Effects.{Result, returned, raised, Result-cases, no_unique_pod}
use spakky_framework.Container.Registry.{Pod, PodBinding}
use spakky_framework.Container.Resolve.{
  Qualifier, Picked, missing, several, unique, picked_from, pick, by_qualifiers, picked_target,
  resolve_binding_candidate, by_parameter_name, by_primary, by_single, by_binding, by_name, choose,
  choose_among,
}

-- `pod` is an element of the list.
abbrev pub Among : Pod → List Pod → Type 0
Among pod ps = Some (λ p. p ≡ pod) ps

Picked-cases : (r : Picked) → (r ≡ missing) ⊎ (r ≡ several) ⊎ ((pod : Pod) × (r ≡ unique pod))
Picked-cases missing = inl refl
Picked-cases several = inr (inl refl)
Picked-cases (unique pod) = inr (inr (pod, refl))

pub Among-keep :
    (test : Pod → Bool) (pod : Pod) (ps : List Pod)
    → Among pod (keep test ps)
    → Among pod ps × (test pod ≡ true)
unfolding keep
Among-keep test pod [] h = absurd h
Among-keep test pod (p ∷ ps) h = elim (Bool-cases (test p)) [
  | inr dropped ↦
      let (there, passes) = Among-keep test pod ps (rw dropped at h) in (inr there, passes)
  | inl kept ↦
      let split : (p ≡ pod) ⊎ Among pod (keep test ps) = rw kept at h in
      elim split [
        | inl here ↦ (inl here, rw (sym here) kept)
        | inr later ↦ let (there, passes) = Among-keep test pod ps later in (inr there, passes)
      ]
]

unique-Among : (pod : Pod) (ps : List Pod) → picked_from ps ≡ unique pod → Among pod ps
unfolding picked_from
unique-Among pod [] h = absurd (cc h)
unique-Among pod (p ∷ []) h = inl (cc h)
unique-Among pod (p ∷ q ∷ ps) h = absurd (cc h)

pick-Among :
    (test : Pod → Bool) (pod : Pod) (ps : List Pod)
    → pick test ps ≡ unique pod
    → Among pod ps × (test pod ≡ true)
unfolding pick
pick-Among test pod ps h = Among-keep test pod ps (unique-Among pod (keep test ps) h)

-- A stage that picks by a test, and goes on otherwise.
stage :
    (test : Pod → Bool) (ps : List Pod) (on_missing on_several : Result (Option Pod)) (pod : Pod)
    → elim (pick test ps) [
      | unique p ↦ returned (some p)
      | missing ↦ on_missing
      | several ↦ on_several
    ]
      ≡ returned (some pod)
    → (Among pod ps × (test pod ≡ true))
      ⊎ (on_missing ≡ returned (some pod))
      ⊎ (on_several ≡ returned (some pod))
stage test ps on_missing on_several pod h = elim (Picked-cases (pick test ps)) [
  | inl none_fits ↦ inr (inl (rw none_fits at h))
  | inr (inl many) ↦ inr (inr (rw many at h))
  | inr (inr (p, one)) ↦
      let same : p ≡ pod = cc (rw one at h) in inl (pick-Among test pod ps (one ∙ ap unique same))
]

picked_target-Among :
    (test : Pod → Bool) (ps : List Pod) (pod : Pod)
    → picked_target (pick test ps) ≡ returned (some pod)
    → Among pod ps
unfolding picked_target
picked_target-Among test ps pod h = elim (Picked-cases (pick test ps)) [
  | inl none_fits ↦ absurd (cc (rw none_fits at h))
  | inr (inl many) ↦ absurd (cc (rw many at h))
  | inr (inr (p, one)) ↦
      let same : p ≡ pod = cc (rw one at h) in (pick-Among test pod ps (one ∙ ap unique same)).0
]

module _ (ps : List Pod) (pod : Pod) where
  by_qualifiers-Among :
      (qualifiers : List Qualifier)
      → by_qualifiers qualifiers ps ≡ returned (some pod)
      → Among pod ps × (all (λ q. q pod) qualifiers ≡ true)
  unfolding by_qualifiers
  by_qualifiers-Among qualifiers h =
      elim (stage (λ p. all (λ q. q p) qualifiers) ps (returned none) (raised no_unique_pod) pod
        h) [ inl found ↦ found | inr (inl h') ↦ absurd (cc h') | inr (inr h') ↦ absurd (cc h') ]

  resolve_binding_candidate-Among :
      (binding : Option PodBinding)
      → resolve_binding_candidate binding ps ≡ returned (some pod)
      → Among pod ps
  unfolding resolve_binding_candidate
  resolve_binding_candidate-Among none h = absurd (cc h)
  resolve_binding_candidate-Among (some binding) h =
      elim (Option-cases binding.implementation_name) [
        | inl unnamed ↦ picked_target-Among _ ps pod (rw unnamed at h)
        | inr (name, named) ↦ picked_target-Among _ ps pod (rw named at h)
      ]

  by_parameter_name-Among :
      (name : Option String) (is_parameter : Bool)
      → by_parameter_name name is_parameter ps ≡ returned (some pod)
      → Among pod ps
  unfolding by_parameter_name
  by_parameter_name-Among none is_parameter h = absurd (cc h)
  by_parameter_name-Among (some name) false h = absurd (cc h)
  by_parameter_name-Among (some name) true h =
      elim (stage (λ p. p.name == name) ps (raised no_unique_pod) (raised no_unique_pod) pod h) [
        | inl found ↦ found.0
        | inr (inl h') ↦ absurd (cc h')
        | inr (inr h') ↦ absurd (cc h')
      ]

  by_primary-Among :
      (name : Option String) (is_parameter : Bool)
      → by_primary name is_parameter ps ≡ returned (some pod)
      → Among pod ps
  unfolding by_primary
  by_primary-Among name is_parameter h =
      elim (stage (λ p. p.is_primary) ps (by_parameter_name name is_parameter ps)
        (raised no_unique_pod) pod h) [
          | inl found ↦ found.0
          | inr (inl h') ↦ by_parameter_name-Among name is_parameter h'
          | inr (inr h') ↦ absurd (cc h')
        ]

  by_single-Among :
      (name : Option String) (is_parameter : Bool)
      → by_single name is_parameter ps ≡ returned (some pod)
      → Among pod ps
  unfolding by_single
  by_single-Among name is_parameter h = elim (Picked-cases (picked_from ps)) [
    | inl empty ↦ by_primary-Among name is_parameter (rw (empty, by_single) at h)
    | inr (inl many) ↦ by_primary-Among name is_parameter (rw (many, by_single) at h)
    | inr (inr (p, one)) ↦
        let same : p ≡ pod = cc (rw (one, by_single) at h) in
        unique-Among pod ps (one ∙ ap unique same)
  ]

  by_binding-Among :
      (binding : Option PodBinding) (name : Option String) (is_parameter : Bool)
      → by_binding binding name is_parameter ps ≡ returned (some pod)
      → Among pod ps
  unfolding by_binding
  by_binding-Among binding name is_parameter h =
      elim (Result-cases (resolve_binding_candidate binding ps)) [
        | inr (e, broke) ↦ absurd (cc (rw (broke, by_binding) at h))
        | inl (none, unbound) ↦ by_single-Among name is_parameter (rw (unbound, by_binding) at h)
        | inl (some p, bound) ↦
            resolve_binding_candidate-Among binding (bound ∙ cc (rw (bound, by_binding) at h))
      ]

  by_name-Among :
      (binding : Option PodBinding) (name : Option String) (is_parameter : Bool)
      → by_name binding name is_parameter ps ≡ returned (some pod)
      → Among pod ps
  unfolding by_name
  by_name-Among binding none is_parameter h = by_binding-Among binding none is_parameter h
  by_name-Among binding (some name) true h = by_binding-Among binding (some name) true h
  by_name-Among binding (some name) false h =
      elim (stage (λ p. p.name == name) ps (returned none) (by_binding binding (some name) false ps)
        pod h) [
          | inl found ↦ found.0
          | inr (inl h') ↦ absurd (cc h')
          | inr (inr h') ↦ by_binding-Among binding (some name) false h'
        ]

  choose-Among :
      (binding : Option PodBinding) (name : Option String) (is_parameter : Bool)
      (qualifiers : List Qualifier)
      → choose binding name is_parameter qualifiers ps ≡ returned (some pod)
      → Among pod ps × (all (λ q. q pod) qualifiers ≡ true)
  unfolding choose all
  choose-Among binding name is_parameter [] h = (by_name-Among binding name is_parameter h, refl)
  choose-Among binding name is_parameter (q ∷ qs) h = by_qualifiers-Among (q ∷ qs) h

pub choose_among-Among :
    (ps : List Pod) (pod : Pod) (binding : Option PodBinding) (name : Option String)
    (is_parameter : Bool) (qualifiers : List Qualifier)
    → choose_among binding name is_parameter qualifiers ps ≡ returned (some pod)
    → Among pod ps × (all (λ q. q pod) qualifiers ≡ true)
unfolding choose_among
choose_among-Among [] pod binding name is_parameter qualifiers h = absurd (cc h)
choose_among-Among (p ∷ ps) pod binding name is_parameter qualifiers h =
    choose-Among (p ∷ ps) pod binding name is_parameter qualifiers h
