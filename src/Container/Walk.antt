-- ===== src/Container/Walk.antt =====
-- core/spakky/src/spakky/core/application/application_context.py: what every step of an instantiation
-- guarantees, every resolution guarantees.
use mathlib.Core.Option
use spakky_framework.Common.{
  dict_get, String, ◌≡◌, refl, Bool, true, ◌⊎◌, inl, inr, Option, none, some, List, [], ◌∷◌, All,
  Bool-cases, Option-cases, not, ◌&&◌,
}
use spakky_framework.Effects.{
  Result, returned, raised, Io, and_then, return_, no_unique_pod, no_such_pod_binding_target,
  unexpected_dependency_type_injected,
}
use spakky_framework.Effects.Guarantee.{Guarantee, Keeps, Keeps-and_then}
use spakky_framework.Container.Registry.{PodType, Pod, ApplicationContext}
use spakky_framework.Container.Resolve.{Qualifier, resolve_candidate}
use spakky_framework.Container.Caches.{Instances, set_singleton_cache, set_context_cache}
use spakky_framework.Container.Instantiate.{
  Scope, singleton, prototype, context, DependencyCollectionKind, DependencyInfo, Injected,
  instance_, Definitions, Dependencies, get_singleton, get_in_context, get_pod_instance,
  get_candidate, get_internal, get_instances, resolve_collection_candidates, collection_of,
  collect_instances, resolve_collection_dependency, resolve_dependency, check_dependency,
  resolve_dependencies,
}

Scope-cases : (x : Scope) → (x ≡ singleton) ⊎ (x ≡ context) ⊎ (x ≡ prototype)
Scope-cases singleton = inl refl
Scope-cases context = inr (inl refl)
Scope-cases prototype = inr (inr refl)

module _ {O W : Type 0} (g : Guarantee (Instances O W)) (registry : ApplicationContext)
    (definitions : Definitions O W) (name_sorted : List Pod → List Pod) where
  -- What the parts guarantee on which the container relies.
  pub record Parts : Type 0 where
    pub ambiguous : g.Raises no_unique_pod
    pub no_target : g.Raises no_such_pod_binding_target
    pub unexpected : g.Raises unexpected_dependency_type_injected
    pub target-Keeps :
        (pod : Pod) (final : List (String × Option (Injected O))) (s : Instances O W)
        → (let (outcome, w) = definitions.target pod final s.outside in
            Keeps g {A = O} s (outcome, record s { outside = w }))
    pub singleton-Keeps :
        (pod : Pod) (o : O) (s s1 : Instances O W)
        → dict_get pod.name s.singleton_cache ≡ none
        → g.Leads s s1
        → g.Leads s (set_singleton_cache pod.name o s1)
    pub context-Keeps :
        (pod : Pod) (o : O) (s : Instances O W) → g.Leads s (set_context_cache pod.name o s)

  -- The Pod that is chosen is known; or what is raised is as guaranteed.
  abbrev pub Chosen : (Pod → Type 0) → Result (Option Pod) → Type 0
  Chosen Known (returned (some pod)) = Known pod
  Chosen Known (returned none) = Unit
  Chosen Known (raised e) = g.Raises e

  module _ (parts : Parts) (Known : Pod → Type 0)
      (candidates : (type_ : PodType) (name : Option String) (qualifiers : List Qualifier)
          (is_parameter : Bool)
        → Chosen Known (resolve_candidate registry type_ name qualifiers is_parameter))
      (collections : (type_ : PodType) (qualifiers : List Qualifier)
        → All Known
            (resolve_collection_candidates registry definitions name_sorted type_ qualifiers))
      (make : Pod → List PodType → Io (Instances O W) O) (hierarchy : List PodType)
      (make-Keeps : (pod : Pod) (s : Instances O W)
        → Known pod
        → Keeps g {A = O} s (make pod hierarchy s)) where
    -- A look into a cache before `next`.
    cached_or-Keeps :
        (found : Option O) (s : Instances O W) (next : Result O × Instances O W)
        → (found ≡ none → Keeps g {A = O} s next)
        → Keeps g {A = O} s (elim found [ some o ↦ (returned o, s) | none ↦ next ])
    cached_or-Keeps (some o) s next h = g.leads_refl s
    cached_or-Keeps none s next h = h refl

    cached-Keeps :
        (pod : Pod) (s : Instances O W) (r : Result O × Instances O W)
        → dict_get pod.name s.singleton_cache ≡ none
        → Keeps g {A = O} s r
        → Keeps g {A = O} s
            (and_then (λ _. r) (λ o s1. (returned o, set_singleton_cache pod.name o s1)) s)
    cached-Keeps pod s (returned o, s1) absent h = parts.singleton-Keeps pod o s s1 absent h
    cached-Keeps pod s (raised e, s1) absent h = h

    get_singleton-Keeps :
        (pod : Pod) (s : Instances O W)
        → Known pod
        → Keeps g {A = O} s (get_singleton registry definitions name_sorted make pod hierarchy s)
    unfolding get_singleton
    get_singleton-Keeps pod s known =
        cached_or-Keeps (dict_get pod.name s.singleton_cache) s
          (and_then (make pod hierarchy) (λ o s1. (returned o, set_singleton_cache pod.name o s1))
            s)
          (λ absent. cached-Keeps pod s (make pod hierarchy s) absent (make-Keeps pod s known))

    context-cached-Keeps :
        (pod : Pod) (s : Instances O W) (r : Result O × Instances O W)
        → Keeps g {A = O} s r
        → Keeps g {A = O} s
            (and_then (λ _. r) (λ o s1. (returned o, set_context_cache pod.name o s1)) s)
    context-cached-Keeps pod s (returned o, s1) h =
        g.leads_trans s s1 (set_context_cache pod.name o s1) h (parts.context-Keeps pod o s1)
    context-cached-Keeps pod s (raised e, s1) h = h

    get_in_context-Keeps :
        (pod : Pod) (s : Instances O W)
        → Known pod
        → Keeps g {A = O} s (get_in_context registry definitions name_sorted make pod hierarchy s)
    unfolding get_in_context
    get_in_context-Keeps pod s known =
        cached_or-Keeps (dict_get pod.name s.context_cache) s
          (and_then (make pod hierarchy) (λ o s1. (returned o, set_context_cache pod.name o s1)) s)
          (λ _. context-cached-Keeps pod s (make pod hierarchy s) (make-Keeps pod s known))

    get_pod_instance-Keeps :
        (pod : Pod) (s : Instances O W)
        → Known pod
        → Keeps g {A = O} s (get_pod_instance registry definitions name_sorted make pod hierarchy s)
    unfolding get_pod_instance
    get_pod_instance-Keeps pod s known = elim (Scope-cases (definitions.scope pod)) [
      | inl e ↦ rw (e, get_pod_instance) (get_singleton-Keeps pod s known)
      | inr (inl e) ↦ rw (e, get_pod_instance) (get_in_context-Keeps pod s known)
      | inr (inr e) ↦ rw (e, get_pod_instance) (make-Keeps pod s known)
    ]

    get_candidate-Keeps :
        (r : Result (Option Pod)) (s : Instances O W)
        → Chosen Known r
        → Keeps g {A = Option O} s
            (get_candidate registry definitions name_sorted make r hierarchy s)
    unfolding get_candidate
    get_candidate-Keeps (raised e) s raises = (g.leads_refl s, raises)
    get_candidate-Keeps (returned none) s _ = g.leads_refl s
    get_candidate-Keeps (returned (some pod)) s known =
        Keeps-and_then g (get_pod_instance registry definitions name_sorted make pod hierarchy)
          (λ o. return_ (some o)) s (get_pod_instance-Keeps pod s known) (λ o s1. g.leads_refl s1)

    pub get_internal-Keeps :
        (type_ : PodType) (name : Option String) (qualifiers : List Qualifier) (is_parameter : Bool)
        (s : Instances O W)
        → Keeps g {A = Option O} s (
            get_internal registry definitions name_sorted make type_ name hierarchy qualifiers
              is_parameter s)
    unfolding get_internal
    get_internal-Keeps type_ name qualifiers is_parameter s =
        get_candidate-Keeps (resolve_candidate registry type_ name qualifiers is_parameter) s
          (candidates type_ name qualifiers is_parameter)

    get_instances-Keeps :
        (pods : List Pod) (s : Instances O W)
        → All Known pods
        → Keeps g {A = List (String × O)} s
            (get_instances registry definitions name_sorted make pods hierarchy s)
    unfolding get_instances
    get_instances-Keeps [] s _ = g.leads_refl s
    get_instances-Keeps (pod ∷ pods) s (known, others) =
        Keeps-and_then g (get_pod_instance registry definitions name_sorted make pod hierarchy)
          (λ o.
            and_then (get_instances registry definitions name_sorted make pods hierarchy)
              (λ os. return_ ((pod.name, o) ∷ os)))
          s (get_pod_instance-Keeps pod s known)
          (λ o s1.
            Keeps-and_then g (get_instances registry definitions name_sorted make pods hierarchy)
              (λ os. return_ ((pod.name, o) ∷ os)) s1 (get_instances-Keeps pods s1 others)
              (λ os s2. g.leads_refl s2))

    collect_instances-Keeps :
        (kind : DependencyCollectionKind) (pods : List Pod) (s : Instances O W)
        → All Known pods
        → Keeps g {A = Option (Injected O)} s
            (collect_instances registry definitions name_sorted make kind pods hierarchy s)
    unfolding collect_instances
    collect_instances-Keeps kind [] s _ = g.leads_refl s
    collect_instances-Keeps kind (pod ∷ pods) s known =
        Keeps-and_then g
          (get_instances registry definitions name_sorted make (pod ∷ pods) hierarchy)
          (λ os. return_ (some (collection_of registry definitions name_sorted make kind os))) s
          (get_instances-Keeps (pod ∷ pods) s known) (λ os s1. g.leads_refl s1)

    resolve_dependency-Keeps :
        (dependency : DependencyInfo) (s : Instances O W)
        → Keeps g {A = Option (Injected O)} s
            (resolve_dependency registry definitions name_sorted make dependency hierarchy s)
    unfolding resolve_dependency resolve_collection_dependency
    resolve_dependency-Keeps dependency s = elim (Option-cases dependency.collection_kind) [
      | inl e ↦
          rw (e, resolve_dependency)
            (Keeps-and_then g
              (get_internal registry definitions name_sorted make dependency.type_
                (some dependency.name) hierarchy dependency.qualifiers true)
              (λ found. return_ (Option.map instance_ found)) s
              (get_internal-Keeps dependency.type_ (some dependency.name) dependency.qualifiers true
                s)
              (λ found s1. g.leads_refl s1))
      | inr (kind, e) ↦
          rw (e, resolve_dependency)
            (collect_instances-Keeps kind
              (resolve_collection_candidates registry definitions name_sorted dependency.type_
                dependency.qualifiers)
              s (collections dependency.type_ dependency.qualifiers))
    ]

    check_dependency-Keeps :
        (dependency : DependencyInfo) (value : Option (Injected O)) (s : Instances O W)
        → Keeps g {A = Option (Injected O)} s
            (check_dependency registry definitions name_sorted make dependency value s)
    unfolding check_dependency
    check_dependency-Keeps dependency (some value) s = g.leads_refl s
    check_dependency-Keeps dependency none s =
        elim (Bool-cases (not dependency.has_default && not dependency.is_optional)) [
          | inl required ↦ rw (required, check_dependency) (g.leads_refl s, parts.unexpected)
          | inr spare ↦ rw (spare, check_dependency) (g.leads_refl s)
        ]

    pub resolve_dependencies-Keeps :
        (ds : List DependencyInfo) (s : Instances O W)
        → Keeps g {A = Dependencies O} s
            (resolve_dependencies registry definitions name_sorted make ds hierarchy s)
    unfolding resolve_dependencies
    resolve_dependencies-Keeps [] s = g.leads_refl s
    resolve_dependencies-Keeps (d ∷ ds) s =
        Keeps-and_then g
          (and_then (resolve_dependency registry definitions name_sorted make d hierarchy)
            (check_dependency registry definitions name_sorted make d))
          (λ value.
            and_then (resolve_dependencies registry definitions name_sorted make ds hierarchy)
              (λ others. return_ ((d, value) ∷ others)))
          s
          (Keeps-and_then g (resolve_dependency registry definitions name_sorted make d hierarchy)
            (check_dependency registry definitions name_sorted make d) s
            (resolve_dependency-Keeps d s) (check_dependency-Keeps d))
          (λ value s1.
            Keeps-and_then g
              (resolve_dependencies registry definitions name_sorted make ds hierarchy)
              (λ others. return_ ((d, value) ∷ others)) s1 (resolve_dependencies-Keeps ds s1)
              (λ others s2. g.leads_refl s2))
