-- ===== src/Container/Instantiate.antt =====
-- core/spakky/src/spakky/core/application/application_context.py: `__get_internal`,
-- `__get_pod_instance`, `__instantiate_pod` and what they call, with `instantiate` of
-- core/spakky/src/spakky/core/pod/annotations/pod.py.
use spakky_framework.Common.{
  dict_get, ℕ, zero, suc, String, Bool, true, false, Option, none, some, List, [], ◌∷◌, ◌++◌, ◌&&◌,
  not, all, keep, contains, map, if◌then◌else◌, nat_has_eq,
}
use mathlib.Core.Option
use spakky_framework.Effects.{
  Result, returned, raised, Io, and_then, return_, raise, recursion_error, no_such_pod,
  circular_dependency_graph_detected, unexpected_dependency_type_injected,
}
use spakky_framework.Container.Registry.{PodType, Pod, ApplicationContext}
use spakky_framework.Container.Resolve.{Qualifier, resolve_candidate}
use spakky_framework.Container.Caches.{Instances, set_singleton_cache, set_context_cache}

pub data Scope : Type 0 where
  singleton prototype context : Scope

pub data DependencyCollectionKind : Type 0 where
  list tuple dict : DependencyCollectionKind

pub record DependencyInfo : Type 0 where
  pub name : String
  pub type_ : PodType
  pub has_default : Bool
  pub is_optional : Bool
  pub qualifiers : List Qualifier
  pub collection_kind : Option DependencyCollectionKind

-- What a parameter is given: an instance or a collection of instances.
pub data Injected (O : Type 0) : Type 0 where
  instance_ : O → Injected O
  list_of tuple_of : List O → Injected O
  dict_of : List (String × O) → Injected O

-- The other fields of a Pod: `target` is the user's class or function.
pub record Definitions (O W : Type 0) : Type 0 where
  pub scope : Pod → Scope
  pub dependencies : Pod → List DependencyInfo
  pub target : Pod → List (String × Option (Injected O)) → Io W O

-- A dict of dependencies, each with the information on its parameter.
abbrev pub Dependencies : Type 0 → Type 0
Dependencies O = List (DependencyInfo × Option (Injected O))

-- The loop of `instantiate`: a missing dependency that has a default is left out.
unfoldable pub final_dependencies :
    {O : Type 0} → Dependencies O → Result (List (String × Option (Injected O)))
final_dependencies [] = returned []
final_dependencies ((info, some value) ∷ rest) = elim (final_dependencies rest) [
  | returned ds ↦ returned ((info.name, some value) ∷ ds)
  | raised e ↦ raised e
]
final_dependencies ((info, none) ∷ rest) =
    let others = final_dependencies rest in
    if info.has_default
    then others
    else if info.is_optional
    then elim others [ returned ds ↦ returned ((info.name, none) ∷ ds) | raised e ↦ raised e ]
    else raised unexpected_dependency_type_injected

module _ {O W : Type 0} (definitions : Definitions O W) where
  -- Pod.instantiate
  unfoldable pub instantiate : Pod → Dependencies O → Io (Instances O W) O
  unfolding final_dependencies
  instantiate pod dependencies s = elim (final_dependencies dependencies) [
    | raised e ↦ (raised e, s)
    | returned final ↦
        let (outcome, w) = definitions.target pod final s.outside in
        (outcome, record s { outside = w })
  ]

module _ {O W : Type 0} where
  unfoldable pub post_process_pod : List (O → Io (Instances O W) O) → O → Io (Instances O W) O
  post_process_pod [] pod = return_ pod
  post_process_pod (p ∷ ps) pod = and_then (p pod) (post_process_pod ps)

module _ {O W : Type 0} (registry : ApplicationContext) (definitions : Definitions O W)
    (name_sorted : List Pod → List Pod) where
  unfoldable pub resolve_collection_candidates : PodType → List Qualifier → List Pod
  unfolding all keep
  resolve_collection_candidates type_ [] = name_sorted (registry.type_cache type_)
  resolve_collection_candidates type_ (q ∷ qs) =
      name_sorted (keep (λ pod. all (λ q. q pod) (q ∷ qs)) (registry.type_cache type_))

  -- `instantiate_pod` makes a Pod below the given hierarchy of types.
  module _ (instantiate_pod : Pod → List PodType → Io (Instances O W) O) where
    -- `if pod.scope is SINGLETON:`. One thread runs, so the look under the lock is the first again.
    unfoldable pub get_singleton : Pod → List PodType → Io (Instances O W) O
    unfolding dict_get set_singleton_cache
    get_singleton pod hierarchy s = elim (dict_get pod.name s.singleton_cache) [
      | some cached ↦ (returned cached, s)
      | none ↦
          and_then (instantiate_pod pod hierarchy)
            (λ o s1. (returned o, set_singleton_cache pod.name o s1)) s
    ]

    unfoldable pub get_in_context : Pod → List PodType → Io (Instances O W) O
    unfolding dict_get set_context_cache
    get_in_context pod hierarchy s = elim (dict_get pod.name s.context_cache) [
      | some cached ↦ (returned cached, s)
      | none ↦
          and_then (instantiate_pod pod hierarchy)
            (λ o s1. (returned o, set_context_cache pod.name o s1)) s
    ]

    unfoldable pub get_pod_instance : Pod → List PodType → Io (Instances O W) O
    unfolding get_singleton get_in_context
    get_pod_instance pod hierarchy = elim (definitions.scope pod) [
      | singleton ↦ get_singleton pod hierarchy
      | context ↦ get_in_context pod hierarchy
      | prototype ↦ instantiate_pod pod hierarchy
    ]

    unfoldable pub get_candidate :
        Result (Option Pod) → List PodType → Io (Instances O W) (Option O)
    unfolding get_pod_instance
    get_candidate (raised e) hierarchy = raise e
    get_candidate (returned none) hierarchy = return_ none
    get_candidate (returned (some pod)) hierarchy =
        and_then (get_pod_instance pod hierarchy) (λ o. return_ (some o))

    unfoldable pub get_internal :
        PodType
        → Option String
        → List PodType
        → List Qualifier
        → Bool
        → Io (Instances O W) (Option O)
    unfolding get_candidate
    get_internal type_ name hierarchy qualifiers name_is_dependency_parameter =
        get_candidate
          (resolve_candidate registry type_ name qualifiers name_is_dependency_parameter) hierarchy

    unfoldable pub get_instances : List Pod → List PodType → Io (Instances O W) (List (String × O))
    unfolding get_pod_instance
    get_instances [] hierarchy = return_ []
    get_instances (pod ∷ pods) hierarchy =
        and_then (get_pod_instance pod hierarchy)
          (λ o. and_then (get_instances pods hierarchy) (λ os. return_ ((pod.name, o) ∷ os)))

    unfoldable pub collection_of : DependencyCollectionKind → List (String × O) → Injected O
    collection_of list os = list_of (map (λ o. o.1) os)
    collection_of tuple os = tuple_of (map (λ o. o.1) os)
    collection_of dict os = dict_of os

    -- `if not pods: return None`
    unfoldable pub collect_instances :
        DependencyCollectionKind
        → List Pod
        → List PodType
        → Io (Instances O W) (Option (Injected O))
    unfolding get_instances collection_of
    collect_instances kind [] hierarchy = return_ none
    collect_instances kind (pod ∷ pods) hierarchy =
        and_then (get_instances (pod ∷ pods) hierarchy)
          (λ os. return_ (some (collection_of kind os)))

    unfoldable pub resolve_collection_dependency :
        DependencyCollectionKind
        → DependencyInfo
        → List PodType
        → Io (Instances O W) (Option (Injected O))
    unfolding collect_instances resolve_collection_candidates
    resolve_collection_dependency kind dependency hierarchy =
        collect_instances kind
          (resolve_collection_candidates dependency.type_ dependency.qualifiers) hierarchy

    unfoldable pub resolve_dependency :
        DependencyInfo → List PodType → Io (Instances O W) (Option (Injected O))
    unfolding get_internal resolve_collection_dependency
    resolve_dependency dependency hierarchy = elim dependency.collection_kind [
      | none ↦
          and_then
            (get_internal dependency.type_ (some dependency.name) hierarchy dependency.qualifiers
              true)
            (λ found. return_ (Option.map instance_ found))
      | some kind ↦ resolve_collection_dependency kind dependency hierarchy
    ]

    -- `if resolved_dependency is None and not has_default and not is_optional: raise`
    unfoldable pub check_dependency :
        DependencyInfo → Option (Injected O) → Io (Instances O W) (Option (Injected O))
    check_dependency dependency (some value) = return_ (some value)
    check_dependency dependency none =
        if not dependency.has_default && not dependency.is_optional
        then raise unexpected_dependency_type_injected
        else return_ none

    unfoldable pub resolve_dependencies :
        List DependencyInfo → List PodType → Io (Instances O W) (Dependencies O)
    unfolding resolve_dependency check_dependency
    resolve_dependencies [] hierarchy = return_ []
    resolve_dependencies (dependency ∷ rest) hierarchy =
        and_then (and_then (resolve_dependency dependency hierarchy) (check_dependency dependency))
          (λ value.
            and_then (resolve_dependencies rest hierarchy)
              (λ others. return_ ((dependency, value) ∷ others)))

    -- The rest of `__instantiate_pod`, once the hierarchy holds the type.
    unfoldable pub build :
        List (O → Io (Instances O W) O) → Pod → List PodType → Io (Instances O W) O
    unfolding resolve_dependencies instantiate post_process_pod
    build post_processors pod hierarchy =
        and_then (resolve_dependencies (definitions.dependencies pod) hierarchy) (λ dependencies.
          and_then (instantiate definitions pod dependencies) (post_process_pod post_processors))

  -- `fuel` is the depth of calls left.
  unfoldable pub instantiate_pod :
      List (O → Io (Instances O W) O) → ℕ → Pod → List PodType → Io (Instances O W) O
  unfolding build contains
  instantiate_pod post_processors zero pod hierarchy = raise recursion_error
  instantiate_pod post_processors (suc fuel) pod hierarchy =
      let built =
        build (instantiate_pod post_processors fuel) post_processors pod
          (hierarchy ++ pod.type_ ∷ []) in
      if contains pod.type_ hierarchy then raise circular_dependency_graph_detected else built

  -- `get_or_none`, at the depth of calls left.
  unfoldable pub get_or_none :
      List (O → Io (Instances O W) O) → ℕ → PodType → Option String → Io (Instances O W) (Option O)
  unfolding instantiate_pod get_internal
  get_or_none post_processors fuel type_ name =
      get_internal (instantiate_pod post_processors fuel) type_ name [] [] false

  -- `get`
  unfoldable pub get :
      List (O → Io (Instances O W) O) → ℕ → PodType → Option String → Io (Instances O W) O
  unfolding get_or_none
  get post_processors fuel type_ name =
      and_then (get_or_none post_processors fuel type_ name)
        (λ found. elim found [ some o ↦ return_ o | none ↦ raise no_such_pod ])
