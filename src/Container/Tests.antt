-- ===== src/Container/Tests.antt =====
-- A context with two Pods behind one interface, and the theorems about the container applied to it.
use mathlib.Core.List.{Permᴰ}
use spakky_framework.Common.{
  dict_get, dict_set, ℕ, suc, arith, nat_eq, if◌then◌else◌, contains, String, ◌≡◌, ◌≢◌, refl, true,
  false, none, some, List, [], ◌∷◌, all,
}
use spakky_framework.Effects.{
  Result, returned, raised, no_unique_pod, recursion_error, circular_dependency_graph_detected,
  pod_name_already_exists,
}
use spakky_framework.Container.Registry.{
  Pod, PodBinding, PodType, ApplicationContext, find_pod, add, bind,
}
use spakky_framework.Container.Resolve.{Qualifier, resolve_candidate}
use spakky_framework.Container.Order.{resolve_candidate-Perm}
use spakky_framework.Container.Index.{Indexed, Provides, add-Indexed, resolve_candidate-Provides}
use spakky_framework.Container.Caches.{Instances, set_singleton_cache}
use spakky_framework.Container.Singletons.{get_or_none-once}
use spakky_framework.Container.Cycles.{get_or_none-ends}
use spakky_framework.Container.Instantiate.{
  singleton, DependencyInfo, Definitions, get_or_none, instantiate_pod, build, resolve_dependencies,
  resolve_dependency, get_internal, get_candidate, get_pod_instance, get_singleton,
  check_dependency, instantiate, final_dependencies, post_process_pod,
}

-- The interface is 0; the two implementations are 1 and 2.
abbrev redis : Pod
redis = record { id = 10; name = "redis"; type_ = 1; base_types = 0 ∷ []; is_primary = false }

abbrev memory : Pod
memory = record { id = 20; name = "memory"; type_ = 2; base_types = 0 ∷ []; is_primary = false }

abbrev fresh : ApplicationContext
fresh = record { pods = []; type_cache = λ _. []; bindings = λ _. none }

abbrev context_or : Result ApplicationContext → ApplicationContext
context_or (returned context) = context
context_or (raised _) = fresh

abbrev one_pod : ApplicationContext
one_pod = context_or (add redis fresh)

abbrev two_pods : ApplicationContext
two_pods = context_or (add memory one_pod)

abbrev to_memory : PodBinding
to_memory = record {
  interface = 0;
  implementation_type = none;
  implementation_name = some "memory";
}

program : Unit {0}
unfolding add bind resolve_candidate
program = tt

ambiguous : resolve_candidate two_pods 0 none [] false ≡ raised no_unique_pod
unfolding program
ambiguous = refl

by_parameter : resolve_candidate two_pods 0 (some "redis") [] true ≡ returned (some redis)
unfolding program
by_parameter = refl

bound_name :
    resolve_candidate (context_or (bind to_memory two_pods)) 0 (some "redis") [] true
    ≡ returned (some memory)
unfolding program
bound_name = refl

clash : add (record redis { id = 11 }) two_pods ≡ raised pod_name_already_exists
unfolding program
clash = refl

fresh-Indexed : Indexed fresh
fresh-Indexed t p h = absurd h

one_pod-Indexed : Indexed one_pod
unfolding program
one_pod-Indexed = add-Indexed redis fresh one_pod fresh-Indexed refl

add-Indexed_example : Indexed two_pods
unfolding program
add-Indexed_example = add-Indexed memory one_pod two_pods one_pod-Indexed refl

two_pods-Indexed : Indexed two_pods
unfolding program
two_pods-Indexed = add-Indexed memory one_pod two_pods one_pod-Indexed refl

resolve_candidate-Provides_example :
    Provides redis 0
    × (find_pod "redis" two_pods.pods ≡ some redis)
    × (all (λ (q : Qualifier). q redis) [] ≡ true)
resolve_candidate-Provides_example =
    resolve_candidate-Provides two_pods 0 (some "redis") [] true redis two_pods-Indexed by_parameter

abbrev turned : PodType → List Pod
turned t = redis ∷ memory ∷ []

resolve_candidate-Perm_example :
    resolve_candidate two_pods 0 (some "redis") [] true
    ≡ resolve_candidate (record two_pods { type_cache = turned }) 0 (some "redis") [] true
unfolding program
resolve_candidate-Perm_example =
    resolve_candidate-Perm two_pods turned 0 (some "redis") [] true
      (Permᴰ.swap {a = memory} {b = redis} {a' = redis} {b' = memory} {l = []} refl refl)

abbrev needed : PodType → String → DependencyInfo
needed t name = record {
  name = name;
  type_ = t;
  has_default = false;
  is_optional = false;
  qualifiers = [];
  collection_kind = none;
}

-- The memory Pod needs the redis Pod, which has what `needs` lists; an instance is its number.
abbrev definitions : List DependencyInfo → Definitions ℕ ℕ
definitions needs = record {
  scope = λ pod. singleton;
  dependencies = λ pod. if nat_eq pod.id 20 then needed 1 "redis" ∷ [] else needs;
  target = λ pod final w. (returned w, suc w);
}

abbrev empty : Instances ℕ ℕ
empty = record { singleton_cache = []; context_cache = []; outside = 5 }

abbrev both : Instances ℕ ℕ
both = record {
  singleton_cache = ("redis", 5) ∷ ("memory", 6) ∷ [];
  context_cache = [];
  outside = 7;
}

wiring : Unit {0}
unfolding program get_or_none instantiate_pod build resolve_dependencies resolve_dependency
    get_internal get_candidate get_pod_instance get_singleton check_dependency instantiate
    final_dependencies post_process_pod dict_get dict_set set_singleton_cache contains find_pod
wiring = tt

memory_made :
    get_or_none two_pods (definitions []) (λ ps. ps) [] 3 2 none empty ≡ (returned (some 6), both)
unfolding wiring
memory_made = refl

-- Each Pod needs the other.
circle :
    get_or_none two_pods (definitions (needed 2 "memory" ∷ [])) (λ ps. ps) [] 3 1 none empty
    ≡ (raised circular_dependency_graph_detected, empty)
unfolding wiring
circle = refl

get_or_none-once_example :
    get_or_none two_pods (definitions []) (λ ps. ps) [] 3 2 none both ≡ (returned (some 6), both)
unfolding wiring
get_or_none-once_example =
    get_or_none-once two_pods (definitions []) (λ ps. ps) [] tt memory 3 3 3 2 1 none none 6 empty
      both refl refl memory_made

get_or_none-ends_example :
    (get_or_none two_pods (definitions (needed 2 "memory" ∷ [])) (λ ps. ps) [] 3 1 none empty).0
    ≢ raised recursion_error
unfolding program
get_or_none-ends_example =
    get_or_none-ends two_pods (definitions (needed 2 "memory" ∷ [])) (λ ps. ps) two_pods-Indexed
      (λ ps p h. h) (λ pod final w h. cc h) [] 3 1 none empty tt (omega arith)
