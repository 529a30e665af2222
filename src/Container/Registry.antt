-- ===== src/Container/Registry.antt =====
-- core/spakky/src/spakky/core/application/application_context.py: `add` and `bind`, with the Pod of
-- core/spakky/src/spakky/core/pod/annotations/pod.py and the PodBinding of pod/binding.py. A class
-- or an id is a number. A Python set is a list; Pods are equal if their names are.
use spakky_framework.Common.{
  ℕ, ◌+◌, String, Bool, Option, none, some, List, [], ◌∷◌, ◌++◌, ◌==◌, nat_eq, if◌then◌else◌, any,
  string_has_eq, nat_has_eq,
}
use spakky_framework.Effects.{
  Result, returned, raised, pod_name_already_exists, invalid_pod_binding,
}

abbrev pub PodType : Type 0
PodType = ℕ

pub record Pod : Type 0 where
  pub id : ℕ
  pub name : String
  pub type_ : PodType
  pub base_types : List PodType
  pub is_primary : Bool

pub record PodBinding : Type 0 where
  pub interface : PodType
  pub implementation_type : Option PodType
  pub implementation_name : Option String

-- The maps of the context: `__pods` by name in the order of registration, `__type_cache` (a type
-- that has no entry has no Pods) and `__bindings`.
pub record ApplicationContext : Type 0 where
  pub pods : List Pod
  pub type_cache : PodType → List Pod
  pub bindings : PodType → Option PodBinding

-- `self.__pods.get(name)`
unfoldable pub find_pod : String → List Pod → Option Pod
find_pod name [] = none
find_pod name (p ∷ ps) = let rest = find_pod name ps in if name == p.name then some p else rest

-- `set.add(pod)`
unfoldable pub set_add : Pod → List Pod → List Pod
unfolding any
set_add pod ps = if any (λ p. pod.name == p.name) ps then ps else pod ∷ ps

-- `self.__type_cache[type_].add(pod)`, with the entry made if it is missing.
unfoldable pub index_under : Pod → PodType → (PodType → List Pod) → PodType → List Pod
unfolding set_add
index_under pod type_ cache t = if t == type_ then set_add pod (cache t) else cache t

unfoldable pub index_all : Pod → List PodType → (PodType → List Pod) → PodType → List Pod
unfolding index_under
index_all pod [] cache = cache
index_all pod (t ∷ ts) cache = index_all pod ts (index_under pod t cache)

-- The rest of `add`, once the name is known to be new.
unfoldable pub add_new : Pod → ApplicationContext → ApplicationContext
unfolding index_all
add_new pod context = record context {
  pods = context.pods ++ pod ∷ [];
  type_cache = index_all pod (pod.type_ ∷ pod.base_types) context.type_cache;
}

-- `obj` is given by the Pod on it.
unfoldable pub add : Pod → ApplicationContext → Result ApplicationContext
unfolding find_pod add_new
add pod context = elim (find_pod pod.name context.pods) [
  | none ↦ returned (add_new pod context)
  | some old ↦ if nat_eq old.id pod.id then returned context else raised pod_name_already_exists
]

abbrev pub count_some : {A : Type 0} → Option A → ℕ
count_some none = 0
count_some (some _) = 1

unfoldable pub binding_target_count : PodBinding → ℕ
binding_target_count binding =
    count_some binding.implementation_type + count_some binding.implementation_name

unfoldable pub bind : PodBinding → ApplicationContext → Result ApplicationContext
unfolding binding_target_count
bind binding context =
    if nat_eq (binding_target_count binding) 1
    then returned (record context {
      bindings = λ t. if t == binding.interface then some binding else context.bindings t;
    })
    else raised invalid_pod_binding
