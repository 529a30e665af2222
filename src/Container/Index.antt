-- ===== src/Container/Index.antt =====
-- core/spakky/src/spakky/core/application/application_context.py: the index of Pods by type agrees
-- with the registered Pods.
use spakky_framework.Common.{
  subst, String, ◌≡◌, refl, sym, Bool, true, ◌⊎◌, inl, inr, Option, none, some, List, [], ◌∷◌, ◌++◌,
  ◌==◌, nat_eq, any, all, Bool-cases, Option-cases, Some, string_has_eq, nat_has_eq,
}
use spakky_framework.Effects.{returned, returned_subst}
use spakky_framework.Container.Registry.{
  PodType, Pod, ApplicationContext, find_pod, set_add, index_under, index_all, add_new, add,
}
use spakky_framework.Container.Resolve.{Qualifier, resolve_candidate}
use spakky_framework.Container.Candidates.{Among, choose_among-Among}

-- The type is the Pod's own, or one of its bases.
abbrev pub Provides : Pod → PodType → Type 0
Provides pod t = Some (λ x. x ≡ t) (pod.type_ ∷ pod.base_types)

-- Every Pod that is indexed under a type provides it, and is registered under its name.
abbrev pub Indexed : ApplicationContext → Type 0
Indexed context =
    (t : PodType) (p : Pod)
    → Among p (context.type_cache t)
    → Provides p t × (find_pod p.name context.pods ≡ some p)

find_pod-old :
    (name : String) (p : Pod) (ps qs : List Pod)
    → find_pod name ps ≡ some p
    → find_pod name (ps ++ qs) ≡ some p
unfolding find_pod
find_pod-old name p [] qs h = absurd (cc h)
find_pod-old name p (x ∷ ps) qs h = elim (Bool-cases (name == x.name)) [
  | inl same ↦ rw same (rw same at h)
  | inr other ↦ rw other (find_pod-old name p ps qs (rw other at h))
]

find_pod-new :
    (p : Pod) (ps : List Pod) → find_pod p.name ps ≡ none → find_pod p.name (ps ++ p ∷ []) ≡ some p
unfolding find_pod
find_pod-new p [] h = rw ((string_has_eq.same_iff p.name p.name).1 refl) refl
find_pod-new p (x ∷ ps) h = elim (Bool-cases (p.name == x.name)) [
  | inl same ↦ absurd (cc (rw same at h))
  | inr other ↦ rw other (find_pod-new p ps (rw other at h))
]

Among-set_add : (pod p : Pod) (ps : List Pod) → Among p (set_add pod ps) → (pod ≡ p) ⊎ Among p ps
unfolding set_add
Among-set_add pod p ps h = elim (Bool-cases (any (λ q. pod.name == q.name) ps)) [
  | inl there ↦ inr (rw there at h)
  | inr absent ↦ rw absent at h
]

Among-index_under :
    (pod p : Pod) (t x : PodType) (cache : PodType → List Pod)
    → Among p (index_under pod t cache x)
    → ((pod ≡ p) × (t ≡ x)) ⊎ Among p (cache x)
unfolding index_under
Among-index_under pod p t x cache h = elim (Bool-cases (x == t)) [
  | inr other ↦ inr (rw other at h)
  | inl same ↦ elim (Among-set_add pod p (cache x) (rw same at h)) [
    | inl new ↦ inl (new, sym ((nat_has_eq.same_iff x t).0 same))
    | inr old ↦ inr old
  ]
]

Among-index_all :
    (pod p : Pod) (ts : List PodType) (x : PodType) (cache : PodType → List Pod)
    → Among p (index_all pod ts cache x)
    → ((pod ≡ p) × Some (λ t. t ≡ x) ts) ⊎ Among p (cache x)
unfolding index_all
Among-index_all pod p [] x cache h = inr h
Among-index_all pod p (t ∷ ts) x cache h =
    elim (Among-index_all pod p ts x (index_under pod t cache) h) [
      | inl (new, later) ↦ inl (new, inr later)
      | inr before ↦ elim (Among-index_under pod p t x cache before) [
        | inl (new, here) ↦ inl (new, inl here)
        | inr old ↦ inr old
      ]
    ]

add_new-Indexed :
    (pod : Pod) (context : ApplicationContext)
    → find_pod pod.name context.pods ≡ none
    → Indexed context
    → Indexed (add_new pod context)
unfolding add_new
add_new-Indexed pod context fresh indexed t p h =
    elim (Among-index_all pod p (pod.type_ ∷ pod.base_types) t context.type_cache h) [
      | inl (new, provides) ↦
          subst (λ q. Provides q t × (find_pod q.name (context.pods ++ pod ∷ []) ≡ some q)) new
            (provides, find_pod-new pod context.pods fresh)
      | inr old ↦
          let (provides, there) = indexed t p old in
          (provides, find_pod-old p.name p context.pods (pod ∷ []) there)
    ]

-- Registration keeps the index: if every Pod that is indexed under a type provides the type and is
-- the one registered under its name, this still holds after a registration that returned.
pub add-Indexed :
    (pod : Pod) (context context' : ApplicationContext)
    → Indexed context
    → add pod context ≡ returned context'
    → Indexed context'
unfolding add
add-Indexed pod context context' indexed h = elim (Option-cases (find_pod pod.name context.pods)) [
  | inl fresh ↦
      returned_subst Indexed (rw (fresh, add) at h) (add_new-Indexed pod context fresh indexed)
  | inr (old, there) ↦ elim (Bool-cases (nat_eq old.id pod.id)) [
    | inl again ↦ returned_subst Indexed (rw again at (rw (there, add) at h)) indexed
    | inr clash ↦ absurd (cc (rw clash at (rw (there, add) at h)))
  ]
]

-- A Pod that is chosen for a type provides the type, is the one registered under its name, and is
-- accepted by every qualifier of the request.
pub resolve_candidate-Provides :
    (context : ApplicationContext) (type_ : PodType) (name : Option String)
    (qualifiers : List Qualifier) (is_parameter : Bool) (pod : Pod)
    → Indexed context
    → resolve_candidate context type_ name qualifiers is_parameter ≡ returned (some pod)
    → Provides pod type_
      × (find_pod pod.name context.pods ≡ some pod)
      × (all (λ q. q pod) qualifiers ≡ true)
unfolding resolve_candidate
resolve_candidate-Provides context type_ name qualifiers is_parameter pod indexed h =
    let (among, accepted) =
      choose_among-Among (context.type_cache type_) pod (context.bindings type_) name is_parameter
        qualifiers h in
    let (provides, registered) = indexed type_ pod among in (provides, registered, accepted)
