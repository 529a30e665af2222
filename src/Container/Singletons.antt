-- ===== src/Container/Singletons.antt =====
-- core/spakky/src/spakky/core/application/application_context.py: a singleton is made once.
use spakky_framework.Common.{
  dict_get, dict_get-dict_set, dict_get-other, ℕ, String, ◌≡◌, refl, sym, ◌∙◌, ap, false, inl, inr,
  Option, none, some, List, [], ◌∷◌, ◌==◌, All, Bool-cases, string_has_eq,
}
use spakky_framework.Effects.{Result, returned, raised, Io, and_then, and_then-returned, return_}
use spakky_framework.Effects.Guarantee.{Guarantee, Keeps, Leads-Keeps}
use spakky_framework.Container.Registry.{PodType, Pod, ApplicationContext}
use spakky_framework.Container.Resolve.{resolve_candidate}
use spakky_framework.Container.Caches.{Instances, set_singleton_cache, set_context_cache}
use spakky_framework.Container.Walk.{Parts, Chosen}
use spakky_framework.Container.Depth.{Processors, get_or_none-Keeps}
use spakky_framework.Container.Instantiate.{
  singleton, Definitions, get_singleton, get_pod_instance, get_candidate, get_internal,
  instantiate_pod, get_or_none,
}

returned-some :
    {O : Type 0} {a o : O} → returned (some a) ≡ returned (some o) → returned a ≡ returned o
returned-some h = ap returned (cc h)

module _ {O W : Type 0} where
  -- A singleton that is cached stays cached.
  abbrev pub singletons_stay : Guarantee (Instances O W)
  singletons_stay = record {
    Leads = λ s s'.
        (name : String) (o : O)
        → dict_get name s.singleton_cache ≡ some o
        → dict_get name s'.singleton_cache ≡ some o;
    Raises = λ e. Unit;
    leads_refl = λ s name o h. h;
    leads_trans = λ s s1 s2 h k name o there. k name o (h name o there);
  }

  outside-Keeps :
      (outcome : Result O) (w : W) (s : Instances O W)
      → Keeps singletons_stay {A = O} s (outcome, record s { outside = w })
  outside-Keeps (returned o) w s = λ name o h. h
  outside-Keeps (raised e) w s = (λ name o h. h, tt)

  stay-set :
      (key : String) (made : O) (s s1 : Instances O W)
      → dict_get key s.singleton_cache ≡ none
      → ((name : String) (o : O)
          → dict_get name s.singleton_cache ≡ some o
          → dict_get name s1.singleton_cache ≡ some o)
      → (name : String) (o : O) → dict_get name s.singleton_cache ≡ some o
      → dict_get name (set_singleton_cache key made s1).singleton_cache ≡ some o
  unfolding set_singleton_cache
  stay-set key made s s1 absent stay name o there = elim (Bool-cases (name == key)) [
    | inl same ↦
        let names : name ≡ key = (string_has_eq.same_iff name key).0 same in
        absurd (cc (sym there ∙ ap (λ x. dict_get x s.singleton_cache) names ∙ absent))
    | inr apart ↦ dict_get-other name key made s1.singleton_cache apart ∙ stay name o there
  ]

module _ {O W : Type 0} (registry : ApplicationContext) (definitions : Definitions O W)
    (name_sorted : List Pod → List Pod) where
  stay-Parts : Parts singletons_stay registry definitions name_sorted
  unfolding set_context_cache
  stay-Parts = record {
    ambiguous = tt;
    no_target = tt;
    unexpected = tt;
    target-Keeps = λ pod final s.
        outside-Keeps (definitions.target pod final s.outside).0
          (definitions.target pod final s.outside).1 s;
    singleton-Keeps = λ pod made s s1. stay-set pod.name made s s1;
    context-Keeps = λ pod made s name o h. h;
  }

  Chosen-any :
      (r : Result (Option Pod))
      → Chosen singletons_stay registry definitions name_sorted (λ p. Unit {0}) r
  Chosen-any (returned (some pod)) = tt
  Chosen-any (returned none) = tt
  Chosen-any (raised e) = tt

  All-any : (ps : List Pod) → All (λ p. Unit {0}) ps
  All-any [] = tt
  All-any (p ∷ ps) = (tt, All-any ps)

  module _ (post_processors : List (O → Io (Instances O W) O))
      (processors : Processors singletons_stay post_processors) where
    stays-Keeps :
        (fuel : ℕ) (type_ : PodType) (name : Option String) (s : Instances O W)
        → Keeps singletons_stay {A = Option O} s
            (get_or_none registry definitions name_sorted post_processors fuel type_ name s)
    stays-Keeps fuel type_ name s =
        get_or_none-Keeps singletons_stay registry definitions name_sorted stay-Parts
          post_processors processors (λ p. Unit {0})
          (λ t n qs b. Chosen-any (resolve_candidate registry t n qs b)) (λ t qs. All-any _)
          (λ n h. Unit {0}) (λ h _. tt) (λ n p h _ _ _. tt) tt fuel type_ name s tt

    Keeps-stays :
        (fuel : ℕ) (type_ : PodType) (name : Option String) (s : Instances O W) (key : String)
        (o : O)
        → dict_get key s.singleton_cache ≡ some o
        → dict_get key
            (get_or_none registry definitions name_sorted post_processors fuel type_ name
              s).1.singleton_cache
          ≡ some o
    Keeps-stays fuel type_ name s key o =
        Leads-Keeps singletons_stay s
          (get_or_none registry definitions name_sorted post_processors fuel type_ name s)
          (stays-Keeps fuel type_ name s) key o

  module _ (make : Pod → List PodType → Io (Instances O W) O) (hierarchy : List PodType) (pod : Pod)
      (o : O) (s1 : Instances O W) where
    made-cached :
        (r : Result O × Instances O W) (s : Instances O W)
        → and_then (λ _. r) (λ o s1. (returned o, set_singleton_cache pod.name o s1)) s
          ≡ (returned o, s1)
        → dict_get pod.name s1.singleton_cache ≡ some o
    unfolding set_singleton_cache
    made-cached (returned made, w) s h =
        ap (λ q. dict_get pod.name q.1.singleton_cache) (sym h)
        ∙ dict_get-dict_set pod.name made w.singleton_cache
        ∙ cc (ap (λ q. q.0) h)
    made-cached (raised e, w) s h = absurd (cc (ap (λ q. q.0) h))

    found-cached :
        (found : Option O) (next : Result O × Instances O W) (s : Instances O W)
        → (elim found [ some o ↦ (returned o, s) | none ↦ next ]) ≡ (returned o, s1)
        → found ≡ dict_get pod.name s.singleton_cache
        → (next ≡ (returned o, s1) → dict_get pod.name s1.singleton_cache ≡ some o)
        → dict_get pod.name s1.singleton_cache ≡ some o
    found-cached none next s h e k = k h
    found-cached (some c) next s h e k =
        ap (λ q. dict_get pod.name q.1.singleton_cache) (sym h) ∙ sym e ∙ cc (ap (λ q. q.0) h)

    some-returned :
        (r : Result O × Instances O W) (s : Instances O W)
        → and_then (λ _. r) (λ o. return_ (some o)) s ≡ (returned (some o), s1)
        → r ≡ (returned o, s1)
    some-returned (returned a, w) s h = λ i. (returned-some (ap (λ q. q.0) h) i, (h i).1)
    some-returned (raised e, w) s h = absurd (cc (ap (λ q. q.0) h))

    -- What a request for a singleton returns is cached.
    request-cached :
        (s : Instances O W)
        → definitions.scope pod ≡ singleton
        → get_candidate registry definitions name_sorted make (returned (some pod)) hierarchy s
          ≡ (returned (some o), s1)
        → dict_get pod.name s1.singleton_cache ≡ some o
    unfolding get_candidate get_pod_instance get_singleton
    request-cached s single h =
        let got =
          some-returned (get_pod_instance registry definitions name_sorted make pod hierarchy s) s
            h in
        found-cached (dict_get pod.name s.singleton_cache)
          (and_then (make pod hierarchy) (λ o s1. (returned o, set_singleton_cache pod.name o s1))
            s)
          s (rw (single, get_pod_instance) at got) refl
          (λ k. made-cached (make pod hierarchy s) s k)

    cached-request :
        definitions.scope pod ≡ singleton
        → dict_get pod.name s1.singleton_cache ≡ some o
        → get_candidate registry definitions name_sorted make (returned (some pod)) hierarchy s1
          ≡ (returned (some o), s1)
    unfolding get_candidate get_pod_instance get_singleton
    cached-request single there =
        and_then-returned (get_pod_instance registry definitions name_sorted make pod hierarchy)
          (λ o. return_ (some o))
          (rw (single, get_pod_instance)
            (λ i. elim (there i) [
              | some c ↦ (returned c, s1)
              | none ↦
                  and_then (make pod hierarchy)
                    (λ o s1. (returned o, set_singleton_cache pod.name o s1)) s1
            ]))

  module _ (post_processors : List (O → Io (Instances O W) O))
      (processors : Processors singletons_stay post_processors) where
    -- A singleton is one object: once a request that a singleton Pod answers has returned `o`, it
    -- returns `o` again, and changes nothing, after any other request, which may have returned or
    -- raised. It holds for post-processors that leave the cached singletons.
    pub get_or_none-once :
        (pod : Pod) (fuel other_fuel later_fuel : ℕ) (type_ other_type : PodType)
        (name other_name : Option String) (o : O) (s s1 : Instances O W)
        → resolve_candidate registry type_ name [] false ≡ returned (some pod)
        → definitions.scope pod ≡ singleton
        → get_or_none registry definitions name_sorted post_processors fuel type_ name s
          ≡ (returned (some o), s1)
        → (let s2 =
              (get_or_none registry definitions name_sorted post_processors other_fuel other_type
                other_name s1).1 in
            get_or_none registry definitions name_sorted post_processors later_fuel type_ name s2
            ≡ (returned (some o), s2))
    unfolding get_or_none get_internal
    get_or_none-once pod fuel other_fuel later_fuel type_ other_type name other_name o s s1 chosen
          single h =
        let make : ℕ → Pod → List PodType → Io (Instances O W) O =
          instantiate_pod registry definitions name_sorted post_processors in
        let s2 =
          (get_or_none registry definitions name_sorted post_processors other_fuel other_type
            other_name s1).1 in
        let cached = request-cached (make fuel) [] pod o s1 s single (
          ap (λ r. get_candidate registry definitions name_sorted (make fuel) r [] s) (sym chosen)
          ∙ h) in
        ap (λ r. get_candidate registry definitions name_sorted (make later_fuel) r [] s2) chosen
        ∙ cached-request (make later_fuel) [] pod o s2 single (
            Keeps-stays post_processors processors other_fuel other_type other_name s1 pod.name o
              cached)
