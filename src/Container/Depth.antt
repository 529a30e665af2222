-- ===== src/Container/Depth.antt =====
-- core/spakky/src/spakky/core/application/application_context.py: what the parts guarantee,
-- `__instantiate_pod` guarantees, at any depth of calls that is enough.
use spakky_framework.Common.{
  ℕ, zero, suc, String, ◌≡◌, Bool, false, inl, inr, Option, none, some, List, [], ◌∷◌, ◌++◌, All,
  Bool-cases, contains, nat_has_eq,
}
use spakky_framework.Effects.{
  Result, returned, raised, Io, and_then, recursion_error, circular_dependency_graph_detected,
}
use spakky_framework.Effects.Guarantee.{Guarantee, Keeps, Keeps-and_then}
use spakky_framework.Container.Registry.{PodType, Pod, ApplicationContext}
use spakky_framework.Container.Resolve.{Qualifier, resolve_candidate}
use spakky_framework.Container.Caches.{Instances}
use spakky_framework.Container.Walk.{Parts, Chosen, get_internal-Keeps, resolve_dependencies-Keeps}
use spakky_framework.Container.Instantiate.{
  Injected, Definitions, Dependencies, final_dependencies, instantiate, post_process_pod,
  resolve_collection_candidates, resolve_dependencies, build, instantiate_pod, get_or_none,
}

-- Every post-processor guarantees it.
abbrev pub Processors :
    {O W : Type 0} → Guarantee (Instances O W) → List (O → Io (Instances O W) O) → Type 0
Processors {O} {W} g ps = All (λ p. (o : O) (s : Instances O W) → Keeps g {A = O} s (p o s)) ps

module _ {O W : Type 0} (g : Guarantee (Instances O W)) (registry : ApplicationContext)
    (definitions : Definitions O W) (name_sorted : List Pod → List Pod)
    (parts : Parts g registry definitions name_sorted) where
  abbrev Faults : {A : Type 0} → Result A → Type 0
  Faults (returned _) = Unit
  Faults (raised e) = g.Raises e

  Faults-cons :
      {A B : Type 0} (r : Result A) (then_ : A → B)
      → Faults {A = A} r
      → Faults {A = B} (elim r [ returned a ↦ returned (then_ a) | raised e ↦ raised e ])
  Faults-cons (returned a) then_ h = tt
  Faults-cons (raised e) then_ h = h

  final_dependencies-Faults :
      (ds : Dependencies O)
      → Faults {A = List (String × Option (Injected O))} (final_dependencies ds)
  unfolding final_dependencies
  final_dependencies-Faults [] = tt
  final_dependencies-Faults ((info, some value) ∷ ds) =
      Faults-cons (final_dependencies ds) (λ rest. (info.name, some value) ∷ rest)
        (final_dependencies-Faults ds)
  final_dependencies-Faults ((info, none) ∷ ds) = elim (Bool-cases info.has_default) [
    | inl spare ↦ rw spare (final_dependencies-Faults ds)
    | inr needed ↦ elim (Bool-cases info.is_optional) [
      | inl optional ↦
          rw (needed, optional)
            (Faults-cons (final_dependencies ds) (λ rest. (info.name, none) ∷ rest)
              (final_dependencies-Faults ds))
      | inr required ↦ rw (needed, required) parts.unexpected
    ]
  ]

  Keeps-Faults :
      {A B : Type 0} (r : Result A) (then_ : A → Result B × Instances O W) (s : Instances O W)
      → Faults {A = A} r
      → ((a : A) → Keeps g {A = B} s (then_ a))
      → Keeps g {A = B} s (elim r [ raised e ↦ (raised e, s) | returned a ↦ then_ a ])
  Keeps-Faults (returned a) then_ s h k = k a
  Keeps-Faults (raised e) then_ s h k = (g.leads_refl s, h)

  instantiate-Keeps :
      (pod : Pod) (ds : Dependencies O) (s : Instances O W)
      → Keeps g {A = O} s (instantiate definitions pod ds s)
  unfolding instantiate
  instantiate-Keeps pod ds s =
      Keeps-Faults (final_dependencies ds)
        (λ final.
          let (outcome, w) = definitions.target pod final s.outside in
          (outcome, record s { outside = w }))
        s (final_dependencies-Faults ds) (λ final. parts.target-Keeps pod final s)

  post_process_pod-Keeps :
      (ps : List (O → Io (Instances O W) O)) (o : O) (s : Instances O W)
      → Processors g ps
      → Keeps g {A = O} s (post_process_pod ps o s)
  unfolding post_process_pod
  post_process_pod-Keeps [] o s _ = g.leads_refl s
  post_process_pod-Keeps (p ∷ ps) o s (h, hs) =
      Keeps-and_then g (p o) (post_process_pod ps) s (h o s)
        (λ o1 s1. post_process_pod-Keeps ps o1 s1 hs)

  module _ (post_processors : List (O → Io (Instances O W) O))
      (processors : Processors g post_processors) (Known : Pod → Type 0)
      (candidates : (type_ : PodType) (name : Option String) (qualifiers : List Qualifier)
          (is_parameter : Bool)
        → Chosen g registry definitions name_sorted Known
            (resolve_candidate registry type_ name qualifiers is_parameter))
      (collections : (type_ : PodType) (qualifiers : List Qualifier)
        → All Known
            (resolve_collection_candidates registry definitions name_sorted type_ qualifiers)) where
    build-Keeps :
        (make : Pod → List PodType → Io (Instances O W) O) (pod : Pod) (hierarchy : List PodType)
        (s : Instances O W)
        → ((p : Pod) (s1 : Instances O W) → Known p → Keeps g {A = O} s1 (make p hierarchy s1))
        → Keeps g {A = O} s
            (build registry definitions name_sorted make post_processors pod hierarchy s)
    unfolding build
    build-Keeps make pod hierarchy s make-Keeps =
        Keeps-and_then g
          (resolve_dependencies registry definitions name_sorted make (definitions.dependencies pod)
            hierarchy)
          (λ ds. and_then (instantiate definitions pod ds) (post_process_pod post_processors)) s
          (resolve_dependencies-Keeps g registry definitions name_sorted parts Known candidates
            collections make hierarchy make-Keeps (definitions.dependencies pod) s)
          (λ ds s1.
            Keeps-and_then g (instantiate definitions pod ds) (post_process_pod post_processors) s1
              (instantiate-Keeps pod ds s1)
              (λ o s2. post_process_pod-Keeps post_processors o s2 processors))

    -- `Enough` says which depths of calls do.
    module _ (Enough : ℕ → List PodType → Type 0)
        (exhausted : (hierarchy : List PodType) → Enough zero hierarchy → g.Raises recursion_error)
        (deeper : (fuel : ℕ) (pod : Pod) (hierarchy : List PodType)
          → Known pod
          → contains pod.type_ hierarchy ≡ false
          → Enough (suc fuel) hierarchy
          → Enough fuel (hierarchy ++ pod.type_ ∷ []))
        (circular : g.Raises circular_dependency_graph_detected) where
      instantiate_pod-Keeps :
          (fuel : ℕ) (pod : Pod) (hierarchy : List PodType) (s : Instances O W)
          → Known pod
          → Enough fuel hierarchy
          → Keeps g {A = O} s (
              instantiate_pod registry definitions name_sorted post_processors fuel pod hierarchy s)
      unfolding instantiate_pod
      instantiate_pod-Keeps zero pod hierarchy s known enough =
          (g.leads_refl s, exhausted hierarchy enough)
      instantiate_pod-Keeps (suc fuel) pod hierarchy s known enough =
          elim (Bool-cases (contains pod.type_ hierarchy)) [
            | inl again ↦ rw (again, instantiate_pod) (g.leads_refl s, circular)
            | inr new ↦
                rw (new, instantiate_pod)
                  (build-Keeps
                    (instantiate_pod registry definitions name_sorted post_processors fuel) pod
                    (hierarchy ++ pod.type_ ∷ []) s
                    (λ p s1 known1.
                      instantiate_pod-Keeps fuel p (hierarchy ++ pod.type_ ∷ []) s1 known1
                        (deeper fuel pod hierarchy known new enough)))
          ]

      pub get_or_none-Keeps :
          (fuel : ℕ) (type_ : PodType) (name : Option String) (s : Instances O W)
          → Enough fuel []
          → Keeps g {A = Option O} s
              (get_or_none registry definitions name_sorted post_processors fuel type_ name s)
      unfolding get_or_none
      get_or_none-Keeps fuel type_ name s enough =
          get_internal-Keeps g registry definitions name_sorted parts Known candidates collections
            (instantiate_pod registry definitions name_sorted post_processors fuel) []
            (λ p s1 known. instantiate_pod-Keeps fuel p [] s1 known enough) type_ name [] false s
