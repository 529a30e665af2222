-- ===== src/Container/Cycles.antt =====
-- core/spakky/src/spakky/core/application/application_context.py: an instantiation ends, since its
-- hierarchy of types has no repetitions.
use spakky_framework.Common.{
  ◌≢◌, all, ℕ, ◌<◌, String, ◌≡◌, refl, ap, subst, Bool, true, false, inl, inr, Option, none, some,
  List, [], ◌∷◌, ◌==◌, All, Some, Bool-cases, keep, map, length, nat_has_eq, string_has_eq, arith,
}
use spakky_framework.Effects.{Exn, Result, returned, raised, Io, recursion_error}
use spakky_framework.Effects.Guarantee.{Guarantee, Keeps, Raises-Keeps}
use spakky_framework.Container.Registry.{PodType, Pod, ApplicationContext, find_pod}
use spakky_framework.Container.Resolve.{Qualifier, resolve_candidate}
use spakky_framework.Container.Candidates.{Among, Among-keep}
use spakky_framework.Container.Index.{Indexed, resolve_candidate-Provides}
use spakky_framework.Container.Errors.{Raised, resolve_candidate-Raised}
use spakky_framework.Container.Remaining.{remaining, remaining-less, remaining-map}
use spakky_framework.Container.Caches.{Instances}
use spakky_framework.Container.Walk.{Parts, Chosen}
use spakky_framework.Container.Depth.{Processors, get_or_none-Keeps}
use spakky_framework.Container.Instantiate.{
  Injected, Definitions, resolve_collection_candidates, get_or_none,
}

find_pod-type :
    (p : Pod) (name : String) (ps : List Pod)
    → find_pod name ps ≡ some p
    → Some (λ t. t ≡ p.type_) (map (λ q. q.type_) ps)
unfolding find_pod
find_pod-type p name [] h = absurd (cc h)
find_pod-type p name (q ∷ ps) h = elim (Bool-cases (name == q.name)) [
  | inl same ↦ let here : q ≡ p = cc (rw same at h) in inl (ap (λ r. r.type_) here)
  | inr apart ↦ inr (find_pod-type p name ps (rw apart at h))
]

abbrev is_recursion_error : Exn → Bool
is_recursion_error recursion_error = true
is_recursion_error _ = false

is_recursion_error-true : (e : Exn) → is_recursion_error e ≡ true → e ≡ recursion_error
is_recursion_error-true recursion_error h = refl
is_recursion_error-true _ h = absurd (cc h)

-- No call raises RecursionError.
abbrev pub no_recursion_error : {O W : Type 0} → Guarantee (Instances O W)
no_recursion_error = record {
  Leads = λ s s'. Unit;
  Raises = λ e. is_recursion_error e ≡ false;
  leads_refl = λ s. tt;
  leads_trans = λ s s1 s2 h k. tt;
}

Among-All : (P : Pod → Type 0) (ps : List Pod) → ((p : Pod) → Among p ps → P p) → All P ps
Among-All P [] h = tt
Among-All P (p ∷ ps) h = (h p (inl refl), Among-All P ps (λ q k. h q (inr k)))

module _ {O W : Type 0} (registry : ApplicationContext) (definitions : Definitions O W)
    (name_sorted : List Pod → List Pod) where
  abbrev Known : Pod → Type 0
  Known p = find_pod p.name registry.pods ≡ some p

  Chosen-cases :
      (r : Result (Option Pod))
      → ((p : Pod) → r ≡ returned (some p) → Known p)
      → ((e : Exn) → r ≡ raised e → is_recursion_error e ≡ false)
      → Chosen no_recursion_error registry definitions name_sorted Known r
  Chosen-cases (returned (some p)) h k = h p refl
  Chosen-cases (returned none) h k = tt
  Chosen-cases (raised e) h k = k e refl

  module _ (indexed : Indexed registry)
      (sorted : (ps : List Pod) (p : Pod) → Among p (name_sorted ps) → Among p ps) where
    candidates-Known :
        (type_ : PodType) (name : Option String) (qualifiers : List Qualifier) (is_parameter : Bool)
        → Chosen no_recursion_error registry definitions name_sorted Known
            (resolve_candidate registry type_ name qualifiers is_parameter)
    candidates-Known type_ name qualifiers is_parameter =
        Chosen-cases (resolve_candidate registry type_ name qualifiers is_parameter)
          (λ p h.
            (resolve_candidate-Provides registry type_ name qualifiers is_parameter p indexed h).1)
          (λ e h. subst (Raised (λ e. is_recursion_error e ≡ false) refl refl {A = Option Pod}) h (
            resolve_candidate-Raised (λ e. is_recursion_error e ≡ false) refl refl registry type_
              name qualifiers is_parameter))

    collections-Known :
        (type_ : PodType) (qualifiers : List Qualifier)
        → All Known
            (resolve_collection_candidates registry definitions name_sorted type_ qualifiers)
    unfolding resolve_collection_candidates
    collections-Known type_ [] =
        Among-All Known (name_sorted (registry.type_cache type_))
          (λ p h. (indexed type_ p (sorted (registry.type_cache type_) p h)).1)
    collections-Known type_ (q ∷ qs) =
        let test : Pod → Bool = λ pod. all (λ q. q pod) (q ∷ qs) in
        Among-All Known (name_sorted (keep test (registry.type_cache type_))) (λ p h.
          (indexed type_ p
            (Among-keep test p (registry.type_cache type_)
              (sorted (keep test (registry.type_cache type_)) p h)).0).1)

    module _
        (targets : (pod : Pod) (final : List (String × Option (Injected O))) (w : W)
          → (definitions.target pod final w).0 ≢ raised recursion_error) where
      outside-Keeps :
          (r : Result O) (w : W) (s : Instances O W)
          → r ≢ raised recursion_error
          → Keeps no_recursion_error {A = O} s (r, record s { outside = w })
      outside-Keeps (returned o) w s h = tt
      outside-Keeps (raised e) w s h = elim (Bool-cases (is_recursion_error e)) [
        | inl bad ↦ absurd (h (ap raised (is_recursion_error-true e bad)))
        | inr good ↦ (tt, good)
      ]

      ends-Parts : Parts no_recursion_error registry definitions name_sorted
      ends-Parts = record {
        ambiguous = refl;
        no_target = refl;
        unexpected = refl;
        target-Keeps = λ pod final s.
            outside-Keeps (definitions.target pod final s.outside).0
              (definitions.target pod final s.outside).1 s (targets pod final s.outside);
        singleton-Keeps = λ pod o s s1 absent h. tt;
        context-Keeps = λ pod o s. tt;
      }

      true-false : (true ≡ false) → ⊥
      true-false h = cc h

      enough_types :
          (fuel : ℕ)
          → length registry.pods < fuel
          → remaining (map (λ q. q.type_) registry.pods) [] < fuel
      enough_types fuel enough =
          let most = remaining-map (λ q. q.type_) [] registry.pods in omega (arith, most, enough)

      -- A request nests no deeper than there are Pods: with a depth of calls above their number it
      -- does not end in RecursionError, since a Pod that needs itself is found out before. It holds
      -- for an index that agrees with the registered Pods, a sort that adds no element, and
      -- classes and post-processors that raise no RecursionError themselves.
      pub get_or_none-ends :
          (post_processors : List (O → Io (Instances O W) O)) (fuel : ℕ) (type_ : PodType)
          (name : Option String) (s : Instances O W)
          → Processors no_recursion_error post_processors
          → length registry.pods < fuel
          → (get_or_none registry definitions name_sorted post_processors fuel type_ name s).0
            ≢ raised recursion_error
      get_or_none-ends post_processors fuel type_ name s processors enough h =
          let types = map (λ q. q.type_) registry.pods in
          let kept =
            get_or_none-Keeps no_recursion_error registry definitions name_sorted ends-Parts
              post_processors processors Known candidates-Known collections-Known
              (λ n hierarchy. remaining types hierarchy < n)
              (λ hierarchy less. absurd (omega (arith, less)))
              (λ n pod hierarchy known new less.
                let nearer =
                  remaining-less pod.type_ hierarchy types
                    (find_pod-type pod pod.name registry.pods known) new in
                omega (arith, nearer, less))
              refl fuel type_ name s (enough_types fuel enough) in
          true-false (
            Raises-Keeps no_recursion_error s recursion_error
              (get_or_none registry definitions name_sorted post_processors fuel type_ name s) kept
              h)
