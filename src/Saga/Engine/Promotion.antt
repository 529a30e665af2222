-- ===== src/Saga/Engine/Promotion.antt =====
-- core/spakky-saga/src/spakky/saga/flow.py and engine.py: `saga_flow` promotes a bare callable to a
-- step, and `_normalize` takes bare callables too; the two agree.
use spakky_framework.Common.{◌≡◌, refl, inl, inr, List, [], ◌∷◌}
use spakky_framework.Effects.{Result, returned, raised, Result-cases, returned_subst}
use spakky_framework.Saga.Flow.{Callable, saga_step, FlowItem, single, group, SagaFlow}
use spakky_framework.Saga.Flow.Build.{promote, promote_items, prepend, saga_flow, as_flow}
use spakky_framework.Saga.Engine.Normalize.{
  normalize_item, normalize_step, normalize_function, normalize,
}

module _ {P W : Type 0} where
  -- A promoted callable is the step that `_normalize` makes of it.
  normalize_item-promote :
      (f : Callable P W)
      → normalize_item (single (saga_step (promote f))) ≡ normalize_item (FlowItem.function f)
  unfolding normalize_item normalize_step normalize_function promote
  normalize_item-promote f = refl

  normalize-prepend :
      (x y : FlowItem P W) (rest : List (FlowItem P W)) (promoted : Result (List (FlowItem P W)))
      (ps : List (FlowItem P W))
      → ((qs : List (FlowItem P W)) → promoted ≡ returned qs → normalize qs ≡ normalize rest)
      → normalize_item x ≡ normalize_item y
      → prepend x promoted ≡ returned ps
      → normalize ps ≡ normalize (y ∷ rest)
  unfolding prepend normalize
  normalize-prepend x y rest (raised e) ps ih same h = absurd (cc h)
  normalize-prepend x y rest (returned qs) ps ih same h =
      returned_subst (λ l. normalize l ≡ normalize (y ∷ rest)) h (rw (same, ih qs refl) refl)

  normalize-promote_items :
      (items ps : List (FlowItem P W))
      → promote_items items ≡ returned ps
      → normalize ps ≡ normalize items
  unfolding promote_items
  normalize-promote_items [] ps h = returned_subst (λ l. normalize l ≡ normalize []) h refl
  normalize-promote_items (FlowItem.function f ∷ rest) ps h =
      normalize-prepend _ (FlowItem.function f) rest _ ps (normalize-promote_items rest)
        (normalize_item-promote f) h
  normalize-promote_items (FlowItem.other ∷ rest) ps h = absurd (cc h)
  normalize-promote_items (single c ∷ rest) ps h =
      normalize-prepend (single c) (single c) rest _ ps (normalize-promote_items rest) refl h
  normalize-promote_items (group g ∷ rest) ps h =
      normalize-prepend (group g) (group g) rest _ ps (normalize-promote_items rest) refl h

  -- A flow that `saga_flow` builds is normalized to what its items are normalized to: a bare
  -- callable is the same step by promotion and by normalization.
  pub normalize-saga_flow :
      (items : List (FlowItem P W)) (flow : SagaFlow P W)
      → saga_flow items ≡ returned flow
      → normalize flow.items ≡ normalize items
  unfolding saga_flow as_flow
  normalize-saga_flow [] flow h = absurd (cc h)
  normalize-saga_flow (item ∷ items) flow h = elim (Result-cases (promote_items (item ∷ items))) [
    | inr (e, broke) ↦ absurd (cc (rw broke at h))
    | inl (ps, ok) ↦
        returned_subst (λ f. normalize f.items ≡ normalize (item ∷ items)) (rw ok at h)
          (normalize-promote_items (item ∷ items) ps ok)
  ]
