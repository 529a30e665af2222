-- ===== src/Aop/Weaving.antt =====
-- core/spakky/src/spakky/core/aop/post_processor.py: which aspects are woven around a method, and
-- in which order.
use spakky_framework.Common.{ℕ, Bool, List, [], ◌∷◌, ltb, keep, if◌then◌else◌}
use spakky_framework.Aop.Advisor.{IAspect, Func, advise}

-- A matching aspect of a Pod: its `@Order`, and whether it matches the method called.
pub record Aspect (X W A : Type 0) : Type 0 where
  pub order : ℕ
  pub matches : Bool
  pub instance_ : IAspect X W A

module _ {X W A : Type 0} where
  -- `matched_aspects.sort(key=order, reverse=True)`: the highest first, equal ones as they stood.
  unfoldable pub insert : Aspect X W A → List (Aspect X W A) → List (Aspect X W A)
  insert a [] = a ∷ []
  insert a (b ∷ bs) = let rest = insert a bs in if ltb a.order b.order then b ∷ rest else a ∷ b ∷ bs

  unfoldable pub sort : List (Aspect X W A) → List (Aspect X W A)
  unfolding insert
  sort [] = []
  sort (a ∷ as') = insert a (sort as')

  -- `for candidate in candidates: runnable = Advisor(candidate, runnable)`
  unfoldable pub wrap : List (Aspect X W A) → Func X W A → Func X W A
  wrap [] runnable = runnable
  wrap (a ∷ as') runnable = wrap as' (advise a.instance_ runnable)

  -- The call of a method through the proxy of a Pod with these aspects.
  unfoldable pub call : List (Aspect X W A) → Func X W A → Func X W A
  unfolding wrap sort keep
  call aspects method = wrap (keep (λ a. a.matches) (sort aspects)) method
