-- ===== src/Aop/Tests.antt =====
-- core/spakky/src/spakky/core/aop: three aspects that log their order around a method.
use spakky_framework.Common.{ℕ, ◌+◌, Bool, true, false, ◌≡◌, refl, List, [], ◌∷◌, ◌++◌, keep, Permᴰ}
use spakky_framework.Effects.{returned}
use spakky_framework.Aop.Advisor.{IAspect, Func, advise, attempt, catch, finally}
use spakky_framework.Aop.Weaving.{Aspect, insert, sort, wrap, call}
use spakky_framework.Aop.Order.{nest, Ascending, call-nest}

abbrev logging : ℕ → IAspect ℕ (List ℕ) ℕ
logging n = record {
  before = λ x w. (returned tt, w ++ (n ∷ []));
  around = λ joinpoint x w. joinpoint x w;
  after_returning = λ a w. (returned tt, w);
  after_raising = λ e w. (returned tt, w);
  after = λ w. (returned tt, w ++ (n ∷ []));
}

abbrev aspect : ℕ → Bool → Aspect ℕ (List ℕ) ℕ
aspect n matches = record { order = n; matches = matches; instance_ = logging n }

abbrev aspects : List (Aspect ℕ (List ℕ) ℕ)
aspects = aspect 2 true ∷ aspect 0 true ∷ aspect 1 false ∷ []

abbrev method : Func ℕ (List ℕ) ℕ
method x w = (returned (x + 1), w ++ (9 ∷ []))

call-logs : call aspects method 4 [] ≡ (returned 5, 0 ∷ 2 ∷ 9 ∷ 2 ∷ 0 ∷ [])
unfolding call sort insert wrap keep advise attempt catch finally
call-logs = refl

call-nest_example :
    (nested : List (Aspect ℕ (List ℕ) ℕ)) × Permᴰ (keep (λ a. a.matches) aspects) nested
    × Ascending nested
    × (call aspects method ≡ nest nested method)
call-nest_example = call-nest aspects method
