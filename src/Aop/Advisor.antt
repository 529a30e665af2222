-- ===== src/Aop/Advisor.antt =====
-- core/spakky/src/spakky/core/aop/advisor.py: a call with the advice of one aspect around it.
use spakky_framework.Common.{true, false}
use spakky_framework.Effects.{Exn, is_exception, Result, returned, raised, Io}

-- A method, or what is woven around it, on arguments of type `X`.
abbrev pub Func : Type 0 → Type 0 → Type 0 → Type 0
Func X W A = X → Io W A

-- interfaces/aspect.py: the advice of an aspect.
pub record IAspect (X W A : Type 0) : Type 0 where
  pub before : X → Io W (Unit {0})
  pub around : Func X W A → Func X W A
  pub after_returning : A → Io W (Unit {0})
  pub after_raising : Exn → Io W (Unit {0})
  pub after : Io W (Unit {0})

-- The advice that an aspect inherits where it defines none.
abbrev pub default_aspect : {X W A : Type 0} → IAspect X W A
default_aspect = record {
  before = λ x w. (returned tt, w);
  around = λ joinpoint x w. joinpoint x w;
  after_returning = λ a w. (returned tt, w);
  after_raising = λ e w. (returned tt, w);
  after = λ w. (returned tt, w);
}

module _ {X W A : Type 0} where
  -- `around`, then `after_returning` on its result.
  unfoldable pub attempt : IAspect X W A → Func X W A → Func X W A
  attempt aspect next x w =
      let (result, w1) = aspect.around next x w in
      elim result [
        | raised e ↦ (raised e, w1)
        | returned a ↦
            let (told, w2) = aspect.after_returning a w1 in
            elim told [ returned _ ↦ (returned a, w2) | raised e ↦ (raised e, w2) ]
      ]

  -- `except Exception as e: after_raising(e); raise`
  unfoldable pub catch : IAspect X W A → Result A × W → Result A × W
  catch aspect (returned a, w) = (returned a, w)
  catch aspect (raised e, w) = elim (is_exception e) [
    | false ↦ (raised e, w)
    | true ↦
        let (told, w1) = aspect.after_raising e w in
        elim told [ returned _ ↦ (raised e, w1) | raised e' ↦ (raised e', w1) ]
  ]

  -- `finally: after()`
  unfoldable pub finally : IAspect X W A → Result A × W → Result A × W
  finally aspect (outcome, w) =
      let (told, w1) = aspect.after w in
      elim told [ returned _ ↦ (outcome, w1) | raised e ↦ (raised e, w1) ]

  -- Advisor(aspect, next)(x)
  unfoldable pub advise : IAspect X W A → Func X W A → Func X W A
  unfolding attempt catch finally
  advise aspect next x w =
      let (told, w1) = aspect.before x w in
      elim told [
        | raised e ↦ (raised e, w1)
        | returned _ ↦ finally aspect (catch aspect (attempt aspect next x w1))
      ]
