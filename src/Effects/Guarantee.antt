-- ===== src/Effects/Guarantee.antt =====
-- What every call of a part of the program guarantees: a relation between the states before and
-- after it, and a condition on what it raises.
use spakky_framework.Common.{◌≡◌, subst}
use spakky_framework.Effects.{Exn, Result, returned, raised, Io, and_then}

pub record Guarantee (W : Type 0) : Type 1 where
  pub Leads : W → W → Type 0
  pub Raises : Exn → Type 0
  pub leads_refl : (w : W) → Leads w w
  pub leads_trans : (w w1 w2 : W) → Leads w w1 → Leads w1 w2 → Leads w w2

module _ {W : Type 0} (g : Guarantee W) where
  -- `outcome` is as guaranteed for a call in the state `w`.
  abbrev pub Keeps : {A : Type 0} → W → Result A × W → Type 0
  Keeps w (returned _, w') = g.Leads w w'
  Keeps w (raised e, w') = g.Leads w w' × g.Raises e

  Keeps-later :
      {A : Type 0} (w w1 : W) (r : Result A × W)
      → g.Leads w w1
      → Keeps {A = A} w1 r
      → Keeps {A = A} w r
  Keeps-later w w1 (returned _, w2) h k = g.leads_trans w w1 w2 h k
  Keeps-later w w1 (raised e, w2) h (k, raises) = (g.leads_trans w w1 w2 h k, raises)

  Keeps-continue :
      {A B : Type 0} (w : W) (r : Result A × W) (then_ : A → Io W B)
      → Keeps {A = A} w r
      → ((a : A) (w1 : W) → Keeps {A = B} w1 (then_ a w1))
      → Keeps {A = B} w (and_then (λ _. r) then_ w)
  Keeps-continue w (returned a, w1) then_ h k = Keeps-later w w1 (then_ a w1) h (k a w1)
  Keeps-continue w (raised e, w1) then_ h k = h

  pub Keeps-and_then :
      {A B : Type 0} (first : Io W A) (then_ : A → Io W B) (w : W)
      → Keeps {A = A} w (first w)
      → ((a : A) (w1 : W) → Keeps {A = B} w1 (then_ a w1))
      → Keeps {A = B} w (and_then first then_ w)
  Keeps-and_then first then_ w = Keeps-continue w (first w) then_

  pub Leads-Keeps : {A : Type 0} (w : W) (r : Result A × W) → Keeps {A = A} w r → g.Leads w r.1
  Leads-Keeps w (returned _, w') h = h
  Leads-Keeps w (raised e, w') h = h.0

  pub Raises-Keeps :
      {A : Type 0} (w : W) (e : Exn) (r : Result A × W)
      → Keeps {A = A} w r
      → r.0 ≡ raised e
      → g.Raises e
  Raises-Keeps w e (returned _, w1) h k = absurd (cc k)
  Raises-Keeps w e (raised e', w1) h k = subst g.Raises (cc k) h.1
