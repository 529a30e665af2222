-- ===== src/Common/Permutations.antt =====
-- Permutations of the lists that a test keeps, and of a list and an element moved into it.
use mathlib.Core.List.{Permᴰ}
use mathlib.Core.List
use mathlib.Core.Path.{refl, subst}
use mathlib.Core.Logic.{inl, inr}
use mathlib.Core.Bool.{Bool}
use mathlib.Core.List.{List, [], ◌∷◌, ◌++◌}
use spakky_framework.Common.Tests.{Bool-cases}
use spakky_framework.Common.Lists.{keep}

keep-cons-Perm :
    {A : Type 0} (p : A → Bool) (a : A) (xs ys : List A)
    → Permᴰ (keep p xs) (keep p ys)
    → Permᴰ (keep p (a ∷ xs)) (keep p (a ∷ ys))
unfolding keep
keep-cons-Perm p a xs ys d = elim (Bool-cases (p a)) [
  | inl kept ↦ rw kept (Permᴰ.cons refl d)
  | inr dropped ↦ rw dropped d
]

keep-swap-Perm :
    {A : Type 0} (p : A → Bool) (a b : A) (xs : List A)
    → Permᴰ (keep p (a ∷ b ∷ xs)) (keep p (b ∷ a ∷ xs))
unfolding keep
keep-swap-Perm p a b xs = elim (Bool-cases (p a)) [
  | inl kept ↦ elim (Bool-cases (p b)) [
    | inl kept' ↦ rw (kept, kept') (Permᴰ.swap refl refl)
    | inr dropped' ↦ rw (kept, dropped') (Permᴰ.cons refl (List.Permᴰ.refl (keep p xs)))
  ]
  | inr dropped ↦ elim (Bool-cases (p b)) [
    | inl kept' ↦ rw (dropped, kept') (Permᴰ.cons refl (List.Permᴰ.refl (keep p xs)))
    | inr dropped' ↦ rw (dropped, dropped') (List.Permᴰ.refl (keep p xs))
  ]
]

pub keep-Perm :
    {A : Type 0} (p : A → Bool) {xs ys : List A} → Permᴰ xs ys → Permᴰ (keep p xs) (keep p ys)
keep-Perm p Permᴰ.nil = List.Permᴰ.refl (keep p [])
keep-Perm p (Permᴰ.cons {a = a} {l₁ = xs} {l₂ = ys} e d) =
    subst (λ b. Permᴰ (keep p (a ∷ xs)) (keep p (b ∷ ys))) e
      (keep-cons-Perm p a xs ys (keep-Perm p d))
keep-Perm p (Permᴰ.swap {a = a} {b = b} {b' = b'} {l = l} e f) =
    subst (λ x. Permᴰ (keep p (a ∷ b ∷ l)) (keep p (x ∷ b' ∷ l))) f
      (subst (λ y. Permᴰ (keep p (a ∷ b ∷ l)) (keep p (b ∷ y ∷ l))) e (keep-swap-Perm p a b l))
keep-Perm p (Permᴰ.trans d e) = Permᴰ.trans (keep-Perm p d) (keep-Perm p e)

pub middle-Perm : {A : Type 0} (a : A) (xs ys : List A) → Permᴰ (a ∷ (xs ++ ys)) (xs ++ (a ∷ ys))
middle-Perm a [] ys = List.Permᴰ.refl (a ∷ ys)
middle-Perm a (x ∷ xs) ys =
    Permᴰ.trans (Permᴰ.swap refl refl) (Permᴰ.cons refl (middle-Perm a xs ys))
