-- ===== src/Container/Remaining.antt =====
-- core/spakky/src/spakky/core/application/application_context.py: how many types a hierarchy leaves,
-- which bounds the depth of an instantiation.
use spakky_framework.Common.{
  ℕ, suc, ◌<◌, ◌≤◌, ◌≡◌, refl, ◌∙◌, ap, true, false, not, ◌||◌, inl, inr, List, [], ◌∷◌, ◌++◌, ◌==◌,
  Some, Bool-cases, contains, keep, map, length, nat_has_eq, string_has_eq, arith,
}
use spakky_framework.Container.Registry.{PodType}

-- How many of the types are not in the hierarchy.
abbrev pub remaining : List PodType → List PodType → ℕ
remaining types hierarchy = length (keep (λ t. not (contains t hierarchy)) types)

contains-append :
    (x t : PodType) (hs : List PodType) → contains x (hs ++ t ∷ []) ≡ contains x hs || (x == t)
unfolding contains
contains-append x t [] = elim (Bool-cases (x == t)) [
  | inl same ↦ rw same refl
  | inr apart ↦ rw apart refl
]
contains-append x t (h ∷ hs) = elim (Bool-cases (x == h)) [
  | inl same ↦ rw same refl
  | inr apart ↦ rw apart (contains-append x t hs)
]

-- How the two counts step over `x`.
module _ (t : PodType) (hs : List PodType) (x : PodType) where
  below : (contains x hs ≡ true) → contains x (hs ++ t ∷ []) ≡ true
  below there = contains-append x t hs ∙ ap (λ b. b || (x == t)) there

  beside : (contains x hs ≡ false) → contains x (hs ++ t ∷ []) ≡ (x == t)
  beside new = contains-append x t hs ∙ ap (λ b. b || (x == t)) new

remaining-le :
    (t : PodType) (hs types : List PodType) → remaining types (hs ++ t ∷ []) ≤ remaining types hs
unfolding keep
remaining-le t hs [] = omega arith
remaining-le t hs (x ∷ types) =
    let rest = remaining-le t hs types in
    elim (Bool-cases (contains x hs)) [
      | inl there ↦ rw (there, below t hs x there) rest
      | inr new ↦ elim (Bool-cases (x == t)) [
        | inl same ↦ rw (new, beside t hs x new, same) (omega (arith, rest))
        | inr apart ↦ rw (new, beside t hs x new, apart) (omega (arith, rest))
      ]
    ]

pub remaining-less :
    (t : PodType) (hs types : List PodType)
    → Some (λ x. x ≡ t) types
    → contains t hs ≡ false
    → remaining types (hs ++ t ∷ []) < remaining types hs
unfolding keep
remaining-less t hs [] here new = absurd here
remaining-less t hs (x ∷ types) (inl here) new =
    let unseen : contains x hs ≡ false = ap (λ y. contains y hs) here ∙ new in
    let same : (x == t) ≡ true = (nat_has_eq.same_iff x t).1 here in
    let rest = remaining-le t hs types in
    rw (unseen, beside t hs x unseen, same) (omega (arith, rest))
remaining-less t hs (x ∷ types) (inr later) new =
    let rest = remaining-less t hs types later new in
    elim (Bool-cases (contains x hs)) [
      | inl there ↦ rw (there, below t hs x there) rest
      | inr unseen ↦ elim (Bool-cases (x == t)) [
        | inl same ↦ rw (unseen, beside t hs x unseen, same) (omega (arith, rest))
        | inr apart ↦ rw (unseen, beside t hs x unseen, apart) (omega (arith, rest))
      ]
    ]

pub remaining-all : (hs types : List PodType) → remaining types hs ≤ length types
unfolding keep
remaining-all hs [] = omega arith
remaining-all hs (x ∷ types) = elim (Bool-cases (contains x hs)) [
  | inl there ↦ let h = remaining-all hs types in rw there (omega (arith, h))
  | inr new ↦ let h = remaining-all hs types in rw new (omega (arith, h))
]

length-map : {A B : Type 0} (f : A → B) (xs : List A) → length (map f xs) ≡ length xs
length-map f [] = refl
length-map f (x ∷ xs) = ap suc (length-map f xs)

pub remaining-map :
    {A : Type 0} (f : A → PodType) (hs : List PodType) (xs : List A)
    → remaining (map f xs) hs ≤ length xs
remaining-map f hs xs =
    let most = remaining-all hs (map f xs) in
    let same = length-map f xs in omega (arith, most, same)
