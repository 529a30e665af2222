-- ===== src/Common/Dicts.antt =====
-- Python's dicts with strings for keys, as lists of entries in the order of insertion.
use Prim.Native.String.{String}
use mathlib.Core.Path.{◌≡◌, refl, sym, ap, ◌∙◌}
use mathlib.Core.Logic.{inl, inr}
use mathlib.Core.Bool.{true, false}
use mathlib.Core.Option.{Option, none, some}
use mathlib.Core.List.{List, [], ◌∷◌}
use spakky_framework.Common.Tests.{◌==◌, if◌then◌else◌, string_has_eq, Bool-cases}

-- `d.get(name)` and `d[name] = o`.
unfoldable pub dict_get : {O : Type 0} → String → List (String × O) → Option O
dict_get name [] = none
dict_get name ((key, o) ∷ rest) =
    let found = dict_get name rest in if name == key then some o else found

unfoldable pub dict_set : {O : Type 0} → String → O → List (String × O) → List (String × O)
dict_set name o [] = (name, o) ∷ []
dict_set name o ((key, old) ∷ rest) =
    let changed = dict_set name o rest in
    if name == key then (key, o) ∷ rest else (key, old) ∷ changed

name_refl : (name : String) → (name == name) ≡ true
name_refl name = (string_has_eq.same_iff name name).1 refl

pub dict_get-dict_set :
    {O : Type 0} (name : String) (o : O) (xs : List (String × O))
    → dict_get name (dict_set name o xs) ≡ some o
unfolding dict_get dict_set
dict_get-dict_set name o [] = rw (name_refl name) refl
dict_get-dict_set name o ((key, old) ∷ xs) = elim (Bool-cases (name == key)) [
  | inl same ↦ rw (same, same) refl
  | inr other ↦ rw (other, other) (dict_get-dict_set name o xs)
]

pub dict_get-other :
    {O : Type 0} (name key : String) (o : O) (xs : List (String × O))
    → (name == key) ≡ false
    → dict_get name (dict_set key o xs) ≡ dict_get name xs
unfolding dict_get dict_set
dict_get-other name key o [] apart = rw apart refl
dict_get-other name key o ((k, old) ∷ xs) apart = elim (Bool-cases (key == k)) [
  | inl same ↦
      let names : key ≡ k = (string_has_eq.same_iff key k).0 same in
      let differs : (name == k) ≡ false = ap (λ x. name == x) (sym names) ∙ apart in
      rw (same, differs) refl
  | inr other ↦ elim (Bool-cases (name == k)) [
    | inl here ↦ rw (other, here) refl
    | inr there ↦ rw (other, there) (dict_get-other name key o xs apart)
  ]
]
