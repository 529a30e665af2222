-- ===== src/Common/Tests.antt =====
-- Boolean tests on numbers and texts, the conditional, and equality as an interface.
use Prim.Native.Nat.{ℕ, compare, Ordering}
use Prim.Native.String.{String}
use mathlib.Core.Path.{◌≡◌, refl, ap}
use mathlib.Core.Logic.{◌↔◌, ◌⊎◌, inl, inr}
use mathlib.Core.Bool.{Bool, true, false}
use mathlib.Core.Option.{Option, none, some}
use native.Mathlib.Omega.{arith}
use text.Mathlib.Text.{◌==◌ as str_eq}
use text.Mathlib.TextEquality.{eq_iff}

abbrev pub ltb : ℕ → ℕ → Bool
ltb a b = elim (compare a b) [ Ordering.lt ↦ true | _ ↦ false ]

abbrev pub leb : ℕ → ℕ → Bool
leb a b = elim (compare a b) [ Ordering.gt ↦ false | _ ↦ true ]

abbrev pub nat_eq : ℕ → ℕ → Bool
nat_eq a b = elim (compare a b) [ Ordering.eq ↦ true | _ ↦ false ]

infix 1 if◌then◌else◌
abbrev pub if◌then◌else◌ {ℓ} : {A : Type ℓ} → Bool → A → A → A
if true then x else y = x
if false then x else y = y

pub nat_eq_iff : (a b : ℕ) → (nat_eq a b ≡ true) ↔ (a ≡ b)
nat_eq_iff a b = ground arith

-- Python's `==` on a type where it decides equality.
pub record PyEq {ℓ} (A : Type ℓ) : Type ℓ where
  pub same : A → A → Bool
  pub same_iff : (a b : A) → (same a b ≡ true) ↔ (a ≡ b)

instance abbrev pub string_has_eq : PyEq String
string_has_eq = record { same = str_eq; same_iff = eq_iff }

instance abbrev pub nat_has_eq : PyEq ℕ
nat_has_eq = record { same = nat_eq; same_iff = nat_eq_iff }

infix 50 ◌==◌
abbrev pub ◌==◌ {ℓ} : {A : Type ℓ} ⦃py : PyEq A⦄ → A → A → Bool
◌==◌ ⦃py⦄ = py.same

-- To split on a computed value and keep the equation.
pub Bool-cases : (b : Bool) → (b ≡ true) ⊎ (b ≡ false)
Bool-cases true = inl refl
Bool-cases false = inr refl

pub Option-cases {ℓ} : {A : Type ℓ} (o : Option A) → (o ≡ none) ⊎ ((a : A) × (o ≡ some a))
Option-cases none = inl refl
Option-cases (some a) = inr (a, refl)

-- `==` on `T | None`.
abbrev pub option_eq {ℓ} : {A : Type ℓ} ⦃py : PyEq A⦄ → Option A → Option A → Bool
option_eq none none = true
option_eq (some a) (some b) = a == b
option_eq _ _ = false

pub option_eq_iff {ℓ} :
    {A : Type ℓ} ⦃py : PyEq A⦄ (a b : Option A) → (option_eq a b ≡ true) ↔ (a ≡ b)
option_eq_iff none none = (λ _. refl, λ _. refl)
option_eq_iff none (some b) = (λ h. cc, λ h. cc)
option_eq_iff (some a) none = (λ h. cc, λ h. cc)
option_eq_iff ⦃py⦄ (some a) (some b) =
    (λ h. ap some ((py.same_iff a b).0 h), λ h. (py.same_iff a b).1 (cc))

instance abbrev pub option_has_eq {ℓ} : {A : Type ℓ} ⦃py : PyEq A⦄ → PyEq (Option A)
option_has_eq = record { same = option_eq; same_iff = option_eq_iff }
