-- ===== src/Effects.antt =====
-- How Python code ends: it returns a value or raises. `Exn` lists the exception classes that the
-- modelled code tells apart; an `Io` is code that reads and changes the outside world.
pub mod Guarantee
use spakky_framework.Common.{ap, ◌∙◌, ℕ, subst, Bool, true, false, ◌≡◌, refl, ◌⊎◌, inl, inr}
use spakky_framework.Auth.Decision.{AuthorizationDecision}

pub data Exn : Type 0 where
  -- asyncio.CancelledError and the other classes that `except Exception` does not catch.
  cancelled_error : Exn
  base_exception : ℕ → Exn
  timeout_error : Exn
  -- core/spakky-auth/src/spakky/auth/error.py
  auth_requirement_denied : AuthorizationDecision → Exn
  auth_requirement_provider_unavailable auth_context_not_found invalid_auth_context_value : Exn
  conflicting_auth_metadata missing_snapshot invalid_snapshot expired_snapshot : Exn
  provider_unavailable : Exn
  -- core/spakky-saga/src/spakky/saga/error.py
  saga_flow_definition saga_compensation_failed saga_step_timeout : Exn
  -- core/spakky/src/spakky/core/pod/error.py and interfaces/container.py
  pod_name_already_exists no_unique_pod : Exn
  invalid_pod_binding no_such_pod_binding_target : Exn
  circular_dependency_graph_detected unexpected_dependency_type_injected no_such_pod : Exn
  -- core/spakky-event/src/spakky/event/error.py, with the number of the event's class.
  unknown_event_type : ℕ → Exn
  -- core/spakky-tracing/src/spakky/tracing/error.py
  invalid_traceparent : Exn
  -- core/spakky-actuator/src/spakky/actuator/error.py
  cannot_evaluate_async_extension_synchronously : Exn
  -- core/spakky-agent/src/spakky/agent/error.py
  agent_definition_error : Exn
  -- IndexError and RecursionError.
  index_error recursion_error : Exn
  -- Any other subclass of Exception, by number.
  exception : ℕ → Exn

-- Whether `except Exception` catches it.
abbrev pub is_exception : Exn → Bool
is_exception cancelled_error = false
is_exception (base_exception _) = false
is_exception _ = true

pub data Result {ℓ} (A : Type ℓ) : Type ℓ where
  returned : A → Result A
  raised : Exn → Result A

abbrev pub Io : Type 0 → Type 0 → Type 0
Io W A = W → Result A × W

-- It raises nothing but an Exception.
abbrev pub Ordinary {ℓ} : {A : Type ℓ} → Result A → Type 0
Ordinary (returned _) = Unit
Ordinary (raised e) = is_exception e ≡ true

-- To split on how a call ended and keep the equation.
pub Result-cases {ℓ} :
    {A : Type ℓ} (r : Result A) → ((a : A) × (r ≡ returned a)) ⊎ ((e : Exn) × (r ≡ raised e))
Result-cases (returned a) = inl (a, refl)
Result-cases (raised e) = inr (e, refl)

pub returned-injective {ℓ} : {A : Type ℓ} {a b : A} → returned a ≡ returned b → a ≡ b
returned-injective h = cc

pub returned_subst {ℓ κ} :
    {A : Type ℓ} (P : A → Type κ) {a b : A} → returned a ≡ returned b → P a → P b
returned_subst P h = subst P (returned-injective h)

-- `a = first(); then(a)`
abbrev pub and_then : {W A B : Type 0} → Io W A → (A → Io W B) → Io W B
and_then first then_ w =
    let (result, w1) = first w in
    elim result [ returned a ↦ then_ a w1 | raised e ↦ (raised e, w1) ]

-- `try: return body() except: return handler(e)`, which catches every exception.
abbrev pub except_all : {W A : Type 0} → Io W A → (Exn → Io W A) → Io W A
except_all body handler w =
    let (result, w1) = body w in
    elim result [ returned a ↦ (returned a, w1) | raised e ↦ handler e w1 ]

-- `try: return body() finally: last()`
abbrev pub finally_do : {W A : Type 0} → Io W A → Io W (Unit {0}) → Io W A
finally_do body last w =
    let (result, w1) = body w in
    let (told, w2) = last w1 in elim told [ returned _ ↦ (result, w2) | raised e ↦ (raised e, w2) ]

abbrev pub return_ : {W A : Type 0} → A → Io W A
return_ a w = (returned a, w)

abbrev pub raise : {W A : Type 0} → Exn → Io W A
raise e w = (raised e, w)

pub and_then-ap :
    {W A B : Type 0} (f : Io W A) (g g' : A → Io W B) (w : W)
    → ((a : A) (w1 : W) → g a w1 ≡ g' a w1)
    → and_then f g w ≡ and_then f g' w
and_then-ap f g g' w same =
    λ i. elim (f w).0 [ returned a ↦ same a (f w).1 i | raised e ↦ (raised e, (f w).1) ]

and_then_assoc_on :
    {W A B C : Type 0} (g : A → Io W B) (h : B → Io W C) (r : Result A × W)
    → and_then (and_then (λ _. r) g) h r.1 ≡ and_then (λ _. r) (λ a. and_then (g a) h) r.1
and_then_assoc_on g h (returned a, w) = refl
and_then_assoc_on g h (raised e, w) = refl

pub and_then_assoc :
    {W A B C : Type 0} (f : Io W A) (g : A → Io W B) (h : B → Io W C) (w : W)
    → and_then (and_then f g) h w ≡ and_then f (λ a. and_then (g a) h) w
and_then_assoc f g h w = and_then_assoc_on g h (f w)

module _ {W : Type 0} where
  pub and_then-returned :
      {A B : Type 0} (f : Io W A) {w w1 : W} {a : A} (g : A → Io W B)
      → f w ≡ (returned a, w1)
      → and_then f g w ≡ g a w1
  and_then-returned f {w} g h = ap (λ r. and_then (λ _. r) g w) h

  pub and_then-raised :
      {A B : Type 0} (f : Io W A) {w w1 : W} {e : Exn} (g : A → Io W B)
      → f w ≡ (raised e, w1)
      → and_then f g w ≡ (raised e, w1)
  and_then-raised f {w} g h = ap (λ r. and_then (λ _. r) g w) h

  pub except_all-raised :
      {A : Type 0} (f : Io W A) {w w1 : W} {e : Exn} (handler : Exn → Io W A)
      → f w ≡ (raised e, w1)
      → except_all f handler w ≡ handler e w1
  except_all-raised f {w} handler h = ap (λ r. except_all (λ _. r) handler w) h

  pub finally_do-returned :
      {A : Type 0} (f : Io W A) {w w1 w2 : W} {r : Result A} (last : Io W (Unit {0}))
      → f w ≡ (r, w1)
      → last w1 ≡ (returned tt, w2)
      → finally_do f last w ≡ (r, w2)
  finally_do-returned f {w} {w1} {r} last h k =
      ap (λ q. finally_do (λ _. q) last w) h ∙ ap (λ q. finally_do (λ _. (r, w1)) (λ _. q) w) k

  returned_by :
      {A B : Type 0} (r : Result A × W) (g : A → Io W B) (w w' : W) (b : B)
      → and_then (λ _. r) g w ≡ (returned b, w')
      → (a : A) × (w1 : W) × (r ≡ (returned a, w1)) × (g a w1 ≡ (returned b, w'))
  returned_by (returned a, w1) g w w' b h = (a, w1, refl, h)
  returned_by (raised e, w1) g w w' b h = absurd (cc (ap (λ q. q.0) h))

  -- A chain that returned: so did its first call.
  pub and_then-inversion :
      {A B : Type 0} (f : Io W A) (g : A → Io W B) (w w' : W) (b : B)
      → and_then f g w ≡ (returned b, w')
      → (a : A) × (w1 : W) × (f w ≡ (returned a, w1)) × (g a w1 ≡ (returned b, w'))
  and_then-inversion f g w w' b h = returned_by (f w) g w w' b h
