-- ===== src/Saga/Guards.antt =====
-- A protected step, a saga with a snapshot and a flow of callables, and the theorems about them applied there.
use spakky_framework.Common.{
  ℕ, ◌+◌, ◌≡◌, ap, refl, false, ◌⊎◌, inl, inr, All, Bool-cases, ltb, arith, List, none, some, [],
  ◌∷◌,
}
use spakky_framework.Effects.{Exn, returned, raised, returned_subst}
use spakky_framework.Auth.Context.{AuthContext}
use spakky_framework.Auth.Metadata.{
  AuthRequirement, permission, Boundary, EffectiveAuthMetadata, get_effective_auth_metadata,
}
use spakky_framework.Auth.Decision.{deny, insufficient_scope}
use spakky_framework.Saga.Flow.{SagaData, Callable, SagaFlow, FlowItem}
use spakky_framework.Saga.Strategy.{ErrorStrategy}
use spakky_framework.Saga.Auth.{
  SagaAuthExecutionContext, verify_snapshot, invocation, authorize_step,
}
use spakky_framework.Saga.Flow.Build.{saga_flow}
use spakky_framework.Saga.Engine.Normalize.{
  NormalizedStep, NormalizedItem, normalize, normalize_item, normalize_function, cons_item,
}
use spakky_framework.Saga.Engine.Promotion.{normalize-saga_flow}
use spakky_framework.Saga.Engine.Steps.{invoke_action, invoke_step_action}
use spakky_framework.Saga.Engine.Protection.{Allowed, invoke_step_action-Allowed}
use spakky_framework.Saga.Engine.Run.{run_saga_flow}
use spakky_framework.Saga.Engine.Carried.{GivesBack, Keeps, ItemKeeps, CarriesOutcome}
use spakky_framework.Saga.Engine.Snapshot.{run_saga_flow-Carries}
use spakky_framework.Saga.Tests.{clock, no_auth, works, breaks, unmarked, step_named, value_or}

abbrev writes : AuthRequirement
writes = record {
  kind = permission;
  ref = "doc:write";
  resource = none;
  action = none;
  tenant = none;
}

abbrev guarded : Boundary
guarded = record {
  is_type = false;
  source = record { public_marker = false; declared = writes ∷ writes ∷ [] };
  self_owner = none;
}

abbrev caller : AuthContext
caller = record {
  subject = record { id = "alice"; display_name = none };
  issuer = "test";
  tenant = none;
  roles = [];
  scopes = [];
  claims = [];
  credential_carrier = none;
  metadata = [];
}

-- Every snapshot is of `caller`, whom the permission checker allows nothing.
abbrev denying : SagaAuthExecutionContext ℕ
denying = record no_auth {
  snapshot_verifier = some (λ envelope inv w. (returned caller, w));
  permission_checker = some (λ request w. (returned (deny insufficient_scope), w));
}

abbrev publish : NormalizedStep ℕ ℕ
publish = record (step_named "publish" works none ErrorStrategy.compensate) {
  auth_boundary = some guarded;
}

abbrev signed : SagaData ℕ
signed = record { saga_id = "s"; auth_context_snapshot = some "envelope"; payload = 0 }

abbrev once : EffectiveAuthMetadata
once = record { public_access = false; requirements = writes ∷ [] }

invoke_step_action-Allowed_example :
    ((e : Exn) × ((authorize_step denying "publish" signed (some guarded) none 7).0 ≡ raised e)
      × (invoke_step_action clock denying publish signed 7
          ≡ (raised e, (authorize_step denying "publish" signed (some guarded) none 7).1)))
    ⊎ ((context : AuthContext) × (w1 : ℕ) × ((verify_snapshot denying
            (some "envelope")
            (invocation "publish" signed)
            7).0
          ≡ returned context)
        × Allowed denying context
            (writes ∷ [])
            (verify_snapshot denying (some "envelope") (invocation "publish" signed) 7).1
            w1
        × (invoke_step_action clock denying publish signed 7
            ≡ invoke_action clock denying works none signed w1))
unfolding get_effective_auth_metadata
invoke_step_action-Allowed_example =
    invoke_step_action-Allowed clock denying publish signed guarded once 7 refl refl refl

-- Gives back new data, without a snapshot.
abbrev renews : Callable ℕ ℕ
renews = record {
  dunder_name = some "renew";
  call = λ d w. (returned (some (record d { auth_context_snapshot = none; payload = 1 })), w + 1);
  object = unmarked;
}

abbrev publication : SagaFlow ℕ ℕ
publication = record {
  items = FlowItem.function renews ∷ FlowItem.function breaks ∷ [];
  saga_timeout = some 50;
  compensation_failure_handler = none;
}

renews-Keeps : Keeps "envelope" renews
renews-Keeps d w w' r h = returned_subst (GivesBack "envelope") (ap (λ q. q.0) h) (inl refl)

breaks-Keeps : Keeps "envelope" breaks
breaks-Keeps d w w' r h = elim (Bool-cases (ltb w 0)) [
  | inl early ↦ absurd (ground (arith, early))
  | inr late ↦ absurd (cc (rw late at h))
]

publication-ItemKeeps :
    (items : List (NormalizedItem ℕ ℕ))
    → normalize publication.items ≡ returned items
    → All (ItemKeeps "envelope") items
unfolding normalize normalize_item normalize_function cons_item
publication-ItemKeeps items h =
    returned_subst (All (ItemKeeps "envelope")) h (renews-Keeps, (breaks-Keeps, tt))

run_saga_flow-Carries_example :
    CarriesOutcome "envelope" (run_saga_flow clock no_auth publication signed 3)
run_saga_flow-Carries_example =
    run_saga_flow-Carries clock no_auth "envelope" publication signed 3 refl publication-ItemKeeps

abbrev callables : List (FlowItem ℕ ℕ)
callables = FlowItem.function works ∷ FlowItem.function breaks ∷ []

normalize-saga_flow_example :
    normalize (value_or publication (saga_flow callables)).items ≡ normalize callables
unfolding saga_flow
normalize-saga_flow_example =
    normalize-saga_flow callables (value_or publication (saga_flow callables)) refl
