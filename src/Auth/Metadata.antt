-- ===== src/Auth/Metadata.antt =====
-- core/spakky-auth/src/spakky/auth/metadata.py: the requirements of a protected boundary. What
-- Python reads off an object by reflection (the annotations on it, on its owner class) is given
-- as an `AuthSource`.
use spakky_framework.Common.{
  ℕ, String, ◌≡◌, ◌↔◌, Bool, true, not, ◌&&◌, Option, none, some, List, [], ◌∷◌, ◌++◌, arith, any,
  contains, is_empty, PyEq, ◌==◌, if◌then◌else◌, string_has_eq, option_has_eq, nat_eq,
  option_eq_iff, eq_iff,
}
use spakky_framework.Effects.{Result, returned, raised, conflicting_auth_metadata}

pub data AuthRequirementKind : Type 0 where
  authenticated permission policy relation role scope : AuthRequirementKind

pub record AuthRequirement : Type 0 where
  pub kind : AuthRequirementKind
  pub ref : String
  pub resource : Option String
  pub action : Option String
  pub tenant : Option String

-- The annotations on one object: `PublicAccess`, and each `ProtectedRequirement` in order.
pub record AuthSource : Type 0 where
  pub public_marker : Bool
  pub declared : List AuthRequirement

-- An object at a boundary. `self_owner` is what `_owner_type` finds through `__self__`.
pub record Boundary : Type 0 where
  pub is_type : Bool
  pub source : AuthSource
  pub self_owner : Option AuthSource

pub record EffectiveAuthMetadata : Type 0 where
  pub public_access : Bool
  pub requirements : List AuthRequirement

abbrev pub protected : EffectiveAuthMetadata → Bool
protected m = not (is_empty m.requirements)

-- `==` of the frozen dataclass: all fields.
abbrev kind_code : AuthRequirementKind → ℕ
kind_code authenticated = 0
kind_code permission = 1
kind_code policy = 2
kind_code relation = 3
kind_code role = 4
kind_code scope = 5

abbrev requirement_eq : AuthRequirement → AuthRequirement → Bool
requirement_eq a b =
    nat_eq (kind_code a.kind) (kind_code b.kind)
    && a.ref == b.ref
    && a.resource == b.resource
    && a.action == b.action
    && a.tenant == b.tenant

kind_code-injective : (a b : AuthRequirementKind) → kind_code a ≡ kind_code b → a ≡ b
kind_code-injective a b h = ground arith

pub requirement_eq_iff : (a b : AuthRequirement) → (requirement_eq a b ≡ true) ↔ (a ≡ b)
requirement_eq_iff a b = ground (
  arith,
  kind_code-injective a.kind b.kind,
  eq_iff a.ref b.ref,
  option_eq_iff a.resource b.resource,
  option_eq_iff a.action b.action,
  option_eq_iff a.tenant b.tenant,
)

instance abbrev pub requirement_has_eq : PyEq AuthRequirement
requirement_has_eq = record { same = requirement_eq; same_iff = requirement_eq_iff }

pub dedupe_from : List AuthRequirement → List AuthRequirement → List AuthRequirement
dedupe_from ordered [] = ordered
dedupe_from ordered (r ∷ rest) =
    dedupe_from (if contains r ordered then ordered else ordered ++ (r ∷ [])) rest

-- `seen` holds the same elements as `ordered`.
unfoldable pub dedupe_requirements : List AuthRequirement → List AuthRequirement
unfolding dedupe_from contains
dedupe_requirements = dedupe_from []

pub owned_sources : AuthSource → Option AuthSource → List AuthSource
owned_sources source none = source ∷ []
owned_sources source (some owner) = owner ∷ source ∷ []

pub resolve_owner : Option AuthSource → Option AuthSource → Option AuthSource
resolve_owner none found = found
resolve_owner (some owner) _ = some owner

unfoldable pub metadata_sources : Boundary → Option AuthSource → List AuthSource
unfolding owned_sources resolve_owner
metadata_sources obj owner_type =
    if obj.is_type
    then obj.source ∷ []
    else owned_sources obj.source (resolve_owner owner_type obj.self_owner)

declared_by : List AuthSource → List AuthRequirement
declared_by [] = []
declared_by (source ∷ sources) = source.declared ++ declared_by sources

unfoldable pub get_effective_auth_metadata :
    Boundary → Option AuthSource → Result EffectiveAuthMetadata
unfolding metadata_sources any dedupe_requirements declared_by
get_effective_auth_metadata obj owner_type =
    let sources = metadata_sources obj owner_type in
    let public = any (λ s. s.public_marker) sources in
    let requirements = dedupe_requirements (declared_by sources) in
    if public && not (is_empty requirements)
    then raised conflicting_auth_metadata
    else returned (record { public_access = public; requirements = requirements })
