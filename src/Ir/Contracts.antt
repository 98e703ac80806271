-- ===== src/Ir/Contracts.antt =====
-- src/dnc/ir/contracts.py and src/dnc/ir/unit.py. Strings that are only compared are numbers, and a
-- string that may be empty is an option; so is a schema a number. A set is a list. The fields that no
-- operation modelled here reads (descriptions, pre- and postconditions, limits) are left out.
use dynamic_neural_computing.Prelude.{
  ℕ, Bool, true, false, not, ◌==◌, ◌&&◌, ◌||◌, Option, is_some, List, [], ◌∷◌, mem, map, find?,
}
use dynamic_neural_computing.Ir.Enums.{
  PortDirection, PortKind, PortCardinality, IdempotencyMode, SideEffectClass, IsolationGrade,
  DataClassification, StructureDimension, VisibilityDimension, LifecycleDimension, EnforcementTier,
}

pub record PortContract : Type 0 where
  pub port_id : ℕ
  pub direction : PortDirection
  pub kind : PortKind
  pub schema : ℕ
  pub cardinality : PortCardinality

pub record SideEffectContract : Type 0 where
  pub classification : SideEffectClass
  pub minimum_isolation : IsolationGrade

pub record PlacementContract : Type 0 where
  pub allowed_regions : List ℕ
  pub allowed_devices : List ℕ
  pub allowed_runtimes : List ℕ
  pub required_capabilities : List ℕ
  pub requires_local_inputs : Bool

pub record SecurityContract : Type 0 where
  pub tenant_id : Option ℕ
  pub required_permissions : List ℕ
  pub output_classification : DataClassification
  pub maximum_input_classification : DataClassification
  pub allowed_residencies : List ℕ
  pub trust_zone : Option ℕ
  pub accepted_trust_zones : List ℕ
  pub confidential_compute_required : Bool

pub record UnitContract : Type 0 where
  pub ports : List PortContract
  pub idempotency : IdempotencyMode
  pub side_effects : SideEffectContract
  pub placement : PlacementContract
  pub security : SecurityContract

-- The expression is an option, `none` for the empty string.
pub record Constraint : Type 0 where
  pub constraint_id : ℕ
  pub tier : EnforcementTier
  pub expression : Option ℕ

pub record ComputationalUnit : Type 0 where
  pub unit_id : ℕ
  pub name : ℕ
  pub structure : StructureDimension
  pub visibility : VisibilityDimension
  pub lifecycle : LifecycleDimension
  pub contract : UnitContract
  pub constraints : List Constraint
  pub sub_units : List ℕ

pub record ExecutionContext : Type 0 where
  pub tenant_id : ℕ
  pub permissions : List ℕ
  pub isolation_grade : IsolationGrade
  pub region : Option ℕ
  pub device : Option ℕ
  pub runtime : Option ℕ
  pub capabilities : List ℕ
  pub trust_zone : Option ℕ
  pub confidential_compute : Bool

-- `if xs:` for a list or a set.
abbrev pub nonempty {ℓ} : {A : Type ℓ} → List A → Bool
nonempty [] = false
nonempty (x ∷ xs) = true

-- `len(xs) == len(set(xs))`
unfoldable pub all_distinct : List ℕ → Bool
all_distinct [] = true
all_distinct (x ∷ xs) = not (mem x xs) && all_distinct xs

-- `UnitContract.port`
unfoldable pub port : ℕ → UnitContract → Option PortContract
port i c = find? (λ p. p.port_id == i) c.ports

-- `UnitContract.validate_ports`, for ports that are `PortContract`s.
unfoldable pub validate_ports : UnitContract → Bool
unfolding all_distinct
validate_ports c = all_distinct (map (λ p. p.port_id) c.ports)

abbrev pub is_effectful : SideEffectClass → Bool
is_effectful SideEffectClass.none = false
is_effectful _ = true

-- `UnitContract.requires_execution_context`
pub requires_execution_context : UnitContract → Bool
requires_execution_context c =
    is_effectful c.side_effects.classification
    || nonempty c.placement.allowed_regions
    || nonempty c.placement.allowed_devices
    || nonempty c.placement.allowed_runtimes
    || nonempty c.placement.required_capabilities
    || c.placement.requires_local_inputs
    || is_some c.security.tenant_id
    || nonempty c.security.required_permissions
    || nonempty c.security.allowed_residencies
    || is_some c.security.trust_zone
    || nonempty c.security.accepted_trust_zones
    || c.security.confidential_compute_required

-- `ComputationalUnit.validate_dimensions`
unfoldable pub validate_dimensions : ComputationalUnit → Bool
validate_dimensions u = elim u.structure [
  | StructureDimension.primitive ↦ not (nonempty u.sub_units)
  | StructureDimension.composite ↦ true
]
