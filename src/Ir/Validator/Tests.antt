-- ===== src/Ir/Validator/Tests.antt =====
-- The theorems on the validator at graphs of two units and one edge.
use dynamic_neural_computing.Prelude.{ℕ, ◌≡◌, refl, true, false, lookup, none, some, List, [], ◌∷◌}
use dynamic_neural_computing.Ir.Enums.{
  EdgeType, PortDirection, PortKind, PortCardinality, IdempotencyMode, SideEffectClass,
  IsolationGrade, DataClassification, StructureDimension, VisibilityDimension, LifecycleDimension,
}
use dynamic_neural_computing.Ir.Contracts.{
  ComputationalUnit, ExecutionContext, PortContract, UnitContract,
}
use dynamic_neural_computing.Ir.Graph.{Edge, StructuralGraph}
use dynamic_neural_computing.Ir.Validator.{validate_graph}
use dynamic_neural_computing.Ir.Validator.Context.{
  Admits, validate_execution_context, validate_execution_context-Admits,
}
use dynamic_neural_computing.Ir.Validator.Sound.{EdgesSound, validate_graph-EdgesSound}
use dynamic_neural_computing.Ir.Validator.Dependency.{dependency_untyped}

abbrev pub contract : List PortContract → UnitContract
contract ports = record {
  ports = ports;
  idempotency = IdempotencyMode.none;
  side_effects = record {
    classification = SideEffectClass.none;
    minimum_isolation = IsolationGrade.i0_none;
  };
  placement = record {
    allowed_regions = [];
    allowed_devices = [];
    allowed_runtimes = [];
    required_capabilities = [];
    requires_local_inputs = false;
  };
  security = record {
    tenant_id = none;
    required_permissions = [];
    output_classification = DataClassification.internal;
    maximum_input_classification = DataClassification.internal;
    allowed_residencies = [];
    trust_zone = none;
    accepted_trust_zones = [];
    confidential_compute_required = false;
  };
}

abbrev pub unit_with : ℕ → List PortContract → ComputationalUnit
unit_with i ports = record {
  unit_id = i;
  name = i;
  structure = StructureDimension.primitive;
  visibility = VisibilityDimension.opaque;
  lifecycle = LifecycleDimension.base;
  contract = contract ports;
  constraints = [];
  sub_units = [];
}

abbrev pub port_at : ℕ → PortDirection → PortContract
port_at i way = record {
  port_id = i;
  direction = way;
  kind = PortKind.state;
  schema = 0;
  cardinality = PortCardinality.zero_or_more;
}

abbrev pub joint : Edge
joint = record {
  source = 1;
  target = 2;
  edge_type = EdgeType.state;
  metadata = 0;
  source_port = some 10;
  target_port = some 20;
}

abbrev pub pair : StructuralGraph
pair = record {
  graph_id = 0;
  version = record { major = 1; minor = 0; patch = 0; sequence = 5 };
  units =
      (1, unit_with 1 (port_at 10 PortDirection.output ∷ []))
      ∷ (2, unit_with 2 (port_at 20 PortDirection.input ∷ []))
      ∷ [];
  edges = joint ∷ [];
  retired_unit_ids = 3 ∷ [];
  other_metadata = 0;
}

validate_graph-EdgesSound_example : EdgesSound pair.units [] pair.edges
unfolding validate_graph
validate_graph-EdgesSound_example = validate_graph-EdgesSound pair refl

abbrev local : ExecutionContext
local = record {
  tenant_id = 1;
  permissions = 5 ∷ 4 ∷ [];
  isolation_grade = IsolationGrade.i3_recorded_externals;
  region = some 7;
  device = some 8;
  runtime = some 9;
  capabilities = 11 ∷ 10 ∷ [];
  trust_zone = some 6;
  confidential_compute = true;
}

-- A unit with demands of every kind.
abbrev demanding : ComputationalUnit
demanding = record (unit_with 1 []) {
  contract = record (contract []) {
    side_effects = record {
      classification = SideEffectClass.none;
      minimum_isolation = IsolationGrade.i2_process_local;
    };
    placement = record {
      allowed_regions = 6 ∷ 7 ∷ [];
      allowed_devices = 8 ∷ [];
      allowed_runtimes = 9 ∷ [];
      required_capabilities = 10 ∷ [];
      requires_local_inputs = false;
    };
    security = record {
      tenant_id = some 1;
      required_permissions = 4 ∷ [];
      output_classification = DataClassification.internal;
      maximum_input_classification = DataClassification.internal;
      allowed_residencies = 7 ∷ [];
      trust_zone = some 6;
      accepted_trust_zones = 6 ∷ [];
      confidential_compute_required = true;
    };
  };
}

validate_execution_context-Admits_example : Admits local demanding
unfolding validate_execution_context
validate_execution_context-Admits_example =
    validate_execution_context-Admits (record pair { units = (1, demanding) ∷ [] }) local 1
      demanding refl refl

abbrev dependence : Edge
dependence = record {
  source = 1;
  target = 2;
  edge_type = EdgeType.dependency;
  metadata = 0;
  source_port = none;
  target_port = none;
}

-- Two units without ports.
abbrev plain : StructuralGraph
plain = record pair {
  units = (1, unit_with 1 []) ∷ (2, unit_with 2 []) ∷ [];
  edges = dependence ∷ [];
}

dependency_untyped_example :
    (dependence.source_port ≡ none)
    × (dependence.target_port ≡ none)
    × (s : ComputationalUnit) × (t : ComputationalUnit) × (lookup 1 plain.units ≡ some s)
    × (lookup 2 plain.units ≡ some t)
    × (s.contract.ports ≡ [])
    × (t.contract.ports ≡ [])
unfolding validate_graph
dependency_untyped_example = dependency_untyped plain [] [] dependence refl refl refl
