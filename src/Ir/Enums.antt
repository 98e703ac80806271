-- ===== src/Ir/Enums.antt =====
-- The enumerations of src/dnc/ir and src/dnc/kernel/contracts.py, with the ranks and the limits that
-- their properties give. `DATA` is spelled `dataflow`, since `data` is a reserved word.
use dynamic_neural_computing.Prelude.{ℕ, Bool, true, false, ◌==◌}

pub data EdgeType : Type 0 where
  dataflow control state dependency resource : EdgeType

pub data PortDirection : Type 0 where
  input output : PortDirection

pub data PortKind : Type 0 where
  dataflow control state resource : PortKind

pub data PortCardinality : Type 0 where
  exactly_one zero_or_one one_or_more zero_or_more : PortCardinality

pub data IdempotencyMode : Type 0 where
  none idempotent key_required at_most_once : IdempotencyMode

pub data SideEffectClass : Type 0 where
  none reversible compensatable irreversible : SideEffectClass

pub data IsolationGrade : Type 0 where
  i0_none i1_graph_only i2_process_local i3_recorded_externals i4_sandboxed_environment :
      IsolationGrade

pub data DataClassification : Type 0 where
  public internal confidential restricted : DataClassification

pub data StructureDimension : Type 0 where
  primitive composite : StructureDimension

pub data VisibilityDimension : Type 0 where
  opaque inspectable : VisibilityDimension

pub data LifecycleDimension : Type 0 where
  base specialized : LifecycleDimension

pub data EnforcementTier : Type 0 where
  invariant constraint policy : EnforcementTier

-- The values of `EdgeType` and `PortKind`, which are compared across the two.
abbrev pub edge_value : EdgeType → ℕ
edge_value EdgeType.dataflow = 0
edge_value EdgeType.control = 1
edge_value EdgeType.state = 2
edge_value EdgeType.dependency = 3
edge_value EdgeType.resource = 4

abbrev pub kind_value : PortKind → ℕ
kind_value PortKind.dataflow = 0
kind_value PortKind.control = 1
kind_value PortKind.state = 2
kind_value PortKind.resource = 4

abbrev pub same_type : EdgeType → EdgeType → Bool
same_type a b = edge_value a == edge_value b

-- `edge_type.value in {"DATA", "STATE", "RESOURCE"}`
abbrev pub carries_data : EdgeType → Bool
carries_data EdgeType.control = false
carries_data EdgeType.dependency = false
carries_data _ = true

-- `PortCardinality.minimum`
abbrev pub minimum : PortCardinality → ℕ
minimum exactly_one = 1
minimum one_or_more = 1
minimum _ = 0

-- `PortCardinality.maximum` is 1 or None.
abbrev pub has_maximum : PortCardinality → Bool
has_maximum exactly_one = true
has_maximum zero_or_one = true
has_maximum _ = false

-- `IsolationGrade.rank` and `DataClassification.rank`
abbrev pub isolation_rank : IsolationGrade → ℕ
isolation_rank i0_none = 0
isolation_rank i1_graph_only = 1
isolation_rank i2_process_local = 2
isolation_rank i3_recorded_externals = 3
isolation_rank i4_sandboxed_environment = 4

abbrev pub data_rank : DataClassification → ℕ
data_rank public = 0
data_rank internal = 1
data_rank confidential = 2
data_rank restricted = 3
