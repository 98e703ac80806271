-- ===== src/Ir/Validator.antt =====
-- `DNCIRValidator.validate_graph` and `evaluate_conformance_level` of src/dnc/ir/validator.py. An
-- error is its code and what it is about; messages are left out. That ports are `PortContract`s is
-- given by their type.
pub mod EdgeRules
pub mod Sound
mod Dependency
pub mod Context
pub mod Tests
use dynamic_neural_computing.Prelude.{
  ℕ, zero, suc, ◌+◌, Bool, true, false, not, ◌==◌, ◌&&◌, ◌||◌, Option, none, some, is_some, List,
  [], ◌∷◌, ◌++◌, Dict, lookup, contains, any, length, ltb, if◌then◌else◌,
}
use dynamic_neural_computing.Ir.Enums.{
  IdempotencyMode, SideEffectClass, EnforcementTier, minimum, has_maximum, same_type,
}
use dynamic_neural_computing.Ir.Contracts.{
  PortContract, UnitContract, Constraint, ComputationalUnit, nonempty, validate_ports,
  validate_dimensions, is_effectful,
}
use dynamic_neural_computing.Ir.Graph.{Edge, StructuralGraph, same_port}
use dynamic_neural_computing.Ir.Errors.{
  ValidationError, ValidationResult, about_unit, about_edge, error_if, inv_unit_dimension,
  inv_port_id_duplicate, inv_effect_idempotency_required,
  inv_irreversible_effect_duplication_control, inv_port_cardinality, inv_constraint_empty,
  inv_edge_duplicate, inv_edge_source_missing, inv_edge_target_missing, warn_constraint_empty,
}
use dynamic_neural_computing.Ir.Validator.EdgeRules.{
  validate_edge_contract, validate_edge_governance,
}

abbrev pub is_irreversible : SideEffectClass → Bool
is_irreversible SideEffectClass.irreversible = true
is_irreversible _ = false

abbrev pub has_no_mode : IdempotencyMode → Bool
has_no_mode IdempotencyMode.none = true
has_no_mode _ = false

-- `idempotency.mode in {KEY_REQUIRED, AT_MOST_ONCE}`
abbrev pub controls_duplicates : IdempotencyMode → Bool
controls_duplicates IdempotencyMode.key_required = true
controls_duplicates IdempotencyMode.at_most_once = true
controls_duplicates _ = false

-- The body of the first loop over the units.
pub unit_errors : ℕ → ComputationalUnit → List ValidationError
unfolding validate_dimensions validate_ports
unit_errors i u =
    let effects = u.contract.side_effects.classification in
    let mode = u.contract.idempotency in
    error_if (not (validate_dimensions u)) inv_unit_dimension (about_unit i)
    ++ error_if (not (validate_ports u.contract)) inv_port_id_duplicate (about_unit i)
    ++ error_if (is_effectful effects && has_no_mode mode) inv_effect_idempotency_required
        (about_unit i)
    ++ error_if (is_irreversible effects && not (controls_duplicates mode))
        inv_irreversible_effect_duplication_control (about_unit i)

pub all_unit_errors : Dict ComputationalUnit → List ValidationError
unfolding unit_errors
all_unit_errors [] = []
all_unit_errors ((i, u) ∷ units) = unit_errors i u ++ all_unit_errors units

-- The identity of an edge, by which duplicates are found.
pub same_identity : Edge → Edge → Bool
same_identity a b =
    a.source == b.source
    && same_port a.source_port b.source_port
    && a.target == b.target
    && same_port a.target_port b.target_port
    && same_type a.edge_type b.edge_type

-- `_validate_edge_contract` and `_validate_edge_governance`, where both units are there.
pub joined_errors :
    Edge → Option ComputationalUnit → Option ComputationalUnit → List ValidationError
unfolding validate_edge_contract validate_edge_governance
joined_errors e (some source) (some target) =
    validate_edge_contract e source.contract target.contract
    ++ validate_edge_governance e source.contract target.contract
joined_errors e _ _ = []

-- The body of the loop over the edges; `seen` holds the edges before this one.
pub edge_errors : Dict ComputationalUnit → List Edge → Edge → List ValidationError
unfolding same_identity joined_errors
edge_errors units seen e =
    error_if (any (same_identity e) seen) inv_edge_duplicate (about_edge e.source e.target)
    ++ error_if (not (contains e.source units)) inv_edge_source_missing (about_unit e.source)
    ++ error_if (not (contains e.target units)) inv_edge_target_missing (about_unit e.target)
    ++ joined_errors e (lookup e.source units) (lookup e.target units)

pub all_edge_errors : Dict ComputationalUnit → List Edge → List Edge → List ValidationError
unfolding edge_errors
all_edge_errors units seen [] = []
all_edge_errors units seen (e ∷ es) =
    edge_errors units seen e ++ all_edge_errors units (e ∷ seen) es

-- `connection_counts[(uid, port_id)]`
abbrev end_at : ℕ → Option ℕ → ℕ → ℕ → ℕ
end_at u none i p = 0
end_at u (some q) i p = if u == i && q == p then 1 else 0

pub connections : List Edge → ℕ → ℕ → ℕ
connections [] i p = 0
connections (e ∷ es) i p =
    end_at e.source e.source_port i p + end_at e.target e.target_port i p + connections es i p

pub port_count_errors : List Edge → ℕ → List PortContract → List ValidationError
unfolding connections
port_count_errors es i [] = []
port_count_errors es i (p ∷ ps) =
    let count = connections es i p.port_id in
    error_if (ltb count (minimum p.cardinality) || (has_maximum p.cardinality && ltb 1 count))
      inv_port_cardinality (about_unit i)
    ++ port_count_errors es i ps

pub all_count_errors : List Edge → Dict ComputationalUnit → List ValidationError
unfolding port_count_errors
all_count_errors es [] = []
all_count_errors es ((i, u) ∷ units) =
    port_count_errors es i u.contract.ports ++ all_count_errors es units

abbrev of_tier : EnforcementTier → EnforcementTier → Bool
of_tier EnforcementTier.invariant EnforcementTier.invariant = true
of_tier EnforcementTier.constraint EnforcementTier.constraint = true
of_tier EnforcementTier.policy EnforcementTier.policy = true
of_tier _ _ = false

-- The empty expressions of invariants.
pub constraint_errors : ℕ → List Constraint → List ValidationError
constraint_errors i [] = []
constraint_errors i (c ∷ cs) =
    error_if (of_tier c.tier EnforcementTier.invariant && not (is_some c.expression))
      inv_constraint_empty (about_unit i)
    ++ constraint_errors i cs

-- The empty expressions of negotiable constraints.
pub constraint_warnings : ℕ → List Constraint → List ValidationError
constraint_warnings i [] = []
constraint_warnings i (c ∷ cs) =
    (if of_tier c.tier EnforcementTier.constraint && not (is_some c.expression)
      then record {
        tier = EnforcementTier.constraint;
        code = warn_constraint_empty;
        subject = about_unit i;
      }
        ∷ []
      else [])
    ++ constraint_warnings i cs

pub for_units :
    (ℕ → List Constraint → List ValidationError) → Dict ComputationalUnit → List ValidationError
for_units f [] = []
for_units f ((i, u) ∷ units) = f i u.constraints ++ for_units f units

unfoldable pub validate_graph : StructuralGraph → ValidationResult
unfolding all_unit_errors all_edge_errors all_count_errors constraint_errors constraint_warnings
    for_units
validate_graph g =
    let errors =
      all_unit_errors g.units
      ++ all_edge_errors g.units [] g.edges
      ++ all_count_errors g.edges g.units
      ++ for_units constraint_errors g.units in
    record {
      is_valid = length errors == 0;
      errors = errors;
      warnings = for_units constraint_warnings g.units;
    }

pub evaluate_conformance_level : StructuralGraph → ℕ
unfolding validate_graph
evaluate_conformance_level g =
    if not (nonempty g.units) && not (nonempty g.edges)
    then 0
    else if not (validate_graph g).is_valid
    then 0
    else 4
