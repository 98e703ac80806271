-- ===== src/Ir/Validator/EdgeRules.antt =====
-- `_validate_edge_contract` and `_validate_edge_governance` of src/dnc/ir/validator.py, for the two
-- units that an edge joins.
use dynamic_neural_computing.Prelude.{
  ℕ, Bool, true, false, not, ◌==◌, ◌&&◌, ◌||◌, Option, none, some, List, [], ◌++◌, mem, any, ltb,
  if◌then◌else◌,
}
use dynamic_neural_computing.Ir.Enums.{
  PortDirection, edge_value, kind_value, carries_data, data_rank,
}
use dynamic_neural_computing.Ir.Contracts.{PortContract, UnitContract, nonempty, port}
use dynamic_neural_computing.Ir.Graph.{Edge}
use dynamic_neural_computing.Ir.Errors.{
  ValidationError, about_edge, error_if, inv_edge_port_binding_incomplete,
  inv_edge_port_binding_required, inv_edge_port_missing, inv_edge_port_direction,
  inv_edge_port_kind, inv_edge_schema_mismatch, inv_edge_tenant_mismatch,
  inv_edge_classification_downgrade, inv_edge_residency_conflict, inv_edge_trust_zone_denied,
  inv_edge_locality_conflict,
}

abbrev pub is_output : PortDirection → Bool
is_output PortDirection.output = true
is_output PortDirection.input = false

-- `a.isdisjoint(b)`
abbrev pub disjoint : List ℕ → List ℕ → Bool
disjoint xs ys = not (any (λ x. mem x ys) xs)

-- `source_values and target_values and source_values.isdisjoint(target_values)`
abbrev pub conflict : List ℕ → List ℕ → Bool
conflict xs ys = nonempty xs && nonempty ys && disjoint xs ys

-- The checks of two ports that are bound to each other.
unfoldable pub port_pair_errors : Edge → PortContract → PortContract → List ValidationError
port_pair_errors e out in_port =
    let about = about_edge e.source e.target in
    error_if (not (is_output out.direction) || is_output in_port.direction) inv_edge_port_direction
      about
    ++ error_if
        (not (kind_value out.kind == edge_value e.edge_type)
          || not (kind_value in_port.kind == edge_value e.edge_type))
        inv_edge_port_kind about
    ++ error_if (not (out.schema == in_port.schema)) inv_edge_schema_mismatch about

unfoldable pub bound_port_errors :
    Edge → Option PortContract → Option PortContract → List ValidationError
unfolding port_pair_errors
bound_port_errors e (some out) (some in_port) = port_pair_errors e out in_port
bound_port_errors e _ _ = error_if true inv_edge_port_missing (about_edge e.source e.target)

-- By the two port names of the edge.
unfoldable pub port_errors :
    Edge → UnitContract → UnitContract → Option ℕ → Option ℕ → List ValidationError
unfolding bound_port_errors port
port_errors e source target (some p) (some q) = bound_port_errors e (port p source) (port q target)
port_errors e source target none none =
    error_if (nonempty source.ports || nonempty target.ports) inv_edge_port_binding_required
      (about_edge e.source e.target)
port_errors e source target _ _ =
    error_if true inv_edge_port_binding_incomplete (about_edge e.source e.target)

unfoldable pub validate_edge_contract : Edge → UnitContract → UnitContract → List ValidationError
unfolding port_errors
validate_edge_contract e source target = port_errors e source target e.source_port e.target_port

-- Both are given and differ.
abbrev pub tenants_differ : Option ℕ → Option ℕ → Bool
tenants_differ (some a) (some b) = not (a == b)
tenants_differ _ _ = false

abbrev pub zone_denied : Option ℕ → List ℕ → Bool
zone_denied none accepted = false
zone_denied (some z) accepted = nonempty accepted && not (mem z accepted)

unfoldable pub validate_edge_governance : Edge → UnitContract → UnitContract → List ValidationError
validate_edge_governance e source target =
    let about = about_edge e.source e.target in
    let s = source.security in
    let t = target.security in
    let here = source.placement in
    let there = target.placement in
    error_if (tenants_differ s.tenant_id t.tenant_id) inv_edge_tenant_mismatch about
    ++ error_if
        (carries_data e.edge_type
          && ltb (data_rank t.maximum_input_classification) (data_rank s.output_classification))
        inv_edge_classification_downgrade about
    ++ error_if (conflict s.allowed_residencies t.allowed_residencies) inv_edge_residency_conflict
        about
    ++ error_if (zone_denied s.trust_zone t.accepted_trust_zones) inv_edge_trust_zone_denied about
    ++ (if there.requires_local_inputs
        then error_if (conflict here.allowed_regions there.allowed_regions)
            inv_edge_locality_conflict about
          ++ error_if (conflict here.allowed_devices there.allowed_devices)
              inv_edge_locality_conflict about
          ++ error_if (conflict here.allowed_runtimes there.allowed_runtimes)
              inv_edge_locality_conflict about
        else [])
