-- ===== src/Ir/Errors.antt =====
-- The errors and results of src/dnc/ir/validator.py.
use dynamic_neural_computing.Prelude.{ℕ, Bool, List, [], ◌∷◌, if◌then◌else◌}
use dynamic_neural_computing.Ir.Enums.{EnforcementTier}

pub data ErrorCode : Type 0 where
  inv_unit_dimension inv_port_id_duplicate inv_effect_idempotency_required : ErrorCode
  inv_irreversible_effect_duplication_control inv_port_cardinality inv_constraint_empty : ErrorCode
  inv_edge_duplicate inv_edge_source_missing inv_edge_target_missing : ErrorCode
  inv_edge_port_binding_incomplete inv_edge_port_binding_required inv_edge_port_missing : ErrorCode
  inv_edge_port_direction inv_edge_port_kind inv_edge_schema_mismatch : ErrorCode
  inv_edge_tenant_mismatch inv_edge_classification_downgrade inv_edge_residency_conflict : ErrorCode
  inv_edge_trust_zone_denied inv_edge_locality_conflict warn_constraint_empty : ErrorCode
  ctx_tenant_mismatch ctx_permission_missing ctx_isolation_insufficient : ErrorCode
  ctx_region_denied ctx_device_denied ctx_runtime_denied ctx_capability_missing : ErrorCode
  ctx_trust_zone_denied ctx_unit_trust_zone_mismatch ctx_residency_denied : ErrorCode
  ctx_confidential_compute_required : ErrorCode

-- `target_id`: a unit, or an edge as `source->target`.
pub data Subject : Type 0 where
  about_unit : ℕ → Subject
  about_edge : ℕ → ℕ → Subject

pub record ValidationError : Type 0 where
  pub tier : EnforcementTier
  pub code : ErrorCode
  pub subject : Subject

pub record ValidationResult : Type 0 where
  pub is_valid : Bool
  pub errors : List ValidationError
  pub warnings : List ValidationError

-- `if failed: errors.append(...)`
abbrev pub error_if : Bool → ErrorCode → Subject → List ValidationError
error_if failed c s =
    if failed then record { tier = EnforcementTier.invariant; code = c; subject = s } ∷ [] else []
