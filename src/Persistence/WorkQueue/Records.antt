-- ===== src/Persistence/WorkQueue/Records.antt =====
-- The records of the work queue, in src/dnc/persistence/contracts.py, and their equality.
use dynamic_neural_computing.Prelude.{
  ℕ, Bool, true, false, not, ◌==◌, ◌&&◌, none, some, [], ◌∷◌, Dict, lookup,
}

pub data WorkStatus : Type 0 where
  ready leased completed failed reconciliation_required : WorkStatus

abbrev pub is_ready : WorkStatus → Bool
is_ready ready = true
is_ready _ = false

pub record WorkItem : Type 0 where
  pub work_id : ℕ
  pub tenant_id : ℕ
  pub task_id : ℕ
  pub action_id : ℕ
  pub expected_aggregate_version : ℕ
  pub capability : ℕ
  pub isolation_grade : ℕ
  pub deadline_ns : ℕ
  pub retry_class : ℕ
  pub idempotency_key : ℕ
  pub trace_id : ℕ
  pub policy_labels : ℕ
  pub artifact_refs : ℕ
  pub required_resources : Dict ℕ
  pub irreversible : Bool

pub record Lease : Type 0 where
  pub work_id : ℕ
  pub worker_id : ℕ
  pub fencing_token : ℕ
  pub expires_at_ns : ℕ
  pub heartbeat_at_ns : ℕ

pub record WorkerResult : Type 0 where
  pub work_id : ℕ
  pub worker_id : ℕ
  pub fencing_token : ℕ
  pub output_ref : ℕ
  pub effect_ids : ℕ
  pub cleanup_complete : Bool
  pub fingerprint : ℕ

pub record WorkQueue : Type 0 where
  pub items : Dict WorkItem
  pub statuses : Dict WorkStatus
  pub leases : Dict Lease
  pub results : Dict WorkerResult
  pub fencing : ℕ

-- The entries of one dict are entries of the other.
abbrev pub entries_in : Dict ℕ → Dict ℕ → Bool
entries_in [] e = true
entries_in ((k, v) ∷ d) e = elim (lookup k e) [ none ↦ false | some w ↦ v == w ] && entries_in d e

abbrev pub same_flag : Bool → Bool → Bool
same_flag true b = b
same_flag false b = not b

-- The `==` of the dataclasses.
unfoldable pub same_item : WorkItem → WorkItem → Bool
same_item a b =
    a.work_id == b.work_id
    && a.tenant_id == b.tenant_id
    && a.task_id == b.task_id
    && a.action_id == b.action_id
    && a.expected_aggregate_version == b.expected_aggregate_version
    && a.capability == b.capability
    && a.isolation_grade == b.isolation_grade
    && a.deadline_ns == b.deadline_ns
    && a.retry_class == b.retry_class
    && a.idempotency_key == b.idempotency_key
    && a.trace_id == b.trace_id
    && a.policy_labels == b.policy_labels
    && a.artifact_refs == b.artifact_refs
    && entries_in a.required_resources b.required_resources
    && entries_in b.required_resources a.required_resources
    && same_flag a.irreversible b.irreversible

unfoldable pub same_result : WorkerResult → WorkerResult → Bool
same_result a b =
    a.work_id == b.work_id
    && a.worker_id == b.worker_id
    && a.fencing_token == b.fencing_token
    && a.output_ref == b.output_ref
    && a.effect_ids == b.effect_ids
    && same_flag a.cleanup_complete b.cleanup_complete
    && a.fingerprint == b.fingerprint
