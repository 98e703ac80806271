-- ===== src/Enterprise/Tests.antt =====
-- Runs of the log of audit records and of the authorizer.
use dynamic_neural_computing.Prelude.{
  ℕ, ◌+◌, ◌≡◌, ◌↔◌, refl, Bool, true, false, some, [], ◌∷◌, fetch, raise, value_error, inl,
}
use dynamic_neural_computing.Enterprise.Audit.{
  AuditRecord, AuditLog, new_log, append, appends, purges, run, perform, record_stays,
}
use dynamic_neural_computing.Enterprise.Security.{
  WorkloadIdentity, AuthorizationRequest, Approval, authorize, IsAuthorized, authorize_iff,
}

abbrev entry : Bool → ℕ → AuditRecord
entry held i = record {
  record_id = i;
  tenant_id = 1;
  event = 2;
  payload = 3;
  created_at_ns = 0;
  retain_until_ns = 20;
  legal_hold = held;
}

-- A redaction that changes the payload.
abbrev redact : ℕ → ℕ
redact payload = payload + 100

abbrev two_entries : AuditLog
two_entries = run redact (appends (entry true 5) ∷ appends (entry false 6) ∷ []) new_log

entry_there : fetch 1 5 two_entries.records ≡ some (record (entry true 5) { payload = 103 })
unfolding run perform append new_log
entry_there = refl

record_stays_example :
    (fetch 1 5 (run redact (purges 30 ∷ []) two_entries).records
      ≡ some (record (entry true 5) { payload = 103 }))
    × ((x : AuditRecord)
        → x.tenant_id ≡ 1
        → x.record_id ≡ 5
        → append redact x (run redact (purges 30 ∷ []) two_entries) ≡ raise value_error)
record_stays_example =
    record_stays redact (purges 30 ∷ []) 1 5 (record (entry true 5) { payload = 103 }) two_entries
      entry_there (inl refl, tt)

abbrev identity : WorkloadIdentity
identity = record {
  subject = 1;
  tenant_id = 2;
  roles = 3 ∷ [];
  attributes = (4, 5) ∷ [];
  issued_at_ns = 0;
  expires_at_ns = 50;
  credential_ref = 6;
}

abbrev request : AuthorizationRequest
request = record {
  tenant_id = 2;
  action = 7;
  resource = 8;
  required_roles = 3 ∷ [];
  required_attributes = (4, 5) ∷ [];
  high_impact = true;
}

abbrev approval : Approval
approval = record {
  approval_id = 9;
  tenant_id = 2;
  action = 7;
  resource = 8;
  approver_subject = 10;
  expires_at_ns = 40;
  approver_roles = 11 ∷ [];
}

authorize_iff_example :
    ((authorize 11 20 identity request (some approval)).0 ≡ true)
    ↔ IsAuthorized 11 20 identity request (some approval)
authorize_iff_example = authorize_iff 11 20 identity request (some approval)
