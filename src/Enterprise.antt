-- ===== src/Enterprise.antt =====
-- src/dnc/enterprise: the log of audit records and the register of data assets (operations.py), and
-- the authorization of requests with quotas and kill switches (security.py).
pub mod Audit
pub mod Governance
pub mod Security
mod Tests
