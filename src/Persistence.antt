-- ===== src/Persistence.antt =====
-- src/dnc/persistence: the queue of durable work with its fenced leases, and the repository of
-- events with its outbox and inbox.
pub mod WorkQueue
pub mod Repository
