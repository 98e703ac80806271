-- ===== src/Persistence/WorkQueue/Fencing.antt =====
-- Fencing tokens: what a worker can still do after its work was leased again.
use dynamic_neural_computing.Prelude.{ℕ, ◌≡◌, ◌≤◌, some, lookup}
use dynamic_neural_computing.Persistence.WorkQueue.{Lease, WorkQueue}
use dynamic_neural_computing.Persistence.WorkQueue.Validity.{IsValid}

-- In a valid queue, no lease of the work item and no later one has a token below the bound.
pub record IsAbove (w bound : ℕ) (q : WorkQueue) : Type 0 where
  pub valid : IsValid q
  pub counter : bound ≤ q.fencing
  pub held : (l : Lease) → lookup w q.leases ≡ some l → bound ≤ l.fencing_token
