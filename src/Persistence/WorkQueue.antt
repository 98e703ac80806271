-- ===== src/Persistence/WorkQueue.antt =====
-- `DurableWorkQueue` of src/dnc/persistence/workers.py, with the records of
-- src/dnc/persistence/contracts.py. Strings, sets and tuples that are only compared are numbers, and
-- so are times and the amounts of resources. An operation that raises leaves the queue as it was, but
-- for `reconcile`, which returns the queue that it leaves.
mod Records
pub mod Calls
pub mod Keeping
pub mod Validity
pub mod Fencing
pub mod Results
pub mod Expiry
mod Tests
unfoldable pub use Records.*
use dynamic_neural_computing.Prelude.{
  ℕ, suc, ◌+◌, Bool, true, false, not, ◌==◌, ◌&&◌, ◌||◌, Option, none, some, List, [], ◌∷◌, ◌++◌,
  find?, all, any, leb, ltb, Dict, lookup, contains, insert, erase, keys, values, or_else, Outcome,
  ok, raise, ◌>>=◌, require, value_error, timeout_error, key_error, sorted, if◌then◌else◌,
}

-- `DurableWorkQueue()`
pub new_queue : WorkQueue
new_queue = record { items = []; statuses = []; leases = []; results = []; fencing = 0 }

-- The item that has the tenant and the idempotency key of another one.
pub existing_item : WorkItem → WorkQueue → Option WorkItem
existing_item item q =
    find? (λ v. v.tenant_id == item.tenant_id && v.idempotency_key == item.idempotency_key)
      (values q.items)

-- `submit`, by the item that is found.
pub submit_by : WorkItem → WorkQueue → Option WorkItem → Outcome (Bool × WorkQueue)
unfolding same_item
submit_by item q (some existing) =
    if not (same_item existing item) then raise value_error else ok (false, q)
submit_by item q none = ok (
  true,
  record q {
    items = insert item.work_id item q.items;
    statuses = insert item.work_id ready q.statuses;
  },
)

pub submit : WorkItem → WorkQueue → Outcome (Bool × WorkQueue)
unfolding existing_item submit_by
submit item q = submit_by item q (existing_item item q)

-- `any(resources.get(key, 0) < value for key, value in ...)`
pub lacks_resources : Dict ℕ → Dict ℕ → Bool
lacks_resources resources [] = false
lacks_resources resources ((k, v) ∷ required) =
    ltb (or_else (lookup k resources) 0) v || lacks_resources resources required

-- The lease itself, once every check is passed.
pub grant_lease : ℕ → ℕ → ℕ → ℕ → WorkQueue → Lease × WorkQueue
grant_lease work_id worker_id now duration q =
    let granted : Lease = record {
      work_id = work_id;
      worker_id = worker_id;
      fencing_token = suc q.fencing;
      expires_at_ns = now + duration;
      heartbeat_at_ns = now;
    } in
    (
      granted,
      record q {
        fencing = suc q.fencing;
        leases = insert work_id granted q.leases;
        statuses = insert work_id leased q.statuses;
      },
    )

pub lease : ℕ → ℕ → ℕ → ℕ → Dict ℕ → WorkQueue → Outcome (Lease × WorkQueue)
unfolding lacks_resources grant_lease
lease work_id worker_id now duration resources q = require (lookup work_id q.items) >>= λ item.
    if duration == 0
    then raise value_error
    else require (lookup work_id q.statuses) >>= λ status.
        if not (is_ready status)
        then raise value_error
        else if leb item.deadline_ns now
        then raise timeout_error
        else if lacks_resources resources item.required_resources
        then raise value_error
        else ok (grant_lease work_id worker_id now duration q)

-- `_require_lease`
pub require_lease : ℕ → ℕ → WorkQueue → Outcome Lease
require_lease work_id token q = elim (lookup work_id q.leases) [
  | none ↦ raise value_error
  | some l ↦ if not (l.fencing_token == token) then raise value_error else ok l
]

pub heartbeat : ℕ → ℕ → ℕ → ℕ → WorkQueue → Outcome (Lease × WorkQueue)
unfolding require_lease
heartbeat work_id token now duration q = require_lease work_id token q >>= λ l.
    if duration == 0
    then raise value_error
    else if leb l.expires_at_ns now
    then raise timeout_error
    else let renewed : Lease = record {
      work_id = work_id;
      worker_id = l.worker_id;
      fencing_token = l.fencing_token;
      expires_at_ns = now + duration;
      heartbeat_at_ns = now;
    } in
      ok (renewed, record q { leases = insert work_id renewed q.leases })

-- The part of `complete` for work without a result.
pub complete_first : WorkerResult → WorkQueue → Outcome (Bool × WorkQueue)
unfolding require_lease
complete_first r q = require_lease r.work_id r.fencing_token q >>= λ l.
    if not (l.worker_id == r.worker_id)
    then raise value_error
    else ok (
      true,
      record q {
        results = insert r.work_id r q.results;
        statuses = insert r.work_id completed q.statuses;
        leases = erase r.work_id q.leases;
      },
    )

-- `complete`, by the result that is found.
pub complete_by : WorkerResult → WorkQueue → Option WorkerResult → Outcome (Bool × WorkQueue)
unfolding same_result complete_first
complete_by r q (some previous) =
    if not (same_result previous r) then raise value_error else ok (false, q)
complete_by r q none = complete_first r q

pub complete : WorkerResult → WorkQueue → Outcome (Bool × WorkQueue)
unfolding complete_by
complete r q = complete_by r q (lookup r.work_id q.results)

-- A lease that has run out: the work is ready again, unless its effects cannot be undone.
pub expire : ℕ → WorkItem → WorkQueue → WorkQueue
expire work_id item q = record q {
  statuses =
      insert work_id (if item.irreversible then reconciliation_required else ready) q.statuses;
  leases = erase work_id q.leases;
}

-- One lease that `reconcile` found.
pub expire_one : ℕ → ℕ × Lease → WorkQueue → Outcome (List ℕ) × WorkQueue
unfolding expire
expire_one now (work_id, l) q =
    if leb l.expires_at_ns now
    then elim (lookup work_id q.items) [
      | none ↦ (raise key_error, q)
      | some item ↦ (ok (work_id ∷ []), expire work_id item q)
    ]
    else (ok [], q)

-- What comes after a call that may have raised, on the queue that the call left.
abbrev pub and_then :
    Outcome (List ℕ) × WorkQueue
    → (WorkQueue → Outcome (List ℕ) × WorkQueue)
    → Outcome (List ℕ) × WorkQueue
and_then (raise e, q) f = (raise e, q)
and_then (ok ids, q) f = ((f q).0 >>= λ rest. ok (ids ++ rest), (f q).1)

-- The loop of `reconcile` over the leases that it found.
pub expire_all : ℕ → Dict Lease → WorkQueue → Outcome (List ℕ) × WorkQueue
unfolding expire_one
expire_all now [] q = (ok [], q)
expire_all now (entry ∷ ls) q = and_then (expire_one now entry q) (expire_all now ls)

pub reconcile : ℕ → WorkQueue → Outcome (List ℕ) × WorkQueue
unfolding expire_all sorted
reconcile now q =
    let (changed, q') = expire_all now q.leases q in (changed >>= λ ids. ok (sorted ids), q')

pub status : ℕ → WorkQueue → Outcome WorkStatus
status work_id q = require (lookup work_id q.statuses)

-- A snapshot is a copy, and a queue is a value.
pub snapshot : WorkQueue → WorkQueue
snapshot q = q

-- `set(xs) <= set(ys)`
abbrev pub known_in {ℓ κ} : {A : Type ℓ} {B : Type κ} → Dict A → Dict B → Bool
known_in [] e = true
known_in ((k, v) ∷ d) e = contains k e && known_in d e

pub restore : WorkQueue → WorkQueue → Outcome WorkQueue
restore state q =
    if not (known_in state.statuses state.items && known_in state.items state.statuses)
      || not (known_in state.leases state.items)
      || not (known_in state.results state.items)
    then raise value_error
    else ok state
