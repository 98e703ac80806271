-- ===== src/Persistence/WorkQueue/Calls.antt =====
-- The calls of the work queue in any order, and what they keep.
use dynamic_neural_computing.Prelude.{
  ℕ, ◌≡◌, sym, ap, ◌∙◌, Bool, true, ◌==◌, some, List, [], ◌∷◌, Dict, lookup, contains, insert,
  erase, Outcome, ok, raise, >>=-eq-ok, arith, Bool-cases, inl, inr, ==_iff, Option-cases,
}
use dynamic_neural_computing.Persistence.WorkQueue.{
  ready, completed, WorkItem, Lease, WorkerResult, WorkQueue, submit, lease, grant_lease,
  require_lease, heartbeat, complete, complete_first, reconcile, restore,
}

-- A call of `lease` that succeeds was of a known item that was ready, and grants the lease.
pub lease-eq-ok :
    (w worker now duration : ℕ) (resources : Dict ℕ) (q : WorkQueue) (r : Lease × WorkQueue)
    → lease w worker now duration resources q ≡ ok r
    → (contains w q.items ≡ true)
      × (lookup w q.statuses ≡ some ready)
      × (grant_lease w worker now duration q ≡ r)
unfolding lease
lease-eq-ok w worker now duration resources q r e = ground (arith, e)

pub require_lease-eq-ok :
    (w token : ℕ) (q : WorkQueue) (l : Lease)
    → require_lease w token q ≡ ok l
    → (lookup w q.leases ≡ some l) × (l.fencing_token ≡ token)
unfolding require_lease
require_lease-eq-ok w token q l e = elim (Option-cases (lookup w q.leases)) [
  | inl missing ↦ absurd (ground (arith, e, missing))
  | inr (k, held) ↦ elim (Bool-cases (k.fencing_token == token)) [
    | inr other ↦ absurd (ground (arith, e, held, other))
    | inl fits ↦
        let met : ok k ≡ ok l = ground (arith, e, held, fits) in
        let same : k ≡ l = ap (λ o. elim o [ ok x ↦ x | raise y ↦ k ]) met in
        (
          held ∙ ap some same,
          ap (λ m. m.fencing_token) (sym same) ∙ (==_iff k.fencing_token token).0 fits,
        )
  ]
]

-- A heartbeat that succeeds was under the token of the lease, which it renews.
pub heartbeat-eq-ok :
    (w token now duration : ℕ) (q : WorkQueue) (r : Lease × WorkQueue)
    → heartbeat w token now duration q ≡ ok r
    → (l : Lease) × (require_lease w token q ≡ ok l)
      × (r.0.fencing_token ≡ l.fencing_token)
      × (record q { leases = insert w r.0 q.leases } ≡ r.1)
unfolding heartbeat
heartbeat-eq-ok w token now duration q r e =
    let (l, held, rest) = >>=-eq-ok (require_lease w token q) _ e in
    (l, held, ground (arith, rest), ground (arith, rest))

-- A first completion that succeeds was under the token and by the worker of the lease.
pub complete_first-eq-ok :
    (r : WorkerResult) (q : WorkQueue) (a : Bool × WorkQueue)
    → complete_first r q ≡ ok a
    → (l : Lease) × (require_lease r.work_id r.fencing_token q ≡ ok l)
      × (l.worker_id ≡ r.worker_id)
      × (record q {
        results = insert r.work_id r q.results;
        statuses = insert r.work_id completed q.statuses;
        leases = erase r.work_id q.leases;
      }
          ≡ a.1)
unfolding complete_first
complete_first-eq-ok r q a e =
    let (l, held, rest) = >>=-eq-ok (require_lease r.work_id r.fencing_token q) _ e in
    (l, held, ground (arith, rest), ground (arith, rest))

-- The queue that a call leaves: where it raises, the queue as it was.
abbrev pub left_by {ℓ} : {A : Type ℓ} → Outcome (A × WorkQueue) → WorkQueue → WorkQueue
left_by (ok (a, q')) q = q'
left_by (raise e) q = q

pub data Call : Type 0 where
  submits : WorkItem → Call
  leases : (work_id worker_id now duration : ℕ) → Dict ℕ → Call
  beats : (work_id token now duration : ℕ) → Call
  completes : WorkerResult → Call
  reconciles : (now : ℕ) → Call
  restores : WorkQueue → Call

unfoldable pub perform : Call → WorkQueue → WorkQueue
perform (submits item) q = left_by (submit item q) q
perform (leases w worker now duration resources) q =
    left_by (lease w worker now duration resources q) q
perform (beats w token now duration) q = left_by (heartbeat w token now duration q) q
perform (completes r) q = left_by (complete r q) q
perform (reconciles now) q = (reconcile now q).1
perform (restores state) q = elim (restore state q) [ ok q' ↦ q' | raise e ↦ q ]

-- A call that is no restore, or one of a snapshot with the property.
abbrev pub Restores : (WorkQueue → Type 0) → Call → Type 0
Restores P (restores state) = P state
Restores P _ = Unit

-- The calls one after the other, whether they raise or not.
unfoldable pub run : List Call → WorkQueue → WorkQueue
unfolding perform
run [] q = q
run (c ∷ cs) q = run cs (perform c q)
