-- ===== src/Persistence/WorkQueue/Tests.antt =====
-- Runs of the work queue.
use dynamic_neural_computing.Prelude.{
  All, inr, values, ℕ, ◌≡◌, refl, true, false, none, some, List, [], ◌∷◌, leb, lookup, mem,
  IsSorted, ok, raise, value_error, arith,
}
use dynamic_neural_computing.Persistence.WorkQueue.{
  WorkItem, Lease, WorkerResult, WorkQueue, new_queue, submit, submit_by, existing_item, same_item,
  lease, grant_lease, lacks_resources, require_lease, complete, complete_by, complete_first,
  same_result, expire, expire_one, expire_all, reconcile,
}
use dynamic_neural_computing.Persistence.WorkQueue.Calls.{
  Call, submits, leases, reconciles, completes, run, perform,
}
use dynamic_neural_computing.Persistence.WorkQueue.Validity.{IsValid, run-IsValid}
use dynamic_neural_computing.Persistence.WorkQueue.Results.{complete_once, IsOther, submit_reopens}
use dynamic_neural_computing.Persistence.WorkQueue.Expiry.{IsExpired, reconcile_lem}

abbrev item : WorkItem
item = record {
  work_id = 7;
  tenant_id = 1;
  task_id = 2;
  action_id = 3;
  expected_aggregate_version = 0;
  capability = 4;
  isolation_grade = 5;
  deadline_ns = 100;
  retry_class = 0;
  idempotency_key = 9;
  trace_id = 11;
  policy_labels = 0;
  artifact_refs = 0;
  required_resources = (6, 2) ∷ [];
  irreversible = false;
}

abbrev first_result : WorkerResult
first_result = record {
  work_id = 7;
  worker_id = 21;
  fencing_token = 2;
  output_ref = 31;
  effect_ids = 0;
  cleanup_complete = true;
  fingerprint = 41;
}

-- A lease that ran out, and the work that is ready again.
abbrev first_calls : List Call
first_calls = submits item ∷ leases 7 20 5 10 ((6, 4) ∷ []) ∷ reconciles 15 ∷ []

abbrev second_lease : Lease
second_lease = record {
  work_id = 7;
  worker_id = 21;
  fencing_token = 2;
  expires_at_ns = 30;
  heartbeat_at_ns = 20;
}

abbrev second_queue : WorkQueue
second_queue = (grant_lease 7 21 20 10 (run first_calls new_queue)).1

abbrev done_queue : WorkQueue
done_queue = run (completes first_result ∷ []) second_queue

completed_now : complete first_result second_queue ≡ ok (true, done_queue)
unfolding new_queue submit submit_by existing_item same_item lease grant_lease lacks_resources
    expire expire_one expire_all reconcile run perform require_lease complete complete_by
    complete_first same_result
completed_now = refl

complete_once_example :
    (lookup 7 (run (reconciles 50 ∷ []) done_queue).results ≡ some first_result)
    × (complete first_result (run (reconciles 50 ∷ []) done_queue)
        ≡ ok (false, run (reconciles 50 ∷ []) done_queue))
    × ((s : WorkerResult)
        → s.work_id ≡ 7
        → same_result first_result s ≡ false
        → complete s (run (reconciles 50 ∷ []) done_queue) ≡ raise value_error)
complete_once_example =
    complete_once first_result second_queue done_queue (reconciles 50 ∷ []) completed_now (tt, tt)

run-IsValid_example : IsValid (run first_calls new_queue)
run-IsValid_example = run-IsValid first_calls (tt, (tt, (tt, tt)))

abbrev leased_calls : List Call
leased_calls = submits item ∷ leases 7 20 5 10 ((6, 4) ∷ []) ∷ []

reconcile_lem_example :
    (ids : List ℕ) × ((reconcile 15 (run leased_calls new_queue)).0 ≡ ok ids)
    × IsSorted ids
    × ((w : ℕ)
        → mem w ids ≡ elim (lookup w (run leased_calls new_queue).leases) [
          | none ↦ false
          | some l ↦ leb l.expires_at_ns 15
        ])
    × IsExpired ids (run leased_calls new_queue) (reconcile 15 (run leased_calls new_queue)).1
reconcile_lem_example = reconcile_lem leased_calls 15 (tt, (tt, tt))

-- The finished work under another idempotency key.
abbrev second_item : WorkItem
second_item = record item { idempotency_key = 10 }

only_first : All (IsOther second_item) (values done_queue.items)
unfolding new_queue submit submit_by existing_item same_item lease grant_lease lacks_resources
    expire expire_one expire_all reconcile run perform require_lease complete complete_by
    complete_first same_result
only_first = (inr (ground arith), tt)

result_there : lookup 7 done_queue.results ≡ some first_result
unfolding new_queue submit submit_by existing_item same_item lease grant_lease lacks_resources
    expire expire_one expire_all reconcile run perform require_lease complete complete_by
    complete_first same_result
result_there = refl

submit_reopens_example :
    (q1 : WorkQueue) × (l : Lease) × (q2 : WorkQueue) × (submit second_item done_queue
      ≡ ok (true, q1))
    × (lease 7 22 30 10 ((6, 4) ∷ []) q1 ≡ ok (l, q2))
    × ((s : WorkerResult) (q3 : WorkQueue)
        → s.work_id ≡ 7
        → complete s (run (reconciles 90 ∷ []) q2) ≡ ok (true, q3)
        → ⊥)
submit_reopens_example =
    submit_reopens second_item first_result done_queue 22 30 10 ((6, 4) ∷ []) (reconciles 90 ∷ [])
      only_first refl result_there (ground arith) (omega arith) (omega arith, tt) (tt, tt)
