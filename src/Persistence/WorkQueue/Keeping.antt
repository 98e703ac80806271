-- ===== src/Persistence/WorkQueue/Keeping.antt =====
-- A property that every write to the work queue keeps, and that the calls keep then.
use dynamic_neural_computing.Prelude.{
  ℕ, ◌≡◌, refl, subst, Bool, true, false, Option, none, some, List, [], ◌∷◌, leb, Dict, lookup,
  contains, insert, erase, Outcome, ok, raise, if◌then◌else◌, arith, key_error, All,
}
use dynamic_neural_computing.Persistence.WorkQueue.{
  ready, completed, WorkItem, Lease, WorkerResult, WorkQueue, submit, submit_by, existing_item,
  lease, grant_lease, heartbeat, complete, complete_by, complete_first, expire, expire_one,
  and_then, expire_all, reconcile, restore,
}
use dynamic_neural_computing.Persistence.WorkQueue.Calls.{
  lease-eq-ok, require_lease-eq-ok, heartbeat-eq-ok, complete_first-eq-ok, left_by, Call, submits,
  leases, beats, completes, reconciles, restores, perform, Restores, run,
}

-- What every write to the queue keeps, with what the code has tested before it.
pub record Keeps (P : WorkQueue → Type 0) : Type 0 where
  pub on_submit :
      (item : WorkItem) (q : WorkQueue)
      → P q
      → P (record q {
        items = insert item.work_id item q.items;
        statuses = insert item.work_id ready q.statuses;
      })
  pub on_lease :
      (w worker now duration : ℕ) (q : WorkQueue)
      → contains w q.items ≡ true
      → P q
      → P (grant_lease w worker now duration q).1
  pub on_heartbeat :
      (w : ℕ) (a l : Lease) (q : WorkQueue)
      → lookup w q.leases ≡ some l
      → a.fencing_token ≡ l.fencing_token
      → P q
      → P (record q { leases = insert w a q.leases })
  pub on_complete :
      (r : WorkerResult) (l : Lease) (q : WorkQueue)
      → lookup r.work_id q.results ≡ none
      → lookup r.work_id q.leases ≡ some l
      → P q
      → P (record q {
        results = insert r.work_id r q.results;
        statuses = insert r.work_id completed q.statuses;
        leases = erase r.work_id q.leases;
      })
  pub on_expire :
      (w : ℕ) (item : WorkItem) (q : WorkQueue)
      → lookup w q.items ≡ some item
      → P q
      → P (expire w item q)

module _ (P : WorkQueue → Type 0) where
  left_by-keeps :
      {A : Type 0} (m : Outcome (A × WorkQueue)) (q : WorkQueue)
      → ((r : A × WorkQueue) → m ≡ ok r → P r.1)
      → P q
      → P (left_by m q)
  left_by-keeps (ok (a, q')) q k h = k (a, q') refl
  left_by-keeps (raise e) q k h = h

  submit-keeps : Keeps P → (item : WorkItem) (q : WorkQueue) → P q → P (left_by (submit item q) q)
  unfolding submit submit_by
  submit-keeps k item q h = ended (existing_item item q)
    where
      ended : (o : Option WorkItem) → P (left_by (submit_by item q o) q)
      ended none = k.on_submit item q h
      ended (some x) =
          left_by-keeps (submit_by item q (some x)) q
            (λ r e. let made : q ≡ r.1 = ground (arith, e) in subst P made h) h

  lease-keeps :
      Keeps P
      → (w worker now duration : ℕ) (resources : Dict ℕ) (q : WorkQueue) → P q
      → P (left_by (lease w worker now duration resources q) q)
  lease-keeps k w worker now duration resources q h =
      left_by-keeps (lease w worker now duration resources q) q
        (λ r e.
          let (known, _, made) = lease-eq-ok w worker now duration resources q r e in
          subst (λ (x : Lease × WorkQueue). P x.1) made
            (k.on_lease w worker now duration q known h))
        h

  heartbeat-keeps :
      Keeps P
      → (w token now duration : ℕ) (q : WorkQueue) → P q
      → P (left_by (heartbeat w token now duration q) q)
  heartbeat-keeps k w token now duration q h =
      left_by-keeps (heartbeat w token now duration q) q
        (λ r e.
          let (l, held, same, made) = heartbeat-eq-ok w token now duration q r e in
          subst P made (k.on_heartbeat w r.0 l q (require_lease-eq-ok w token q l held).0 same h))
        h

  complete-keeps : Keeps P → (r : WorkerResult) (q : WorkQueue) → P q → P (left_by (complete r q) q)
  unfolding complete complete_by
  complete-keeps k r q h = ended (lookup r.work_id q.results) refl
    where
      ended :
          (o : Option WorkerResult)
          → lookup r.work_id q.results ≡ o
          → P (left_by (complete_by r q o) q)
      ended (some x) first =
          left_by-keeps (complete_by r q (some x)) q
            (λ a e. let made : q ≡ a.1 = ground (arith, e) in subst P made h) h
      ended none first =
          left_by-keeps (complete_first r q) q
            (λ a e.
              let (l, held, _, made) = complete_first-eq-ok r q a e in
              subst P made (
                k.on_complete r l q first (require_lease-eq-ok r.work_id r.fencing_token q l held).0
                  h))
            h

  expire_one-keeps :
      Keeps P → (now w : ℕ) (l : Lease) (q : WorkQueue) → P q → P (expire_one now (w, l) q).1
  unfolding expire_one
  expire_one-keeps k now w l q h = by_test (leb l.expires_at_ns now) (lookup w q.items) refl
    where
      by_test :
          (b : Bool) (o : Option WorkItem)
          → lookup w q.items ≡ o
          → P (
              (if b
                then elim o as (λ x. Outcome (List ℕ) × WorkQueue) [
                  | none ↦ (raise key_error, q)
                  | some item ↦ (ok (w ∷ []), expire w item q)
                ]
                else (ok [], q)).1)
      by_test false o e = h
      by_test true none e = h
      by_test true (some item) e = k.on_expire w item q e h

  and_then-keeps :
      (r : Outcome (List ℕ) × WorkQueue) (f : WorkQueue → Outcome (List ℕ) × WorkQueue)
      → P r.1
      → ((q : WorkQueue) → P q → P (f q).1)
      → P (and_then r f).1
  and_then-keeps (raise e, q) f h k = h
  and_then-keeps (ok ids, q) f h k = k q h

  expire_all-keeps :
      Keeps P → (now : ℕ) (ls : Dict Lease) (q : WorkQueue) → P q → P (expire_all now ls q).1
  unfolding expire_all
  expire_all-keeps k now [] q h = h
  expire_all-keeps k now ((w, l) ∷ ls) q h =
      and_then-keeps (expire_one now (w, l) q) (expire_all now ls) (expire_one-keeps k now w l q h)
        (expire_all-keeps k now ls)

  restore-keeps : (state q : WorkQueue) → P state → P q → P (perform (restores state) q)
  unfolding perform restore
  restore-keeps state q k h = by_outcome (restore state q) (λ s e. subst P (ground (arith, e)) k)
    where
      by_outcome :
          (o : Outcome WorkQueue)
          → ((s : WorkQueue) → o ≡ ok s → P s)
          → P (elim o as (λ x. WorkQueue) [ ok q' ↦ q' | raise e ↦ q ])
      by_outcome (ok s) f = f s refl
      by_outcome (raise e) f = h

  perform-keeps : Keeps P → (c : Call) (q : WorkQueue) → Restores P c → P q → P (perform c q)
  unfolding perform reconcile
  perform-keeps k (submits item) q r h = submit-keeps k item q h
  perform-keeps k (leases w worker now duration resources) q r h =
      lease-keeps k w worker now duration resources q h
  perform-keeps k (beats w token now duration) q r h = heartbeat-keeps k w token now duration q h
  perform-keeps k (completes result) q r h = complete-keeps k result q h
  perform-keeps k (reconciles now) q r h = expire_all-keeps k now q.leases q h
  perform-keeps k (restores state) q r h = restore-keeps state q r h

  pub run-keeps :
      Keeps P → (cs : List Call) (q : WorkQueue) → All (Restores P) cs → P q → P (run cs q)
  unfolding run
  run-keeps k [] q rs h = h
  run-keeps k (c ∷ cs) q rs h = run-keeps k cs (perform c q) rs.1 (perform-keeps k c q rs.0 h)
