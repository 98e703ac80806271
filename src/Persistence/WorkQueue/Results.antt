-- ===== src/Persistence/WorkQueue/Results.antt =====
-- The result of a work item is recorded once.
use dynamic_neural_computing.Prelude.{
  Bool, [], ◌∷◌, ◌≢◌, ◌≤◌, ◌<◌, ◌⊎◌, ℕ, Dict, values, insert, find?, or_else, ltb, ◌==◌, ◌&&◌, refl,
  ◌≡◌, sym, ap, ◌∙◌, true, false, none, some, List, All, lookup, ok, raise, arith, inl, inr,
  Bool-cases, Option-cases, lookup-insert, lookup-insert_self, value_error,
}
use dynamic_neural_computing.Persistence.WorkQueue.{
  WorkItem, WorkerResult, WorkQueue, ready, existing_item, submit, submit_by, complete, complete_by,
  complete_first, same_result, grant_lease, expire, lacks_resources, lease, Lease,
}
use dynamic_neural_computing.Persistence.WorkQueue.Calls.{Call, Restores, run, complete_first-eq-ok}
use dynamic_neural_computing.Persistence.WorkQueue.Keeping.{Keeps, run-keeps}

abbrev HasResult : WorkerResult → WorkQueue → Type 0
HasResult r q = lookup r.work_id q.results ≡ some r

HasResult-Keeps : (r : WorkerResult) → Keeps (HasResult r)
unfolding grant_lease expire
HasResult-Keeps r = record {
  on_submit = λ item q h. h;
  on_lease = λ w worker now duration q known h. h;
  on_heartbeat = λ w a l q there same h. h;
  on_complete = λ s l q first there h.
      ground (arith, h, first, lookup-insert r.work_id s.work_id s q.results);
  on_expire = λ w item q there h. h;
}

same_result_refl : (r : WorkerResult) → same_result r r ≡ true
unfolding same_result
same_result_refl r = elim (Bool-cases r.cleanup_complete) [
  | inl yes' ↦ ground arith
  | inr no' ↦ ground arith
]

completed-HasResult :
    (r : WorkerResult) (q : WorkQueue) (q' : WorkQueue)
    → complete r q ≡ ok (true, q')
    → HasResult r q'
unfolding complete complete_by
completed-HasResult r q q' e = elim (Option-cases (lookup r.work_id q.results)) [
  | inr (x, found) ↦ absurd (ground (arith, found, e))
  | inl first ↦
      let went : complete_first r q ≡ ok (true, q') = ground (arith, first, e) in
      let (l, held, _, made) = complete_first-eq-ok r q (true, q') went in
      ap (λ x. lookup r.work_id x.results) (sym made) ∙ lookup-insert_self r.work_id r q.results
]

-- A result that complete accepts stays recorded whatever calls of submit, lease, heartbeat,
-- complete, reconcile and restore follow, where the snapshots restored have it: the same result
-- again returns False and changes nothing, and any other result of that work raises ValueError.
pub complete_once :
    (r : WorkerResult) (q q' : WorkQueue) (after : List Call)
    → complete r q ≡ ok (true, q')
    → All (Restores (λ state. lookup r.work_id state.results ≡ some r)) after
    → (lookup r.work_id (run after q').results ≡ some r)
      × (complete r (run after q') ≡ ok (false, run after q'))
      × ((s : WorkerResult)
          → s.work_id ≡ r.work_id
          → same_result r s ≡ false
          → complete s (run after q') ≡ raise value_error)
unfolding complete complete_by
complete_once r q q' after e rs =
    let there : HasResult r (run after q') =
      run-keeps (HasResult r) (HasResult-Keeps r) after q' rs (completed-HasResult r q q' e) in
    (
      there,
      ground (arith, there, same_result_refl r),
      λ s same differs.
          let found : lookup s.work_id (run after q').results ≡ some r =
            ap (λ w. lookup w (run after q').results) same ∙ there in
          ground (arith, found, differs),
    )

find?-none :
    (p : WorkItem → Bool) (xs : List WorkItem) → All (λ x. p x ≡ false) xs → find? p xs ≡ none
find?-none p [] h = refl
find?-none p (x ∷ xs) h = ground (arith, h.0, find?-none p xs h.1)

-- Another tenant or another idempotency key.
abbrev pub IsOther : WorkItem → WorkItem → Type 0
IsOther item x = (x.tenant_id ≢ item.tenant_id) ⊎ (x.idempotency_key ≢ item.idempotency_key)

others_differ :
    (item : WorkItem) (xs : List WorkItem)
    → All (IsOther item) xs
    → All
        (λ x. (x.tenant_id == item.tenant_id && x.idempotency_key == item.idempotency_key) ≡ false)
        xs
others_differ item [] h = tt
others_differ item (x ∷ xs) h =
    (elim h.0 [ inl n ↦ ground (arith, n) | inr n ↦ ground (arith, n) ], others_differ item xs h.1)

resources_suffice :
    (resources required : Dict ℕ)
    → All (λ (entry : ℕ × ℕ). entry.1 ≤ or_else (lookup entry.0 resources) 0) required
    → lacks_resources resources required ≡ false
unfolding lacks_resources
resources_suffice resources [] h = refl
resources_suffice resources ((k, v) ∷ required) h =
    let rest : lacks_resources resources required ≡ false =
      resources_suffice resources required h.1 in
    let enough : ltb (or_else (lookup k resources) 0) v ≡ false = ground (arith, h.0) in
    ground (arith, rest, enough)

never_accepted :
    (r s : WorkerResult) (q q' : WorkQueue)
    → HasResult r q
    → s.work_id ≡ r.work_id
    → complete s q ≡ ok (true, q')
    → ⊥
unfolding complete complete_by
never_accepted r s q q' h same e =
    let found : lookup s.work_id q.results ≡ some r = ap (λ w. lookup w q.results) same ∙ h in
    elim (Bool-cases (same_result r s)) [
      | inl t ↦ absurd (ground (arith, e, found, t))
      | inr f ↦ absurd (ground (arith, e, found, f))
    ]

-- Work with a result that is submitted again under a tenant and an idempotency key that no item has
-- is accepted, and a worker with the resources can lease it before its deadline; but whatever calls
-- of submit, lease, heartbeat, complete, reconcile and restore follow, where the snapshots restored
-- have the result, no completion of that work is accepted.
pub submit_reopens :
    (item : WorkItem) (r : WorkerResult) (q : WorkQueue) (worker now duration : ℕ)
    (resources : Dict ℕ) (after : List Call)
    → All (IsOther item) (values q.items)
    → r.work_id ≡ item.work_id
    → lookup r.work_id q.results ≡ some r
    → duration ≢ 0
    → now < item.deadline_ns
    → All
        (λ (entry : ℕ × ℕ). entry.1 ≤ or_else (lookup entry.0 resources) 0)
        item.required_resources
    → All (Restores (λ state. lookup r.work_id state.results ≡ some r)) after
    → (q1 : WorkQueue) × (l : Lease) × (q2 : WorkQueue) × (submit item q ≡ ok (true, q1))
      × (lease item.work_id worker now duration resources q1 ≡ ok (l, q2))
      × ((s : WorkerResult) (q3 : WorkQueue)
          → s.work_id ≡ item.work_id
          → complete s (run after q2) ≡ ok (true, q3)
          → ⊥)
unfolding grant_lease
submit_reopens item r q worker now duration resources after new own done some_time in_time able rs =
    let q1 : WorkQueue = record q {
      items = insert item.work_id item q.items;
      statuses = insert item.work_id ready q.statuses;
    } in
    let q2 : WorkQueue = (grant_lease item.work_id worker now duration q1).1 in
    let unknown : existing_item item q ≡ none =
      unfold existing_item in find?-none _ (values q.items) (others_differ item _ new) in
    let item_there : lookup item.work_id q1.items ≡ some item =
      lookup-insert_self item.work_id item q.items in
    let is_ready_now : lookup item.work_id q1.statuses ≡ some ready =
      lookup-insert_self item.work_id ready q.statuses in
    let there : HasResult r (run after q2) =
      run-keeps (HasResult r) (HasResult-Keeps r) after q2 rs done in
    (
      q1,
      (grant_lease item.work_id worker now duration q1).0,
      q2,
      unfold submit submit_by in ap (submit_by item q) unknown,
      unfold lease in
          ground (
            arith,
            item_there,
            is_ready_now,
            some_time,
            in_time,
            resources_suffice resources item.required_resources able,
          ),
      λ s q3 same e. never_accepted r s (run after q2) q3 there (same ∙ sym own) e,
    )
