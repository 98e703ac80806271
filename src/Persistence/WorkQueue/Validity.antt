-- ===== src/Persistence/WorkQueue/Validity.antt =====
-- What the operations of the work queue keep.
use dynamic_neural_computing.Prelude.{
  ℕ, suc, ◌≡◌, ◌≤◌, refl, sym, ap, ◌∙◌, true, some, List, [], ◌∷◌, Dict, lookup, contains, insert,
  erase, keys, mem, IsNodup, All, ok, arith, inl, inr, insert_cases, before_erase,
  contains-insert_shared, lookup-insert, IsNodup-insert, IsNodup-erase, lookup_of_mem,
}
use dynamic_neural_computing.Persistence.WorkQueue.Calls.{Call, Restores, run}
use dynamic_neural_computing.Persistence.WorkQueue.Keeping.{Keeps, run-keeps}
use dynamic_neural_computing.Persistence.WorkQueue.{
  snapshot, restore, known_in, WorkStatus, ready, leased, completed, WorkItem, Lease, WorkerResult,
  WorkQueue, new_queue, grant_lease, expire,
}

-- Every work item has a status and no other has one, leases and results are of work items, a work
-- item has one lease at most, no token is above the counter, and no two leases share a token.
pub record IsValid (q : WorkQueue) : Type 0 where
  pub tracked : (w : ℕ) → contains w q.statuses ≡ contains w q.items
  pub leases_known : (w : ℕ) (l : Lease) → lookup w q.leases ≡ some l → contains w q.items ≡ true
  pub results_known :
      (w : ℕ) (r : WorkerResult) → lookup w q.results ≡ some r → contains w q.items ≡ true
  pub one_lease : IsNodup (keys q.leases)
  pub bounded : (w : ℕ) (l : Lease) → lookup w q.leases ≡ some l → l.fencing_token ≤ q.fencing
  pub apart :
      (v w : ℕ) (k l : Lease)
      → lookup v q.leases ≡ some k
      → lookup w q.leases ≡ some l
      → k.fencing_token ≡ l.fencing_token
      → v ≡ w

new_queue-IsValid : IsValid new_queue
unfolding new_queue
new_queue-IsValid = record {
  tracked = λ w. refl;
  leases_known = λ w l e. absurd (ground (arith, e));
  results_known = λ w r e. absurd (ground (arith, e));
  one_lease = tt;
  bounded = λ w l e. absurd (ground (arith, e));
  apart = λ v w k l e f g. absurd (ground (arith, e));
}

-- A lease under a token that no other work item has.
put_lease-IsValid :
    (w bound : ℕ) (a : Lease) (statuses : Dict WorkStatus) (q : WorkQueue)
    → ((x : ℕ) → contains x statuses ≡ contains x q.items)
    → contains w q.items ≡ true
    → q.fencing ≤ bound
    → a.fencing_token ≤ bound
    → ((x : ℕ) (l : Lease) → lookup x q.leases ≡ some l → a.fencing_token ≡ l.fencing_token → w ≡ x)
    → IsValid q
    → IsValid (record q { fencing = bound; leases = insert w a q.leases; statuses = statuses })
put_lease-IsValid w bound a statuses q same known more low only v = record {
  tracked = same;
  leases_known = λ x l e. elim (insert_cases x w a l q.leases e) [
    | inl (here, _) ↦ ap (λ y. contains y q.items) here ∙ known
    | inr old ↦ v.leases_known x l old
  ];
  results_known = v.results_known;
  one_lease = IsNodup-insert w a q.leases v.one_lease;
  bounded = λ x l e. elim (insert_cases x w a l q.leases e) [
    | inl (_, new) ↦ omega (arith, ap (λ m. m.fencing_token) new)
    | inr old ↦ omega (arith, v.bounded x l old)
  ];
  apart = λ x y k l e f g. elim (insert_cases x w a k q.leases e) [
    | inl (here, new) ↦ elim (insert_cases y w a l q.leases f) [
      | inl (there, _) ↦ here ∙ sym there
      | inr old ↦ here ∙ only y l old (ap (λ m. m.fencing_token) new ∙ g)
    ]
    | inr old ↦ elim (insert_cases y w a l q.leases f) [
      | inl (there, new) ↦ sym (there ∙ only x k old (ap (λ m. m.fencing_token) new ∙ sym g))
      | inr old' ↦ v.apart x y k l old old' g
    ]
  ];
}

-- The lease of a work item is dropped.
drop_lease-IsValid :
    (w : ℕ) (s : WorkStatus) (results : Dict WorkerResult) (q : WorkQueue)
    → contains w q.items ≡ true
    → ((x : ℕ) (r : WorkerResult) → lookup x results ≡ some r → contains x q.items ≡ true)
    → IsValid q
    → IsValid (record q {
      results = results;
      statuses = insert w s q.statuses;
      leases = erase w q.leases;
    })
drop_lease-IsValid w s results q known rs v = record {
  tracked = contains-insert_shared w s q.statuses q.items known v.tracked;
  leases_known = λ x l e. v.leases_known x l (before_erase x w l q.leases v.one_lease e);
  results_known = rs;
  one_lease = IsNodup-erase w q.leases v.one_lease;
  bounded = λ x l e. v.bounded x l (before_erase x w l q.leases v.one_lease e);
  apart = λ x y k l e f.
      v.apart x y k l (before_erase x w k q.leases v.one_lease e)
        (before_erase y w l q.leases v.one_lease f);
}

-- A new item, or one that is written over.
put_item-IsValid :
    (item : WorkItem) (q : WorkQueue)
    → IsValid q
    → IsValid (record q {
      items = insert item.work_id item q.items;
      statuses = insert item.work_id ready q.statuses;
    })
put_item-IsValid item q v =
    let w : ℕ = item.work_id in
    let more : (x : ℕ) → contains x q.items ≡ true → contains x (insert w item q.items) ≡ true =
      λ x h. ground (arith, lookup-insert x w item q.items, h) in
    record {
      tracked = λ x.
          ground (
            arith,
            lookup-insert x w ready q.statuses,
            lookup-insert x w item q.items,
            v.tracked x,
          );
      leases_known = λ x l e. more x (v.leases_known x l e);
      results_known = λ x r e. more x (v.results_known x r e);
      one_lease = v.one_lease;
      bounded = v.bounded;
      apart = v.apart;
    }

pub IsValid-Keeps : Keeps IsValid
unfolding grant_lease expire
IsValid-Keeps = record {
  on_submit = put_item-IsValid;
  on_lease = λ w worker now duration q known v.
      put_lease-IsValid w (suc q.fencing) (grant_lease w worker now duration q).0
        (insert w leased q.statuses) q
        (contains-insert_shared w leased q.statuses q.items known v.tracked) known (omega arith)
        (omega arith) (λ x l e same. absurd (omega (arith, same, v.bounded x l e))) v;
  on_heartbeat = λ w a l q held same v.
      put_lease-IsValid w q.fencing a q.statuses q v.tracked (v.leases_known w l held) (omega arith)
        (omega (arith, same, v.bounded w l held))
        (λ x m f token. v.apart w x l m held f (sym same ∙ token)) v;
  on_complete = λ r l q first held v.
      let known : contains r.work_id q.items ≡ true = v.leases_known r.work_id l held in
      drop_lease-IsValid r.work_id completed (insert r.work_id r q.results) q known
        (λ x s f. elim (insert_cases x r.work_id r s q.results f) [
          | inl (here, _) ↦ ap (λ y. contains y q.items) here ∙ known
          | inr old ↦ v.results_known x s old
        ])
        v;
  on_expire = λ w item q held v.
      drop_lease-IsValid w _ q.results q (ground (arith, held)) v.results_known v;
}

known_in_all :
    {A : Type 0} {B : Type 0} (d : Dict A) (e : Dict B)
    → ((w : ℕ) → mem w (keys d) ≡ true → contains w e ≡ true)
    → known_in d e ≡ true
known_in_all [] e h = refl
known_in_all ((k, v) ∷ d) e h = ground (arith, h k, known_in_all d e (λ w m. h w (ground arith)))

known_in-lookup :
    {A : Type 0} {B : Type 0} (d : Dict A) (e : Dict B)
    → ((w : ℕ) (a : A) → lookup w d ≡ some a → contains w e ≡ true)
    → known_in d e ≡ true
known_in-lookup d e h = known_in_all d e λ w m. let (a, found) = lookup_of_mem w d m in h w a found

-- After any calls of submit, lease, heartbeat, complete, reconcile and restore on a new work queue,
-- where what follows holds of every snapshot that is restored, the work items are those that have a
-- status, leases and results are of work items, a work item has one lease at most, no token is
-- above the counter, and no two leases share a token.
pub run-IsValid : (calls : List Call) → All (Restores IsValid) calls → IsValid (run calls new_queue)
run-IsValid calls rs = run-keeps IsValid IsValid-Keeps calls new_queue rs new_queue-IsValid

pub restore-snapshot :
    (calls : List Call) (other : WorkQueue)
    → All (Restores IsValid) calls
    → restore (snapshot (run calls new_queue)) other ≡ ok (run calls new_queue)
unfolding restore snapshot
restore-snapshot calls other rs =
    let q : WorkQueue = run calls new_queue in
    let v : IsValid q = run-IsValid calls rs in
    ground (
      arith,
      known_in-lookup q.statuses q.items (λ w a f. ground (arith, v.tracked w, f)),
      known_in-lookup q.items q.statuses (λ w a f. ground (arith, v.tracked w, f)),
      known_in-lookup q.leases q.items v.leases_known,
      known_in-lookup q.results q.items v.results_known,
    )
