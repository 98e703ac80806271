-- ===== src/Persistence/WorkQueue/Expiry.antt =====
-- `reconcile`: the leases that have run out are dropped, and no other.
use dynamic_neural_computing.Prelude.{
  ℕ, ◌≡◌, refl, sym, ap, lookup_of_mem, ◌∙◌, true, false, ◌==◌, none, some, List, [], ◌∷◌, ◌++◌,
  leb, Dict, lookup, contains, erase, keys, mem, IsNodup, All, IsNodup-erase, lookup-erase,
  lookup-insert, lookup-absent, Outcome, ok, ◌>>=◌, sorted, mem-sorted, IsSorted, sorted-IsSorted,
  arith, inl, inr, Bool-cases, Option-cases, ==_iff, if◌then◌else◌,
}
use dynamic_neural_computing.Persistence.WorkQueue.{
  WorkStatus, ready, reconciliation_required, WorkItem, Lease, WorkQueue, new_queue, expire,
  expire_one, and_then, expire_all, reconcile,
}
use dynamic_neural_computing.Persistence.WorkQueue.Calls.{Call, Restores, run}
use dynamic_neural_computing.Persistence.WorkQueue.Validity.{IsValid, run-IsValid}

-- The work items whose leases have run out.
pub expired : ℕ → Dict Lease → List ℕ
expired now [] = []
expired now ((w, l) ∷ ls) =
    let rest = expired now ls in if leb l.expires_at_ns now then w ∷ rest else rest

-- What an expired lease leaves of a work item: ready again, or a case for reconciliation.
pub status_after : ℕ → WorkQueue → WorkStatus
status_after w q = elim (lookup w q.items) [
  | none ↦ ready
  | some item ↦ if item.irreversible then reconciliation_required else ready
]

mem-expired :
    (now w : ℕ) (ls : Dict Lease)
    → IsNodup (keys ls)
    → mem w (expired now ls)
      ≡ elim (lookup w ls) [ none ↦ false | some l ↦ leb l.expires_at_ns now ]
unfolding expired
mem-expired now w [] h = refl
mem-expired now w ((v, l) ∷ ls) h =
    ground (arith, mem-expired now w ls h.1, lookup-absent v ls h.0, h.0)

-- What is left of a queue when the leases of these work items were dropped.
pub record IsExpired (ids : List ℕ) (q q' : WorkQueue) : Type 0 where
  pub items_same : q'.items ≡ q.items
  pub leases_left : (w : ℕ) → lookup w q'.leases ≡ (if mem w ids then none else lookup w q.leases)
  pub statuses_left :
      (w : ℕ)
      → lookup w q'.statuses ≡ (if mem w ids then some (status_after w q) else lookup w q.statuses)

none-IsExpired : (q : WorkQueue) → IsExpired [] q q
none-IsExpired q = record { items_same = refl; leases_left = λ w. refl; statuses_left = λ w. refl }

-- One more work item that is dropped first.
expire-IsExpired :
    (w : ℕ) (item : WorkItem) (ids : List ℕ) (q q' : WorkQueue)
    → lookup w q.items ≡ some item
    → IsNodup (keys q.leases)
    → IsExpired ids (expire w item q) q'
    → IsExpired (w ∷ ids) q q'
unfolding expire status_after
expire-IsExpired w item ids q q' found nodup r = record {
  items_same = r.items_same;
  leases_left = λ v.
      let here : lookup v (erase w q.leases) ≡ (if v == w then none else lookup v q.leases) =
        lookup-erase v w q.leases nodup in
      ground (arith, here, r.leases_left v);
  statuses_left = λ v. elim (Bool-cases (v == w)) [
    | inl same ↦
        let met : lookup v q.items ≡ some item =
          ap (λ x. lookup x q.items) ((==_iff v w).0 same) ∙ found in
        ground (
          arith,
          same,
          met,
          r.statuses_left v,
          lookup-insert v w (if item.irreversible then reconciliation_required else ready)
              q.statuses,
        )
    | inr other ↦ ground (
      arith,
      other,
      r.statuses_left v,
      lookup-insert v w (if item.irreversible then reconciliation_required else ready) q.statuses,
    )
  ];
}

and_then-ok :
    (ids rest : List ℕ) (q : WorkQueue) (f : WorkQueue → Outcome (List ℕ) × WorkQueue)
    → (f q).0 ≡ ok rest
    → (and_then (ok ids, q) f).0 ≡ ok (ids ++ rest)
and_then-ok ids rest q f e = ap (λ o. o >>= λ (r : List ℕ). ok (ids ++ r)) e

-- What the loop of `reconcile` leaves, and what it returns.
Expires : List ℕ → WorkQueue → Outcome (List ℕ) × WorkQueue → Type 0
Expires ids q r = (r.0 ≡ ok ids) × IsExpired ids q r.1

expire_all-Expires :
    (now : ℕ) (ls : Dict Lease) (q : WorkQueue)
    → ((w : ℕ) → mem w (keys ls) ≡ true → contains w q.items ≡ true)
    → IsNodup (keys q.leases)
    → Expires (expired now ls) q (expire_all now ls q)
unfolding expire_all expired Expires
expire_all-Expires now [] q known nodup = (refl, none-IsExpired q)
expire_all-Expires now ((w, l) ∷ ls) q known nodup = elim (Bool-cases (leb l.expires_at_ns now)) [
  | inr later ↦
      let one : (ok [], q) ≡ expire_one now (w, l) q = unfold expire_one in ground (arith, later) in
      let (gave, left) = expire_all-Expires now ls q (λ v m. known v (ground (arith, m))) nodup in
      let ids : expired now ls
          ≡ (if leb l.expires_at_ns now then w ∷ expired now ls else expired now ls) =
        ground (arith, later) in
      rw (sym ids, sym one) (and_then-ok [] (expired now ls) q (expire_all now ls) gave, left)
  | inl due ↦ elim (Option-cases (lookup w q.items)) [
    | inl missing ↦ absurd (ground (arith, known w (ground arith), missing))
    | inr (item, found) ↦
        let q1 : WorkQueue = expire w item q in
        let one : (ok (w ∷ []), q1) ≡ expire_one now (w, l) q =
          unfold expire_one in ground (arith, due, found) in
        let (gave, left) =
          expire_all-Expires now ls q1 (λ v m. unfold expire in known v (ground (arith, m)))
            (unfold expire in IsNodup-erase w q.leases nodup) in
        let ids : w ∷ expired now ls
            ≡ (if leb l.expires_at_ns now then w ∷ expired now ls else expired now ls) =
          ground (arith, due) in
        rw (sym ids, sym one)
          (
            and_then-ok (w ∷ []) (expired now ls) q1 (expire_all now ls) gave,
            expire-IsExpired w item (expired now ls) q _ found nodup left,
          )
  ]
]

-- After any calls of submit, lease, heartbeat, complete, reconcile and restore on a new work queue,
-- where only valid snapshots are restored, reconcile raises nothing and returns in order exactly
-- the work items whose leases have run out; their leases are dropped and they are ready again, or
-- need reconciliation where they are irreversible, and every other lease and status and all items
-- stay.
pub reconcile_lem :
    (calls : List Call) (now : ℕ)
    → All (Restores IsValid) calls
    → (ids : List ℕ) × ((reconcile now (run calls new_queue)).0 ≡ ok ids)
      × IsSorted ids
      × ((w : ℕ)
          → mem w ids ≡ elim (lookup w (run calls new_queue).leases) [
            | none ↦ false
            | some l ↦ leb l.expires_at_ns now
          ])
      × IsExpired ids (run calls new_queue) (reconcile now (run calls new_queue)).1
unfolding reconcile Expires
reconcile_lem calls now rs =
    let q : WorkQueue = run calls new_queue in
    let v : IsValid q = run-IsValid calls rs in
    let found : List ℕ = expired now q.leases in
    let (gave, left) =
      expire_all-Expires now q.leases q
        (λ w m. let (l, e) = lookup_of_mem w q.leases m in v.leases_known w l e) v.one_lease in
    (
      sorted found,
      ap (λ o. o >>= λ (ids : List ℕ). ok (sorted ids)) gave,
      sorted-IsSorted found,
      λ w. mem-sorted w found ∙ mem-expired now w q.leases v.one_lease,
      record {
        items_same = left.items_same;
        leases_left = λ w.
            left.leases_left w
            ∙ ap (λ b. if b then none else lookup w q.leases) (sym (mem-sorted w found));
        statuses_left = λ w.
            left.statuses_left w
            ∙ ap (λ b. if b then some (status_after w q) else lookup w q.statuses)
                (sym (mem-sorted w found));
      },
    )
