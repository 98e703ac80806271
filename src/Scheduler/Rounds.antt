-- ===== src/Scheduler/Rounds.antt =====
-- The invariant of the outer loop of Kahn's algorithm: every round keeps it, and the loop ends within
-- its fuel.
use dynamic_neural_computing.Prelude.{
  ℕ, zero, suc, ◌+◌, ◌≤◌, ◌==◌, ◌≡◌, refl, ◌∙◌, sym, ap, subst, true, false, ◌&&◌, ◌||◌, some, List,
  [], ◌∷◌, ◌++◌, append_assoc, Dict, lookup, keys, mem, mem-append, mem-snoc, mem-filter, IsNodup,
  IsNodup-append, IsNodup-filter, IsNodup-apart, length, length-append, length-le_of_subset, filter,
  arith, Bool-cases, inl, inr, ℤ, pos, Outcome, ok, Outcome-cases, ◌>>=◌,
}
use dynamic_neural_computing.Scheduler.{Graph, succs, relax, order_loop, visit_loop}
use dynamic_neural_computing.Scheduler.Degrees.{
  edge, one_if, waiting, waiting-snoc, placed_of_waiting,
}
use dynamic_neural_computing.Scheduler.Kahn.{
  IsOrdered, IsOrdered-snoc, lower, lookup-lower, Counted, relax_lem,
}

-- `order` has been placed, `queue` can be placed next, and the in-degrees `d` count the
-- predecessors that are not placed.
pub record Inv (g : Graph) (d : Dict ℤ) (queue order : List ℕ) : Type 0 where
  pub once : IsNodup (order ++ queue)
  pub nodes : (n : ℕ) → mem n (order ++ queue) ≡ true → mem n (keys g) ≡ true
  pub degrees : (n : ℕ) → mem n (keys g) ≡ true → lookup n d ≡ some (pos (waiting g order n))
  pub ready : (n : ℕ) → mem n (order ++ queue) ≡ true → waiting g order n ≡ 0
  pub found :
      (n : ℕ) → mem n (keys g) ≡ true → waiting g order n ≡ 0 → mem n (order ++ queue) ≡ true
  pub ordered : IsOrdered g [] order

-- What the loop needs of the graph.
pub record IsClosed (g : Graph) : Type 0 where
  pub distinct : IsNodup (keys g)
  pub succs_distinct : (u : ℕ) → IsNodup (succs g u)
  pub closed : (u v : ℕ) → edge g u v ≡ true → mem v (keys g) ≡ true

-- One round of the loop, for the node `n` at the head of the queue.
module _ (g : Graph) (closed : IsClosed g) (d : Dict ℤ) (n : ℕ) (queue order : List ℕ)
    (inv : Inv g d (n ∷ queue) order) where
  abbrev count : ℕ → ℕ
  count = waiting g order

  abbrev freed : List ℕ
  freed = filter (λ v. count v == 1) (succs g n)

  n_new : mem n order ≡ false
  n_new = elim (Bool-cases (mem n order)) [
    | inl old ↦ absurd (ground (arith, IsNodup-apart order (n ∷ queue) n inv.once old))
    | inr new ↦ new
  ]

  n_node : mem n (keys g) ≡ true
  n_node = inv.nodes n (ground (arith, mem-append n order (n ∷ queue)))

  -- Placing `n` takes one off the count of its successors.
  count_drop : (v : ℕ) → waiting g (order ++ n ∷ []) v + one_if (edge g n v) ≡ count v
  count_drop v = waiting-snoc g order n v closed.distinct n_node n_new

  succs-Counted : Counted count (succs g n) d
  succs-Counted v m = (inv.degrees v (closed.closed n v m), ground (arith, count_drop v))

  relax-eq : relax (succs g n) d queue ≡ ok (lower count (succs g n) d, queue ++ freed)
  relax-eq = relax_lem (succs g n) d queue count (closed.succs_distinct n) succs-Counted

  mem-next :
      (v : ℕ)
      → mem v ((order ++ n ∷ []) ++ (queue ++ freed))
        ≡ (mem v (order ++ n ∷ queue) || (edge g n v && count v == 1))
  mem-next v = ground (
    arith,
    mem-append v (order ++ n ∷ []) (queue ++ freed),
    mem-snoc v order n,
    mem-append v queue freed,
    mem-append v order (n ∷ queue),
    mem-filter (λ w. count w == 1) v (succs g n),
  )

  once-next : IsNodup ((order ++ n ∷ []) ++ (queue ++ freed))
  once-next =
      subst IsNodup
        (append_assoc order (n ∷ queue) freed ∙ sym (append_assoc order (n ∷ []) (queue ++ freed)))
        (IsNodup-append (order ++ n ∷ queue) freed inv.once
          (IsNodup-filter (λ v. count v == 1) (succs g n) (closed.succs_distinct n))
          λ v m. ground (arith, inv.ready v m, mem-filter (λ w. count w == 1) v (succs g n)))

  degrees-next :
      (v : ℕ)
      → mem v (keys g) ≡ true
      → lookup v (lower count (succs g n) d) ≡ some (pos (waiting g (order ++ n ∷ []) v))
  degrees-next v m =
      ground (arith, lookup-lower count (succs g n) d v, count_drop v, inv.degrees v m)

  pub next-Inv : Inv g (lower count (succs g n) d) (queue ++ freed) (order ++ n ∷ [])
  next-Inv = record {
    once = once-next;
    nodes = λ v m. ground (arith, mem-next v, inv.nodes v, closed.closed n v);
    degrees = degrees-next;
    ready = λ v m. ground (arith, mem-next v, count_drop v, inv.ready v);
    found = λ v m z. ground (arith, mem-next v, count_drop v, inv.found v);
    ordered = IsOrdered-snoc g [] order n inv.ordered λ u e.
        placed_of_waiting g order u n (inv.ready n (ground (arith, mem-append n order (n ∷ queue))))
          e;
  }

-- With a unit of fuel for each node that is not placed, the loop returns, and the invariant holds
-- with the queue empty.
pub record Finished (g : Graph) (r : Outcome (List ℕ)) : Type 0 where
  pub order : List ℕ
  pub degrees : Dict ℤ
  pub returned : r ≡ ok order
  pub inv : Inv g degrees [] order

pub order_loop-Finished :
    (g : Graph)
    → IsClosed g
    → (fuel : ℕ) (d : Dict ℤ) (queue order : List ℕ) → Inv g d queue order
    → length (keys g) ≤ fuel + length order
    → Finished g (order_loop fuel g d queue order)
unfolding order_loop
order_loop-Finished g closed fuel d [] order inv enough = record {
  order = order;
  degrees = d;
  returned = refl;
  inv = inv;
}
order_loop-Finished g closed zero d (n ∷ queue) order inv enough = absurd (
    omega (
      arith,
      length-append order (n ∷ queue),
      length-le_of_subset (order ++ n ∷ queue) (keys g) inv.once inv.nodes,
    ))
order_loop-Finished g closed (suc fuel) d (n ∷ queue) order inv enough =
    rw (relax-eq g closed d n queue order inv) (
      order_loop-Finished g closed fuel (lower (waiting g order) (succs g n) d)
        (queue ++ filter (λ v. waiting g order v == 1) (succs g n)) (order ++ n ∷ [])
        (next-Inv g closed d n queue order inv) (omega (arith, length-append order (n ∷ []))))

-- The counting loop of `_has_cycle` counts the order that the other loop would build.
pub visit_loop-eq :
    (fuel : ℕ) (g : Graph) (d : Dict ℤ) (queue order : List ℕ) (visited : ℕ)
    → visited ≡ length order
    → visit_loop fuel g d queue visited ≡ (order_loop fuel g d queue order >>= λ r. ok (length r))
unfolding visit_loop order_loop
visit_loop-eq fuel g d [] order visited e = ap ok e
visit_loop-eq zero g d (n ∷ queue) order visited e = refl
visit_loop-eq (suc fuel) g d (n ∷ queue) order visited e =
    elim (Outcome-cases (relax (succs g n) d queue)) [
      | inl ((d', queue'), run) ↦ rw run (
          visit_loop-eq fuel g d' queue' (order ++ n ∷ []) (suc visited)
            (omega (arith, length-append order (n ∷ []))))
      | inr (x, failed) ↦ rw failed refl
    ]
