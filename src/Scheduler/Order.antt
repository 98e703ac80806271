-- ===== src/Scheduler/Order.antt =====
-- What `_has_cycle` and `get_dispatch_order` return.
use dynamic_neural_computing.Prelude.{
  ℕ, zero, suc, ◌<◌, ◌==◌, ◌≡◌, refl, ◌∙◌, sym, ap, subst, Bool, true, false, not, ◌⊎◌, Option,
  none, some, List, [], ◌∷◌, append-nil, Dict, lookup, keys, mem, IsNodup, IsSubset, bool_ext,
  length, length-le_of_subset, subset_of_length, if◌then◌else◌, arith, Bool-cases, inl, inr, ℤ,
  is_zero, ok, raise, dag_cycle, lookup-absent,
}
use dynamic_neural_computing.Scheduler.{
  Graph, Scheduler, sources, order_loop, cycle_test, has_cycle, compute_order,
}
use dynamic_neural_computing.Scheduler.Degrees.{edge, waiting_of_placed}
use dynamic_neural_computing.Scheduler.Building.{IsValid}
use dynamic_neural_computing.Scheduler.Kahn.{IsOrdered}
use dynamic_neural_computing.Scheduler.Rounds.{
  Inv, IsClosed, Finished, order_loop-Finished, visit_loop-eq,
}

abbrev zero_at : Option ℤ → Bool
zero_at none = false
zero_at (some k) = is_zero k

mem-sources : (d : Dict ℤ) (n : ℕ) → IsNodup (keys d) → mem n (sources d) ≡ zero_at (lookup n d)
unfolding sources
mem-sources [] n h = refl
mem-sources ((m, k) ∷ d) n h = ground (arith, mem-sources d n h.1, lookup-absent m d h.0)

IsNodup-sources : (d : Dict ℤ) → IsNodup (keys d) → IsNodup (sources d)
unfolding sources
IsNodup-sources [] h = tt
IsNodup-sources ((m, k) ∷ d) h =
    ground (arith, IsNodup-sources d h.1, mem-sources d m h.1, lookup-absent m d h.0)

length-keys : {V : Type 0} (d : Dict V) → length (keys d) ≡ length d
length-keys [] = refl
length-keys (e ∷ d) = ap suc (length-keys d)

module _ (s : Scheduler) (valid : IsValid s) where
  closed : IsClosed s.graph
  closed = record {
    distinct = valid.distinct;
    succs_distinct = valid.succs_distinct;
    closed = valid.closed;
  }

  start_distinct : IsNodup (keys s.in_degree)
  start_distinct = rw valid.same_keys valid.distinct

  source_node : (n : ℕ) → mem n (sources s.in_degree) ≡ true → mem n (keys s.graph) ≡ true
  source_node n m = elim (Bool-cases (mem n (keys s.in_degree))) [
    | inl there ↦ rw (← valid.same_keys) there
    | inr absent ↦ absurd (
        ground
          (arith, mem-sources s.in_degree n start_distinct, lookup-absent n s.in_degree absent))
  ]

  start-Inv : Inv s.graph s.in_degree (sources s.in_degree) []
  start-Inv = record {
    once = IsNodup-sources s.in_degree start_distinct;
    nodes = source_node;
    degrees = valid.degrees;
    ready = λ n m.
        ground (arith, mem-sources s.in_degree n start_distinct, valid.degrees n (source_node n m));
    found = λ n m z. ground (arith, mem-sources s.in_degree n start_distinct, valid.degrees n m);
    ordered = tt;
  }

  length-nodes : length (keys s.graph) ≡ length s.in_degree
  length-nodes = ap length (sym valid.same_keys) ∙ length-keys s.in_degree

  finished :
      Finished s.graph
        (order_loop (length s.in_degree) s.graph s.in_degree (sources s.in_degree) [])
  finished =
      order_loop-Finished s.graph closed (length s.in_degree) s.in_degree (sources s.in_degree) []
        start-Inv (omega (arith, length-nodes))

  placed_once : IsNodup finished.order
  placed_once = rw append-nil at finished.inv.once

  placed_nodes : (n : ℕ) → mem n finished.order ≡ true → mem n (keys s.graph) ≡ true
  placed_nodes n m = finished.inv.nodes n (rw append-nil m)

  -- Where the nodes can be ranked along the edges, the loop places all of them.
  placed_of_rank :
      (rank : ℕ → ℕ)
      → ((u v : ℕ) → edge s.graph u v ≡ true → rank u < rank v)
      → (k n : ℕ) → rank n < k
      → mem n (keys s.graph) ≡ true
      → mem n finished.order ≡ true
  placed_of_rank rank ranked zero n h m = elim h [ ]
  placed_of_rank rank ranked (suc k) n h m = rw append-nil at (
      finished.inv.found n m (
        waiting_of_placed s.graph finished.order n valid.distinct
          λ u mu e. placed_of_rank rank ranked k u (omega (arith, ranked u n e)) mu))

  compute_order-eq :
      compute_order s
      ≡ (if length finished.order == length s.in_degree then ok finished.order else raise dag_cycle)
  unfolding compute_order
  compute_order-eq = rw finished.returned refl

cycle_test-eq :
    (g : Graph) (d : Dict ℤ) (order : List ℕ)
    → order_loop (length d) g d (sources d) [] ≡ ok order
    → cycle_test g d ≡ ok (not (length order == length d))
unfolding cycle_test order_loop sources
cycle_test-eq g [] order e = ground arith
cycle_test-eq g (x ∷ d) order e =
    rw (visit_loop-eq (length (x ∷ d)) g (x ∷ d) (sources (x ∷ d)) [] 0 refl) (rw e refl)

-- A list in which each node stands behind its predecessors, and which holds each node once.
pub record IsTopological (g : Graph) (order : List ℕ) : Type 0 where
  pub once : IsNodup order
  pub same_nodes : (n : ℕ) → mem n order ≡ mem n (keys g)
  pub ordered : IsOrdered g [] order

module _ (s : Scheduler) (valid : IsValid s) where
  has_cycle-eq : has_cycle s ≡ ok (not (length (finished s valid).order == length s.in_degree))
  unfolding has_cycle
  has_cycle-eq =
      cycle_test-eq s.graph s.in_degree (finished s valid).order (finished s valid).returned

  -- On a valid scheduler, an order that the computation of the dispatch order returns holds each
  -- node of the graph once and no other, with every edge going forward.
  pub compute_order-IsTopological :
      (order : List ℕ) → compute_order s ≡ ok order → IsTopological s.graph order
  compute_order-IsTopological order e = elim (Bool-cases (length f.order == length s.in_degree)) [
    | inl full ↦
        let same : f.order ≡ order = ground (arith, compute_order-eq s valid) in
        subst (IsTopological s.graph) same (record {
          once = placed_once s valid;
          same_nodes = λ n. bool_ext (placed_nodes s valid n) (all_placed full n);
          ordered = f.inv.ordered;
        })
    | inr short ↦ absurd (ground (arith, compute_order-eq s valid))
  ]
    where
      f :
          Finished s.graph
            (order_loop (length s.in_degree) s.graph s.in_degree (sources s.in_degree) [])
      f = finished s valid

      all_placed : (length f.order == length s.in_degree) ≡ true → IsSubset (keys s.graph) f.order
      all_placed full =
          subset_of_length f.order (keys s.graph) (placed_once s valid) (placed_nodes s valid)
            (ground (arith, length-nodes s valid))

  -- Nodes that can be ranked along the edges have an order.
  pub compute_order_of_rank :
      (rank : ℕ → ℕ)
      → ((u v : ℕ) → edge s.graph u v ≡ true → rank u < rank v)
      → (has_cycle s ≡ ok false) × ((order : List ℕ) × (compute_order s ≡ ok order))
  compute_order_of_rank rank ranked =
      let f = finished s valid in
      let all_placed : IsSubset (keys s.graph) f.order =
        λ n m. placed_of_rank s valid rank ranked (suc (rank n)) n (omega arith) m in
      let full : length f.order ≡ length s.in_degree = omega (
        arith,
        length-nodes s valid,
        length-le_of_subset f.order (keys s.graph) (placed_once s valid) (placed_nodes s valid),
        length-le_of_subset (keys s.graph) f.order valid.distinct all_placed,
      ) in
      let test : (length f.order == length s.in_degree) ≡ true = ground arith in
      (has_cycle-eq ∙ ap (λ b. ok (not b)) test, (f.order, compute_order-eq s valid ∙ rw test refl))

  -- On a valid scheduler _has_cycle and the computation of the order always return, and they agree:
  -- a cycle is found where the computation raises DAGCycle, and none where it gives an order.
  pub has_cycle_agrees :
      (has_cycle s ≡ ok true) × (compute_order s ≡ raise dag_cycle)
      ⊎ (has_cycle s ≡ ok false) × ((order : List ℕ) × (compute_order s ≡ ok order))
  has_cycle_agrees = elim (Bool-cases (length (finished s valid).order == length s.in_degree)) [
    | inl full ↦ inr (
      has_cycle-eq ∙ ap (λ b. ok (not b)) full,
      ((finished s valid).order, compute_order-eq s valid ∙ rw full refl),
    )
    | inr short ↦
        inl (has_cycle-eq ∙ ap (λ b. ok (not b)) short, compute_order-eq s valid ∙ rw short refl)
  ]
