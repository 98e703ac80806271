-- ===== src/Scheduler/Dispatch/Laws.antt =====
-- INV-3: only instances whose predecessors are complete are listed.
use dynamic_neural_computing.Prelude.{
  ℕ, ◌==◌, ◌≡◌, refl, not, ◌&&◌, List, [], ◌∷◌, mem, keys, all, ok, arith, Bool-cases, inl, inr,
  ==_iff, Outcome-cases, ap, sym, ◌∙◌,
}
use dynamic_neural_computing.State.WorkingMemory.{WorkingMemory, is_complete}
use dynamic_neural_computing.Scheduler.{Graph, Scheduler, succs, get_dispatch_order, compute_order}
use dynamic_neural_computing.Scheduler.Building.{IsValid}
use dynamic_neural_computing.Scheduler.Cache.{IsFresh, get_dispatch_order-eq}
use dynamic_neural_computing.Scheduler.Order.{compute_order-IsTopological}
use dynamic_neural_computing.Scheduler.Dispatch.{
  all_ready, are_preconditions_met, runnable, get_runnable,
}

same_reversed : (s : Scheduler) → (get_dispatch_order s).1.reversed ≡ s.reversed
unfolding get_dispatch_order
same_reversed s = ground arith

module _ {A : Type 0} where
  pub all_ready-eq :
      (wm : WorkingMemory A) (us : List ℕ) → all_ready wm us ≡ all (is_complete wm) us
  unfolding all_ready is_complete
  all_ready-eq wm [] = refl
  all_ready-eq wm (u ∷ us) = ground (arith, all_ready-eq wm us)

  mem-runnable :
      (s : Scheduler) (wm : WorkingMemory A) (ns : List ℕ) (n : ℕ)
      → mem n (runnable s wm ns)
        ≡ (mem n ns && not (is_complete wm n) && are_preconditions_met s wm n)
  unfolding runnable
  mem-runnable s wm [] n = refl
  mem-runnable s wm (m ∷ ns) n = elim (Bool-cases (n == m)) [
    | inl e ↦
        let same : n ≡ m = (==_iff n m).0 e in
        ground (
          arith,
          mem-runnable s wm ns n,
          ap (is_complete wm) same,
          ap (are_preconditions_met s wm) same,
        )
    | inr e ↦ ground (arith, mem-runnable s wm ns n)
  ]

  -- The order that `get_runnable` walks through is that of the graph.
  get_runnable-eq-ok :
      (s : Scheduler) (wm : WorkingMemory A) (ns : List ℕ)
      → IsFresh s
      → (get_runnable s wm).0 ≡ ok ns
      → (order : List ℕ) × (compute_order s ≡ ok order)
        × (ns ≡ runnable (get_dispatch_order s).1 wm order)
  unfolding get_runnable
  get_runnable-eq-ok s wm ns fresh e = elim (Outcome-cases (get_dispatch_order s).0) [
    | inl (order, computed) ↦
        (order, sym (get_dispatch_order-eq s fresh).0 ∙ computed, ground arith)
    | inr (x, failed) ↦ absurd (ground arith)
  ]

  -- On a valid scheduler with a fresh cache, get_runnable lists exactly the nodes of the graph that
  -- are not complete and all of whose predecessors are complete.
  pub get_runnable_iff :
      (s : Scheduler) (wm : WorkingMemory A) (ns : List ℕ) (n : ℕ)
      → IsValid s
      → IsFresh s
      → (get_runnable s wm).0 ≡ ok ns
      → mem n ns ≡ (
          mem n (keys s.graph)
          && not (is_complete wm n)
          && all (is_complete wm) (succs s.reversed n))
  unfolding are_preconditions_met
  get_runnable_iff s wm ns n valid fresh e =
      let (order, computed, listed) = get_runnable-eq-ok s wm ns fresh e in
      let topo = compute_order-IsTopological s valid order computed in
      ground (
        arith,
        mem-runnable (get_dispatch_order s).1 wm order n,
        topo.same_nodes n,
        all_ready-eq wm (succs s.reversed n),
        ap (λ (r : Graph). all_ready wm (succs r n)) (same_reversed s),
        ap (mem n) listed,
      )
