-- ===== src/Scheduler/Cache.antt =====
-- The cached order of `get_dispatch_order`, which `set_graph` leaves in place.
use dynamic_neural_computing.Prelude.{
  ℕ, ◌≡◌, refl, ◌∙◌, none, some, List, [], ◌∷◌, Bool, true, false, ok, raise, Outcome, arith,
}
use dynamic_neural_computing.Scheduler.{
  Scheduler, compute_order, get_dispatch_order, set_graph, finish_graph, check_cycle, add_edges,
  add_edge, link, has_cycle,
}
use dynamic_neural_computing.Scheduler.Loading.{unlinked}

-- Nothing is cached, or what is cached is the order of the present graph.
abbrev pub IsFresh : Scheduler → Type 0
IsFresh s = elim s.dispatch_order [ none ↦ Unit | some order ↦ compute_order s ≡ ok order ]

-- With a fresh cache get_dispatch_order returns what the computation returns, and its cache is
-- fresh again.
pub get_dispatch_order-eq :
    (s : Scheduler)
    → IsFresh s
    → ((get_dispatch_order s).0 ≡ compute_order s) × IsFresh (get_dispatch_order s).1
unfolding get_dispatch_order compute_order
get_dispatch_order-eq s fresh = ground arith

add_edges-dispatch_order :
    (es : List (ℕ × ℕ)) (s : Scheduler) → (add_edges es s).1.dispatch_order ≡ s.dispatch_order
unfolding add_edges add_edge link
add_edges-dispatch_order [] s = refl
add_edges-dispatch_order ((u, v) ∷ es) s =
    ground (arith, add_edges-dispatch_order es s, add_edges-dispatch_order es (link u v s))

check_cycle-dispatch_order :
    (r : Outcome Bool) (s : Scheduler) → (check_cycle r s).1.dispatch_order ≡ s.dispatch_order
unfolding check_cycle
check_cycle-dispatch_order (ok true) s = refl
check_cycle-dispatch_order (ok false) s = refl
check_cycle-dispatch_order (raise e) s = refl

finish_graph-dispatch_order :
    (built : Outcome (Unit {0}) × Scheduler)
    → (finish_graph built).1.dispatch_order ≡ built.1.dispatch_order
unfolding finish_graph
finish_graph-dispatch_order (ok done, s) = check_cycle-dispatch_order (has_cycle s) s
finish_graph-dispatch_order (raise e, s) = refl

set_graph-dispatch_order :
    (nodes : List ℕ) (edges : List (ℕ × ℕ)) (s : Scheduler)
    → (set_graph nodes edges s).1.dispatch_order ≡ s.dispatch_order
unfolding set_graph
set_graph-dispatch_order nodes edges s =
    let start = unlinked nodes s in
    finish_graph-dispatch_order (add_edges edges start) ∙ add_edges-dispatch_order edges start

-- Set_graph leaves the cache alone: a scheduler that has cached an order returns it again after any
-- later set_graph, whatever the new graph is.
pub get_dispatch_order_stale :
    (s : Scheduler) (order nodes : List ℕ) (edges : List (ℕ × ℕ))
    → s.dispatch_order ≡ some order
    → (get_dispatch_order (set_graph nodes edges s).1).0 ≡ ok order
unfolding get_dispatch_order
get_dispatch_order_stale s order nodes edges e =
    ground (arith, set_graph-dispatch_order nodes edges s)
