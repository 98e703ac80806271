-- ===== src/Scheduler.antt =====
-- src/dnc/scheduler/scheduler.py: the dispatcher of the execution graph. A module instance is a
-- number. A method that changes the scheduler returns the new state, also where it raises.
pub mod Degrees
pub mod Building
pub mod Loading
pub mod Kahn
pub mod Rounds
pub mod Order
pub mod Admission
pub mod Cache
pub mod Dispatch
mod Tests
use dynamic_neural_computing.Prelude.{
  ℕ, zero, suc, ◌==◌, Bool, true, false, not, ◌&&◌, Option, none, some, List, [], ◌∷◌, ◌++◌, Dict,
  lookup, contains, insert, keys, length, mem, or_else, Outcome, ok, raise, ◌>>=◌, value_error,
  dag_cycle, out_of_fuel, require, ℤ, pos, pred_ℤ, suc_ℤ, is_zero, filter, all, if◌then◌else◌,
}
use dynamic_neural_computing.State.WorkingMemory.{
  WorkingMemory, Buffer, Slot, pending, has_item, get_item, get, set_item, is_complete, get_output,
  is_complete_slot,
}

abbrev pub Graph : Type 0
Graph = Dict (List ℕ)

-- `self._graph`, `self._reverse`, `self._in_degree` and the cached `self._dispatch_order`.
pub record Scheduler : Type 0 where
  pub graph : Graph
  pub reversed : Graph
  pub in_degree : Dict ℤ
  pub dispatch_order : Option (List ℕ)

pub empty : Scheduler
empty = record { graph = []; reversed = []; in_degree = []; dispatch_order = none }

-- `self._graph.get(node, [])`, and `self._graph[node]` where the node is known to be there.
abbrev pub succs : Graph → ℕ → List ℕ
succs g n = or_else (lookup n g) []

-- `{n: v for n in nodes}`
pub fill {ℓ} : {V : Type ℓ} → V → List ℕ → Dict V → Dict V
fill v [] d = d
fill v (n ∷ ns) d = fill v ns (insert n v d)

-- `self._in_degree[n] += 1` for an `n` that is there.
abbrev pub raise_degree : ℕ → Dict ℤ → Dict ℤ
raise_degree n d = insert n (suc_ℤ (or_else (lookup n d) (pos 0))) d

-- An edge that is new, between two nodes that are there.
pub link : ℕ → ℕ → Scheduler → Scheduler
link up down s = record s {
  graph = insert up (succs s.graph up ++ down ∷ []) s.graph;
  reversed = insert down (succs s.reversed down ++ up ∷ []) s.reversed;
  in_degree = raise_degree down s.in_degree;
}

-- The body of the loop of `set_graph` over `edges`.
pub add_edge : ℕ → ℕ → Scheduler → Outcome Scheduler
unfolding link
add_edge up down s =
    if not (contains up s.graph && contains down s.graph)
    then raise value_error
    else if mem down (succs s.graph up)
    then ok s
    else ok (link up down s)

-- The loop keeps what it has built when it raises.
pub add_edges : List (ℕ × ℕ) → Scheduler → Outcome (Unit {0}) × Scheduler
add_edges [] s = (ok tt, s)
add_edges ((up, down) ∷ es) s = elim (add_edge up down s) [
  | ok s' ↦ add_edges es s'
  | raise e ↦ (raise e, s)
]

-- The inner loop of Kahn's algorithm: the in-degrees and the queue after the neighbours of a node.
pub relax : List ℕ → Dict ℤ → List ℕ → Outcome (Dict ℤ × List ℕ)
relax [] d queue = ok (d, queue)
relax (v ∷ vs) d queue = require (lookup v d) >>= λ k.
    let k' = pred_ℤ k in relax vs (insert v k' d) (if is_zero k' then queue ++ v ∷ [] else queue)

-- `[n for n, deg in in_degree.items() if deg == 0]`
pub sources : Dict ℤ → List ℕ
sources [] = []
sources ((n, k) ∷ d) = let rest = sources d in if is_zero k then n ∷ rest else rest

-- The `while queue` loop of `get_dispatch_order`.
pub order_loop : ℕ → Graph → Dict ℤ → List ℕ → List ℕ → Outcome (List ℕ)
order_loop fuel g d [] order = ok order
order_loop zero g d (n ∷ queue) order = raise out_of_fuel
order_loop (suc fuel) g d (n ∷ queue) order =
    relax (succs g n) d queue >>= λ (d', queue'). order_loop fuel g d' queue' (order ++ n ∷ [])

-- The `while queue` loop of `_has_cycle`, which counts the nodes.
pub visit_loop : ℕ → Graph → Dict ℤ → List ℕ → ℕ → Outcome ℕ
visit_loop fuel g d [] visited = ok visited
visit_loop zero g d (n ∷ queue) visited = raise out_of_fuel
visit_loop (suc fuel) g d (n ∷ queue) visited =
    relax (succs g n) d queue >>= λ (d', queue'). visit_loop fuel g d' queue' (suc visited)

-- `_has_cycle`, of the graph and the in-degrees. The loops take one unit of fuel for each node.
pub cycle_test : Graph → Dict ℤ → Outcome Bool
unfolding visit_loop sources
cycle_test g [] = ok false
cycle_test g (e ∷ d) = visit_loop (length (e ∷ d)) g (e ∷ d) (sources (e ∷ d)) 0 >>= λ visited.
    ok (not (visited == length (e ∷ d)))

pub has_cycle : Scheduler → Outcome Bool
unfolding cycle_test
has_cycle s = cycle_test s.graph s.in_degree

-- The last part of `set_graph`: on a cycle the graph is dropped.
pub check_cycle : Outcome Bool → Scheduler → Outcome (Unit {0}) × Scheduler
check_cycle (raise e) s = (raise e, s)
check_cycle (ok false) s = (ok tt, s)
check_cycle (ok true) s = (raise dag_cycle, record s { graph = []; reversed = []; in_degree = [] })

-- What `set_graph` does after the loop over `edges`.
pub finish_graph : Outcome (Unit {0}) × Scheduler → Outcome (Unit {0}) × Scheduler
unfolding has_cycle check_cycle
finish_graph (raise e, s) = (raise e, s)
finish_graph (ok done, s) = check_cycle (has_cycle s) s

pub set_graph : List ℕ → List (ℕ × ℕ) → Scheduler → Outcome (Unit {0}) × Scheduler
unfolding add_edges add_edge fill finish_graph
set_graph nodes edges s = finish_graph (
    add_edges edges (record s {
      graph = fill [] nodes [];
      reversed = fill [] nodes [];
      in_degree = fill (pos 0) nodes [];
    }))

-- The order computed anew, as in `get_dispatch_order` when nothing is cached.
pub compute_order : Scheduler → Outcome (List ℕ)
unfolding order_loop sources
compute_order s =
    order_loop (length s.in_degree) s.graph s.in_degree (sources s.in_degree) [] >>= λ order.
    if length order == length s.in_degree then ok order else raise dag_cycle

pub get_dispatch_order : Scheduler → Outcome (List ℕ) × Scheduler
unfolding compute_order
get_dispatch_order s = elim s.dispatch_order [
  | some order ↦ (ok order, s)
  | none ↦ elim (compute_order s) [
    | ok order ↦ (ok order, record s { dispatch_order = some order })
    | raise e ↦ (raise e, s)
  ]
]
