-- ===== src/Scheduler/Tests.antt =====
-- The theorems on the scheduler at three nodes: 1 before 2 and 3, and 2 before 3.
use mathlib.Core.List.{List}
use dynamic_neural_computing.Prelude.{
  ℕ, ◌≡◌, refl, ◌↔◌, ◌⊎◌, true, false, not, ◌&&◌, none, some, [], ◌∷◌, Outcome, ok, raise,
  dag_cycle, pos, mem, all, ◌+◌, ◌==◌, if◌then◌else◌, value_error, Exception,
}
use dynamic_neural_computing.State.WorkingMemory.{
  WorkingMemory, Buffer, Slot, unbound, value, is_complete, get,
}
use dynamic_neural_computing.Scheduler.{
  Scheduler, empty, set_graph, compute_order, has_cycle, get_dispatch_order, succs, relax,
}
use dynamic_neural_computing.Scheduler.Building.{IsValid}
use dynamic_neural_computing.Scheduler.Loading.{Accepted, set_graph-Accepted}
use dynamic_neural_computing.Scheduler.Order.{
  IsTopological, compute_order-IsTopological, has_cycle_agrees,
}
use dynamic_neural_computing.Scheduler.Admission.{
  Ranks, step, more, compute_order_iff, set_graph_refuses,
}
use dynamic_neural_computing.Scheduler.Cache.{get_dispatch_order_stale}
use dynamic_neural_computing.Scheduler.Dispatch.{
  get_runnable, are_preconditions_met, dispatch, Inputs, single, many,
}
use dynamic_neural_computing.Scheduler.Dispatch.Laws.{get_runnable_iff}
use dynamic_neural_computing.Scheduler.Dispatch.Ready.{dispatch_ready, Outputs, IsArgument}

abbrev nodes : List ℕ
nodes = 1 ∷ 2 ∷ 3 ∷ []

abbrev edges : List (ℕ × ℕ)
edges = (1, 2) ∷ (1, 3) ∷ (2, 3) ∷ []

abbrev triangle : Scheduler
triangle = record {
  graph = (1, 2 ∷ 3 ∷ []) ∷ (2, 3 ∷ []) ∷ (3, []) ∷ [];
  reversed = (1, []) ∷ (2, 1 ∷ []) ∷ (3, 1 ∷ 2 ∷ []) ∷ [];
  in_degree = (1, pos 0) ∷ (2, pos 1) ∷ (3, pos 2) ∷ [];
  dispatch_order = none;
}

set_graph-Accepted_example : Accepted nodes edges triangle
unfolding set_graph empty relax
set_graph-Accepted_example = set_graph-Accepted nodes edges empty triangle refl

triangle-IsValid : IsValid triangle
triangle-IsValid = set_graph-Accepted_example.valid

compute_order-IsTopological_example : IsTopological triangle.graph nodes
unfolding compute_order relax
compute_order-IsTopological_example =
    compute_order-IsTopological triangle triangle-IsValid nodes refl

has_cycle_agrees_example :
    (has_cycle triangle ≡ ok true) × (compute_order triangle ≡ raise dag_cycle)
    ⊎ (has_cycle triangle ≡ ok false) × ((order : List ℕ) × (compute_order triangle ≡ ok order))
has_cycle_agrees_example = has_cycle_agrees triangle triangle-IsValid

compute_order_iff_example :
    ((order : List ℕ) × (compute_order triangle ≡ ok order))
    ↔ ((rank : ℕ → ℕ) × Ranks triangle.graph rank)
compute_order_iff_example = compute_order_iff triangle triangle-IsValid

get_dispatch_order_stale_example :
    (get_dispatch_order (set_graph nodes edges (record empty { dispatch_order = some [] })).1).0
    ≡ ok []
get_dispatch_order_stale_example =
    get_dispatch_order_stale (record empty { dispatch_order = some [] }) [] nodes edges refl

-- Node 1 is complete with the value 7; the others hold nothing.
abbrev blank : Buffer ℕ
blank = record { input = unbound; output = unbound; metadata = [] }

abbrev memory : WorkingMemory ℕ
memory = record {
  entries =
      (1, record { input = unbound; output = value 7; metadata = [] })
      ∷ (2, blank)
      ∷ (3, blank)
      ∷ [];
}

get_runnable_iff_example : mem 2 (2 ∷ []) ≡ (
    mem 2 nodes
    && not (is_complete memory 2)
    && all (is_complete memory) (succs triangle.reversed 2))
unfolding get_runnable relax compute_order get_dispatch_order is_complete get
get_runnable_iff_example = get_runnable_iff triangle memory (2 ∷ []) 2 triangle-IsValid tt refl

abbrev double : Inputs ℕ → Outcome (Slot ℕ)
double (single a) = ok (value (a + a))
double (many xs) = raise value_error

dispatch_ready_example :
    (inputs : List ℕ) × (arg : Inputs ℕ) × Outputs memory (1 ∷ []) inputs
    × IsArgument inputs arg
    × ((dispatch (λ us. us) triangle memory 2 double).0 ≡ double arg)
    × ((r : Slot ℕ)
        → double arg ≡ ok r
        → (m : ℕ)
        → get (dispatch (λ us. us) triangle memory 2 double).1 m ≡ (
            if m == 2
            then some (record { input = blank.input; output = r; metadata = blank.metadata })
            else get memory m))
    × ((e : Exception)
        → double arg ≡ raise e
        → (dispatch (λ us. us) triangle memory 2 double).1 ≡ memory)
unfolding are_preconditions_met get
dispatch_ready_example =
    dispatch_ready (λ us. us) triangle memory 2 double blank (λ us z m. m) refl refl

set_graph_refuses_example :
    ((set_graph (1 ∷ 2 ∷ []) ((1, 2) ∷ (2, 1) ∷ []) empty).0 ≡ raise dag_cycle)
    × ((set_graph (1 ∷ 2 ∷ []) ((1, 2) ∷ (2, 1) ∷ []) empty).1.graph ≡ [])
    × ((set_graph (1 ∷ 2 ∷ []) ((1, 2) ∷ (2, 1) ∷ []) empty).1.in_degree ≡ [])
set_graph_refuses_example =
    set_graph_refuses (1 ∷ 2 ∷ []) ((1, 2) ∷ (2, 1) ∷ []) empty (refl, refl, (refl, refl, tt)) 1
      (more (step {v = 2} refl) refl)
