-- ===== src/Transaction/Tests.antt =====
-- The theorems on transactions at a graph of two units, with copies that never fail.
use dynamic_neural_computing.Prelude.{
  ◌≡◌, refl, sym, ap, true, false, none, some, List, [], ◌∷◌, Outcome, ok, raise,
}
use dynamic_neural_computing.Ir.Identity.{next_sequence}
use dynamic_neural_computing.Ir.Graph.{StructuralGraph, add_unit, remove_unit}
use dynamic_neural_computing.Ir.Validator.{validate_graph}
use dynamic_neural_computing.Ir.Validator.Sound.{EdgesSound}
use dynamic_neural_computing.Ir.Validator.Tests.{pair, unit_with, port_at}
use dynamic_neural_computing.Ir.Enums.{PortDirection}
use dynamic_neural_computing.Mutation.{IrOperation, adding, removing, apply_operation, validate}
use dynamic_neural_computing.Transaction.{
  Executed, execute_transaction, occ_conflict, commit, failed,
}
use dynamic_neural_computing.Transaction.Commitment.{execute_transaction-commits}
use dynamic_neural_computing.Transaction.Atomicity.{
  apply_all, Leaves, execute_transaction-Leaves, execute_transaction-EdgesSound, second_conflicts,
}

abbrev copy_operation : IrOperation → Outcome IrOperation
copy_operation op = ok op

abbrev copy_graph : StructuralGraph → Outcome StructuralGraph
copy_graph g = ok g

copy_operation-faithful : (op op' : IrOperation) → copy_operation op ≡ ok op' → op' ≡ op
copy_operation-faithful op op' e = ap (λ o. elim o [ ok x ↦ x | raise y ↦ op ]) (sym e)

copy_graph-faithful : (g g' : StructuralGraph) → copy_graph g ≡ ok g' → g' ≡ g
copy_graph-faithful g g' e = ap (λ o. elim o [ ok x ↦ x | raise y ↦ g ]) (sym e)

abbrev changes : List IrOperation
changes = adding (some (unit_with 4 [])) ∷ removing (some 2) ∷ []

execute_transaction-Leaves_example :
    Leaves pair changes (execute_transaction copy_operation copy_graph 1 pair changes none)
execute_transaction-Leaves_example =
    execute_transaction-Leaves copy_operation copy_operation-faithful copy_graph copy_graph-faithful
      1 pair changes none

execute_transaction-EdgesSound_example :
    EdgesSound
      (execute_transaction copy_operation copy_graph 1 pair changes none).graph.units
      []
      (execute_transaction copy_operation copy_graph 1 pair changes none).graph.edges
unfolding execute_transaction apply_operation validate validate_graph add_unit remove_unit
execute_transaction-EdgesSound_example =
    execute_transaction-EdgesSound copy_operation copy_operation-faithful copy_graph
      copy_graph-faithful 1 pair changes none refl

-- The graph after the two operations.
abbrev changed : StructuralGraph
changed = record pair {
  version = next_sequence (next_sequence pair.version);
  units = (1, unit_with 1 (port_at 10 PortDirection.output ∷ [])) ∷ (4, unit_with 4 []) ∷ [];
  edges = [];
  retired_unit_ids = 2 ∷ 3 ∷ [];
}

execute_transaction-commits_example :
    ((execute_transaction copy_operation copy_graph 1 pair changes none).success ≡ true)
    × ((execute_transaction copy_operation copy_graph 1 pair changes none).graph
        ≡ commit pair changed)
unfolding apply_all apply_operation validate validate_graph add_unit remove_unit
execute_transaction-commits_example =
    execute_transaction-commits copy_operation (λ op. refl) copy_graph 1 pair changed changes none
      refl refl refl refl

second_conflicts_example :
    let first : Executed =
      execute_transaction copy_operation copy_graph 1 pair changes (some pair.version) in
    let second : Executed =
      execute_transaction copy_operation copy_graph 2 first.graph [] (some pair.version) in
    (second.success ≡ false)
    × (second.graph ≡ first.graph)
    × (second.context.state ≡ failed)
    × (second.context.error_message ≡ some occ_conflict)
unfolding execute_transaction apply_operation validate validate_graph add_unit remove_unit
second_conflicts_example =
    second_conflicts copy_operation copy_operation-faithful copy_graph copy_graph-faithful 1 2 pair
      changes [] refl
