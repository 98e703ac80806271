-- ===== src/Mutation/Tests.antt =====
-- The theorems on the mutation engine at a graph of two units and one edge.
use dynamic_neural_computing.Prelude.{
  ℕ, ◌≡◌, refl, true, none, some, [], ◌∷◌, lookup, mem, ok, arith,
}
use dynamic_neural_computing.Ir.Enums.{EdgeType, PortDirection}
use dynamic_neural_computing.Ir.Contracts.{ComputationalUnit}
use dynamic_neural_computing.Ir.Graph.{StructuralGraph}
use dynamic_neural_computing.Ir.Validator.Tests.{pair, unit_with, port_at}
use dynamic_neural_computing.Mutation.{
  Connection, adding, removing, connecting, apply_operation, rollback,
}
use dynamic_neural_computing.Mutation.Apply.{
  Leaves, IsValid, insert-named, apply_operation-Leaves, apply_operation-IsValid,
}
use dynamic_neural_computing.Mutation.Permanence.{start, after, removed_never_returns}
use dynamic_neural_computing.Mutation.Undo.{Restores, rollback_remove}

abbrev sink : ComputationalUnit
sink = unit_with 2 (port_at 20 PortDirection.input ∷ [])

abbrev source : ComputationalUnit
source = unit_with 1 (port_at 10 PortDirection.output ∷ [])

pair-named : (i : ℕ) (u : ComputationalUnit) → lookup i pair.units ≡ some u → u.unit_id ≡ i
pair-named i u e =
    insert-named i sink u ((1, source) ∷ [])
      (λ e'. insert-named i source u [] (λ e''. absurd (ground (arith, e''))) e') e

pair-IsValid : IsValid pair
pair-IsValid = record {
  distinct = (refl, (refl, tt));
  named = pair-named;
  unused = λ i r. ground (arith, r);
}

abbrev link : Connection
link = record {
  source = some 2;
  target = some 1;
  edge_type = some EdgeType.state;
  metadata = 0;
  source_port = none;
  target_port = none;
}

apply_operation-Leaves_example : Leaves pair (apply_operation pair (connecting link))
apply_operation-Leaves_example = apply_operation-Leaves pair (connecting link)

apply_operation-IsValid_example : IsValid (apply_operation pair (removing (some 2))).graph
apply_operation-IsValid_example = apply_operation-IsValid pair (removing (some 2)) pair-IsValid

abbrev without : StructuralGraph
without = (apply_operation pair (removing (some 2))).graph

removed_never_returns_example :
    lookup 2 (apply_operation without (adding (some sink))).graph.units ≡ none
removed_never_returns_example =
    removed_never_returns pair (apply_operation without (adding (some sink))).graph 2 sink
      pair-IsValid refl (after without (adding (some sink)) start)

rollback_remove_example :
    (h : StructuralGraph) × (rollback
        (apply_operation pair (removing (some 2))).graph
        (apply_operation pair (removing (some 2))).undo
      ≡ ok h)
    × Restores pair h
    × (mem 2 h.retired_unit_ids ≡ true)
rollback_remove_example = rollback_remove pair 2 sink pair-IsValid refl
