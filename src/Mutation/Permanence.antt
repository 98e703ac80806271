-- ===== src/Mutation/Permanence.antt =====
-- Sequences of calls of `apply_operation`, of src/dnc/mutation/engine.py, on one graph.
use dynamic_neural_computing.Prelude.{
  ℕ, ◌≡◌, Bool, true, false, Option, none, some, if◌then◌else◌, Option-cases, inl, inr, lookup, mem,
  arith, ◌∷◌,
}
use dynamic_neural_computing.Ir.Enums.{EdgeType}
use dynamic_neural_computing.Ir.Contracts.{ComputationalUnit}
use dynamic_neural_computing.Ir.Graph.{StructuralGraph, add_unit, add_edge}
use dynamic_neural_computing.Mutation.{
  Connection, IrOperation, adding, removing, connecting, disconnecting, rewiring, Applied, failed,
  invalid_parameters, validate, apply_valid, apply_operation, apply_add, apply_remove, connect_with,
  disconnect_with, rewire_with,
}
use dynamic_neural_computing.Mutation.Apply.{
  IsValid, apply_operation-IsValid, mem-sorted_set, apply_remove_found, apply_remove_missing,
}

-- The graphs that calls of `apply_operation` make of one graph.
pub data Reach (g : StructuralGraph) : StructuralGraph → Type 0 where
  start : Reach g g
  after :
      (h : StructuralGraph) (op : IrOperation) → Reach g h → Reach g (apply_operation h op).graph

pub Reach-IsValid : (g h : StructuralGraph) → Reach g h → IsValid g → IsValid h
Reach-IsValid g h start v = v
Reach-IsValid g h (after k op r) v = apply_operation-IsValid k op (Reach-IsValid g k r v)

-- A retired identity is still retired in the second graph.
abbrev Keeps : ℕ → StructuralGraph → StructuralGraph → Type 0
Keeps i g h = mem i g.retired_unit_ids ≡ true → mem i h.retired_unit_ids ≡ true

apply_add-Keeps :
    (i : ℕ) (u : ComputationalUnit) (g : StructuralGraph) → Keeps i g (apply_add u g).graph
unfolding apply_add add_unit
apply_add-Keeps i u g h = ground arith

apply_remove-Keeps : (i j : ℕ) (g : StructuralGraph) → Keeps i g (apply_remove j g).graph
apply_remove-Keeps i j g h = elim (Option-cases (lookup j g.units)) [
  | inl e ↦ rw (apply_remove_missing j g e) h
  | inr (u, e) ↦
      rw (apply_remove_found j u g e) (ground (arith, mem-sorted_set i (j ∷ g.retired_unit_ids)))
]

connect_with-Keeps :
    (i : ℕ) (s t : Option ℕ) (k : Option EdgeType) (c : Connection) (g : StructuralGraph)
    → Keeps i g (connect_with s t k c g).graph
unfolding connect_with add_edge
connect_with-Keeps i (some s) (some t) (some k) c g h = h
connect_with-Keeps i _ _ _ c g h = h

disconnect_with-Keeps :
    (i : ℕ) (s t : Option ℕ) (c : Connection) (g : StructuralGraph)
    → Keeps i g (disconnect_with s t c g).graph
unfolding disconnect_with
disconnect_with-Keeps i (some s) (some t) c g h = h
disconnect_with-Keeps i _ _ c g h = h

rewire_with-Keeps :
    (i : ℕ) (a b c d : Option ℕ) (g : StructuralGraph) → Keeps i g (rewire_with a b c d g).graph
unfolding rewire_with
rewire_with-Keeps i (some a) (some b) (some c) (some d) g h = ground arith
rewire_with-Keeps i _ _ _ _ g h = h

apply_valid-Keeps :
    (i : ℕ) (g : StructuralGraph) (op : IrOperation) → Keeps i g (apply_valid g op).graph
unfolding apply_valid
apply_valid-Keeps i g (adding (some u)) h = apply_add-Keeps i u g h
apply_valid-Keeps i g (removing (some j)) h = apply_remove-Keeps i j g h
apply_valid-Keeps i g (connecting c) h = connect_with-Keeps i c.source c.target c.edge_type c g h
apply_valid-Keeps i g (disconnecting c) h = disconnect_with-Keeps i c.source c.target c g h
apply_valid-Keeps i g (rewiring r) h =
    rewire_with-Keeps i r.old_source r.old_target r.new_source r.new_target g h
apply_valid-Keeps i g _ h = h

guarded-Keeps :
    (i : ℕ) (g : StructuralGraph) (b : Bool) (a : Applied)
    → Keeps i g a.graph
    → Keeps i g (if b then a else failed invalid_parameters g).graph
guarded-Keeps i g true a k h = k h
guarded-Keeps i g false a k h = h

Reach-Keeps : (i : ℕ) (g h : StructuralGraph) → Reach g h → Keeps i g h
unfolding apply_operation
Reach-Keeps i g h start m = m
Reach-Keeps i g h (after k op r) m =
    guarded-Keeps i k (validate op) (apply_valid k op) (apply_valid-Keeps i k op)
      (Reach-Keeps i g k r m)

-- In a graph with distinct keys, unit ids that are their keys and no live retired identity, a unit
-- that REMOVE_UNIT takes away never comes back: after any further operations its identity names no
-- unit.
pub removed_never_returns :
    (g h : StructuralGraph) (i : ℕ) (u : ComputationalUnit)
    → IsValid g
    → lookup i g.units ≡ some u
    → Reach (apply_operation g (removing (some i))).graph h
    → lookup i h.units ≡ none
unfolding apply_operation apply_valid validate
removed_never_returns g h i u v found r =
    let valid : IsValid h = Reach-IsValid _ h r (apply_operation-IsValid g (removing (some i)) v) in
    valid.unused i (
      Reach-Keeps i _ h r (
        rw (apply_remove_found i u g found)
          (ground (arith, mem-sorted_set i (i ∷ g.retired_unit_ids)))))
