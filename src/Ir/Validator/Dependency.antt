-- ===== src/Ir/Validator/Dependency.antt =====
-- Dependency edges and the ports of src/dnc/ir/validator.py.
use dynamic_neural_computing.Prelude.{
  ℕ, ◌≡◌, refl, ap, subst, ◌∙◌, true, false, Option, none, some, List, [], ◌∷◌, ◌++◌, Dict, lookup,
  arith,
}
use dynamic_neural_computing.Ir.Enums.{EdgeType, PortKind, edge_value, kind_value}
use dynamic_neural_computing.Ir.Contracts.{
  PortContract, UnitContract, ComputationalUnit, nonempty, port,
}
use dynamic_neural_computing.Ir.Graph.{Edge, StructuralGraph}
use dynamic_neural_computing.Ir.Validator.Sound.{
  EdgeSound, EdgesSound, BoundAt, FitAt, validate_graph-EdgesSound,
}
use dynamic_neural_computing.Ir.Validator.{validate_graph}

EdgesSound-at :
    (units : Dict ComputationalUnit) (seen before after : List Edge) (e : Edge)
    → EdgesSound units seen (before ++ e ∷ after)
    → EdgeSound units e
EdgesSound-at units seen [] after e h = h.0
EdgesSound-at units seen (x ∷ before) after e h =
    let (_, _, rest) = h in EdgesSound-at units (x ∷ seen) before after e rest

no_ports : (ports : List PortContract) → nonempty ports ≡ false → ports ≡ []
no_ports [] h = refl
no_ports (x ∷ ports) h = absurd (ground (arith, h))

no_dependency_kind : (k : PortKind) → kind_value k ≡ 3 → ⊥
no_dependency_kind PortKind.dataflow h = omega arith
no_dependency_kind PortKind.control h = omega arith
no_dependency_kind PortKind.state h = omega arith
no_dependency_kind PortKind.resource h = omega arith

FitAt-no_dependency :
    (e : Edge) (out in_port : Option PortContract)
    → e.edge_type ≡ EdgeType.dependency
    → FitAt e out in_port
    → ⊥
FitAt-no_dependency e (some out) (some in_port) dep fit =
    no_dependency_kind out.kind (fit.out_kind ∙ ap edge_value dep)
FitAt-no_dependency e (some out) none dep fit = fit
FitAt-no_dependency e none p dep fit = fit

BoundAt-dependency :
    (e : Edge) (s t : UnitContract) (p q : Option ℕ)
    → e.edge_type ≡ EdgeType.dependency
    → BoundAt e s t p q
    → (p ≡ none) × (q ≡ none) × (s.ports ≡ []) × (t.ports ≡ [])
BoundAt-dependency e s t none none dep b = (refl, refl, no_ports s.ports b.0, no_ports t.ports b.1)
BoundAt-dependency e s t (some p) (some q) dep b =
    absurd (FitAt-no_dependency e (port p s) (port q t) dep b)
BoundAt-dependency e s t (some p) none dep b = absurd b
BoundAt-dependency e s t none (some q) dep b = absurd b

-- In a graph that validates, a dependency edge names no ports, and joins two units of the graph
-- whose contracts declare none.
pub dependency_untyped :
    (g : StructuralGraph) (before after : List Edge) (e : Edge)
    → (validate_graph g).is_valid ≡ true
    → g.edges ≡ before ++ e ∷ after
    → e.edge_type ≡ EdgeType.dependency
    → (e.source_port ≡ none)
      × (e.target_port ≡ none)
      × (s : ComputationalUnit) × (t : ComputationalUnit) × (lookup e.source g.units ≡ some s)
      × (lookup e.target g.units ≡ some t)
      × (s.contract.ports ≡ [])
      × (t.contract.ports ≡ [])
dependency_untyped g before after e valid split dep =
    let sound : EdgeSound g.units e =
      EdgesSound-at g.units [] before after e
        (subst (EdgesSound g.units []) split (validate_graph-EdgesSound g valid)) in
    let (p, q, s, t) =
      BoundAt-dependency e sound.source.contract sound.target.contract e.source_port e.target_port
        dep sound.bound in
    (p, q, sound.source, sound.target, sound.source_there, sound.target_there, s, t)
