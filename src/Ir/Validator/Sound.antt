-- ===== src/Ir/Validator/Sound.antt =====
-- What a graph that passes `validate_graph` satisfies.
use dynamic_neural_computing.Prelude.{
  ℕ, ◌==◌, ◌≡◌, refl, Bool, true, false, not, ◌&&◌, ◌||◌, Option, none, some, is_some, List, [],
  ◌∷◌, ◌++◌, Dict, lookup, contains, any, length, ltb, if◌then◌else◌, arith, Option-cases, inl, inr,
}
use dynamic_neural_computing.Ir.Enums.{edge_value, kind_value, carries_data, data_rank}
use dynamic_neural_computing.Ir.Contracts.{
  PortContract, UnitContract, ComputationalUnit, nonempty, port,
}
use dynamic_neural_computing.Ir.Graph.{Edge, StructuralGraph}
use dynamic_neural_computing.Ir.Errors.{Subject, ErrorCode, error_if}
use dynamic_neural_computing.Ir.Validator.EdgeRules.{
  is_output, conflict, port_errors, bound_port_errors, port_pair_errors, tenants_differ,
  zone_denied, validate_edge_contract, validate_edge_governance,
}
use dynamic_neural_computing.Ir.Validator.{
  same_identity, joined_errors, edge_errors, all_edge_errors, validate_graph,
}

append-eq-nil {ℓ} : {A : Type ℓ} (xs ys : List A) → xs ++ ys ≡ [] → (xs ≡ []) × (ys ≡ [])
append-eq-nil [] ys h = (refl, h)
append-eq-nil (x ∷ xs) ys h = absurd (ground arith)

error_if-eq-nil : (b : Bool) (c : ErrorCode) (s : Subject) → error_if b c s ≡ [] → b ≡ false
error_if-eq-nil true c s h = absurd (ground arith)
error_if-eq-nil false c s h = refl

length-eq-zero {ℓ} : {A : Type ℓ} (xs : List A) → (length xs == 0) ≡ true → xs ≡ []
length-eq-zero [] h = refl
length-eq-zero (x ∷ xs) h = absurd (ground arith)

-- The two ends of an edge that is bound to ports, in the terms of the ports.
pub record PortsFit (e : Edge) (out in_port : PortContract) : Type 0 where
  pub from_output : is_output out.direction ≡ true
  pub to_input : is_output in_port.direction ≡ false
  pub out_kind : kind_value out.kind ≡ edge_value e.edge_type
  pub in_kind : kind_value in_port.kind ≡ edge_value e.edge_type
  pub same_schema : out.schema ≡ in_port.schema

port_pair_errors-PortsFit :
    (e : Edge) (out in_port : PortContract)
    → port_pair_errors e out in_port ≡ []
    → PortsFit e out in_port
unfolding port_pair_errors
port_pair_errors-PortsFit e out in_port h =
    let (ab, c) = append-eq-nil _ _ h in
    let (a, b) = append-eq-nil _ _ ab in
    let direction : (not (is_output out.direction) || is_output in_port.direction) ≡ false =
      error_if-eq-nil _ _ _ a in
    let kind : (not (kind_value out.kind == edge_value e.edge_type)
          || not (kind_value in_port.kind == edge_value e.edge_type))
        ≡ false =
      error_if-eq-nil _ _ _ b in
    let schema : not (out.schema == in_port.schema) ≡ false = error_if-eq-nil _ _ _ c in
    fit direction kind schema
  where
    fit :
        (not (is_output out.direction) || is_output in_port.direction) ≡ false
        → (not (kind_value out.kind == edge_value e.edge_type)
            || not (kind_value in_port.kind == edge_value e.edge_type))
          ≡ false
        → not (out.schema == in_port.schema) ≡ false
        → PortsFit e out in_port
    fit direction kind schema = ground arith

abbrev pub FitAt : Edge → Option PortContract → Option PortContract → Type 0
FitAt e (some out) (some in_port) = PortsFit e out in_port
FitAt e _ _ = ⊥

-- Either neither unit has ports and the edge names none, or both ends name declared ports that fit.
abbrev pub BoundAt : Edge → UnitContract → UnitContract → Option ℕ → Option ℕ → Type 0
BoundAt e source target none none =
    (nonempty source.ports ≡ false) × (nonempty target.ports ≡ false)
BoundAt e source target (some p) (some q) = FitAt e (port p source) (port q target)
BoundAt e source target _ _ = ⊥

bound_port_errors-FitAt :
    (e : Edge) (out in_port : Option PortContract)
    → bound_port_errors e out in_port ≡ []
    → FitAt e out in_port
unfolding bound_port_errors
bound_port_errors-FitAt e (some out) (some in_port) h = port_pair_errors-PortsFit e out in_port h
bound_port_errors-FitAt e (some out) none h = cc
bound_port_errors-FitAt e none (some in_port) h = cc
bound_port_errors-FitAt e none none h = cc

port_errors-BoundAt :
    (e : Edge) (source target : UnitContract) (p q : Option ℕ)
    → port_errors e source target p q ≡ []
    → BoundAt e source target p q
unfolding port_errors
port_errors-BoundAt e source target (some p) (some q) h =
    bound_port_errors-FitAt e (port p source) (port q target) h
port_errors-BoundAt e source target none none h = let both = error_if-eq-nil _ _ _ h in ground arith
port_errors-BoundAt e source target (some p) none h = cc
port_errors-BoundAt e source target none (some q) h = cc

-- The rules of governance that an edge keeps.
pub record Governed (e : Edge) (source target : UnitContract) : Type 0 where
  pub same_tenant : tenants_differ source.security.tenant_id target.security.tenant_id ≡ false
  pub classified :
      (carries_data e.edge_type
        && ltb
            (data_rank target.security.maximum_input_classification)
            (data_rank source.security.output_classification))
      ≡ false
  pub residency :
      conflict source.security.allowed_residencies target.security.allowed_residencies ≡ false
  pub zone : zone_denied source.security.trust_zone target.security.accepted_trust_zones ≡ false
  pub local_regions :
      (target.placement.requires_local_inputs
        && conflict source.placement.allowed_regions target.placement.allowed_regions)
      ≡ false
  pub local_devices :
      (target.placement.requires_local_inputs
        && conflict source.placement.allowed_devices target.placement.allowed_devices)
      ≡ false
  pub local_runtimes :
      (target.placement.requires_local_inputs
        && conflict source.placement.allowed_runtimes target.placement.allowed_runtimes)
      ≡ false

local_errors-eq-nil :
    (b x y z : Bool) (c : ErrorCode) (s : Subject)
    → (if b then error_if x c s ++ error_if y c s ++ error_if z c s else []) ≡ []
    → ((b && x) ≡ false) × ((b && y) ≡ false) × ((b && z) ≡ false)
local_errors-eq-nil false x y z c s h = (refl, refl, refl)
local_errors-eq-nil true x y z c s h =
    let (xy, z') = append-eq-nil _ _ h in
    let (x', y') = append-eq-nil _ _ xy in
    (error_if-eq-nil x c s x', error_if-eq-nil y c s y', error_if-eq-nil z c s z')

validate_edge_governance-Governed :
    (e : Edge) (source target : UnitContract)
    → validate_edge_governance e source target ≡ []
    → Governed e source target
unfolding validate_edge_governance
validate_edge_governance-Governed e source target h =
    let (abcd, l) = append-eq-nil _ _ h in
    let (abc, d) = append-eq-nil _ _ abcd in
    let (ab, c) = append-eq-nil _ _ abc in
    let (a, b) = append-eq-nil _ _ ab in
    let (x, y, z) = local_errors-eq-nil _ _ _ _ _ _ l in
    record {
      same_tenant = error_if-eq-nil _ _ _ a;
      classified = error_if-eq-nil _ _ _ b;
      residency = error_if-eq-nil _ _ _ c;
      zone = error_if-eq-nil _ _ _ d;
      local_regions = x;
      local_devices = y;
      local_runtimes = z;
    }

-- An edge whose ends are units of the graph, bound by its ports and within the rules.
pub record EdgeSound (units : Dict ComputationalUnit) (e : Edge) : Type 0 where
  pub source : ComputationalUnit
  pub target : ComputationalUnit
  pub source_there : lookup e.source units ≡ some source
  pub target_there : lookup e.target units ≡ some target
  pub bound : BoundAt e source.contract target.contract e.source_port e.target_port
  pub governed : Governed e source.contract target.contract

missing : {A : Type 0} (o : Option A) → o ≡ none → not (is_some o) ≡ false → ⊥
missing o e h = ground arith

edge_errors-EdgeSound :
    (units : Dict ComputationalUnit) (seen : List Edge) (e : Edge)
    → edge_errors units seen e ≡ []
    → EdgeSound units e × (any (same_identity e) seen ≡ false)
unfolding edge_errors joined_errors validate_edge_contract
edge_errors-EdgeSound units seen e h =
    let (abc, d) =
      append-eq-nil _ (joined_errors e (lookup e.source units) (lookup e.target units)) h in
    let (ab, c) = append-eq-nil _ _ abc in
    let (a, b) = append-eq-nil _ _ ab in
    let b' : not (contains e.source units) ≡ false = error_if-eq-nil _ _ _ b in
    let c' : not (contains e.target units) ≡ false = error_if-eq-nil _ _ _ c in
    elim (Option-cases (lookup e.source units)) [
      | inl absent ↦ absurd (missing _ absent b')
      | inr (s, es) ↦ elim (Option-cases (lookup e.target units)) [
        | inl absent ↦ absurd (missing _ absent c')
        | inr (t, et) ↦
            let (bound, governed) = append-eq-nil _ _ (rw (es, et, joined_errors) at d) in
            (
              record {
                source = s;
                target = t;
                source_there = es;
                target_there = et;
                bound =
                    port_errors-BoundAt e s.contract t.contract e.source_port e.target_port bound;
                governed = validate_edge_governance-Governed e s.contract t.contract governed;
              },
              error_if-eq-nil _ _ _ a,
            )
      ]
    ]

-- The edges are sound, and no two of them have one identity.
abbrev pub EdgesSound : Dict ComputationalUnit → List Edge → List Edge → Type 0
EdgesSound units seen [] = Unit
EdgesSound units seen (e ∷ es) =
    EdgeSound units e × (any (same_identity e) seen ≡ false) × EdgesSound units (e ∷ seen) es

all_edge_errors-EdgesSound :
    (units : Dict ComputationalUnit) (seen es : List Edge)
    → all_edge_errors units seen es ≡ []
    → EdgesSound units seen es
unfolding all_edge_errors
all_edge_errors-EdgesSound units seen [] h = tt
all_edge_errors-EdgesSound units seen (e ∷ es) h =
    let (first, rest) = append-eq-nil _ _ h in
    let (sound, new) = edge_errors-EdgeSound units seen e first in
    (sound, new, all_edge_errors-EdgesSound units (e ∷ seen) es rest)

-- In a graph that validates, every edge joins two units of the graph, is no duplicate of an earlier
-- one, binds its ports by the port rules and meets the governance rules.
pub validate_graph-EdgesSound :
    (g : StructuralGraph) → (validate_graph g).is_valid ≡ true → EdgesSound g.units [] g.edges
unfolding validate_graph
validate_graph-EdgesSound g h =
    let (abc, d) = append-eq-nil _ _ (length-eq-zero _ h) in
    let (ab, c) = append-eq-nil _ _ abc in
    let (a, b) = append-eq-nil _ _ ab in all_edge_errors-EdgesSound g.units [] g.edges b
