-- ===== src/Ir/Graph.antt =====
-- The structural graph of src/dnc/ir/graph.py. `retired_unit_ids` is the entry of that name in the
-- graph's metadata, empty where it is missing; the other metadata, which nothing reads, is a number.
use dynamic_neural_computing.Prelude.{
  ℕ, Bool, true, false, not, ◌==◌, ◌&&◌, ◌||◌, Option, none, some, List, [], ◌∷◌, ◌++◌, Dict,
  contains, insert, erase, filter, Outcome, ok, raise, key_error, value_error, if◌then◌else◌,
}
use dynamic_neural_computing.Ir.Enums.{EdgeType, same_type}
use dynamic_neural_computing.Ir.Identity.{GraphVersion}
use dynamic_neural_computing.Ir.Contracts.{ComputationalUnit}

pub record Edge : Type 0 where
  pub source : ℕ
  pub target : ℕ
  pub edge_type : EdgeType
  pub metadata : ℕ
  pub source_port : Option ℕ
  pub target_port : Option ℕ

pub record StructuralGraph : Type 0 where
  pub graph_id : ℕ
  pub version : GraphVersion
  pub units : Dict ComputationalUnit
  pub edges : List Edge
  pub retired_unit_ids : List ℕ
  pub other_metadata : ℕ

unfoldable pub add_unit : ComputationalUnit → StructuralGraph → Outcome StructuralGraph
add_unit u g =
    if contains u.unit_id g.units
    then raise value_error
    else ok (record g { units = insert u.unit_id u g.units })

-- The edge has the unit at one end.
abbrev pub touches : ℕ → Edge → Bool
touches i e = e.source == i || e.target == i

unfoldable pub remove_unit : ℕ → StructuralGraph → Outcome StructuralGraph
remove_unit i g =
    if not (contains i g.units)
    then raise key_error
    else ok (record g { units = erase i g.units; edges = filter (λ e. not (touches i e)) g.edges })

unfoldable pub add_edge : Edge → StructuralGraph → StructuralGraph
add_edge e g = record g { edges = g.edges ++ e ∷ [] }

abbrev pub same_port : Option ℕ → Option ℕ → Bool
same_port none none = true
same_port (some a) (some b) = a == b
same_port _ _ = false

-- `if port is not None: match and e.port == port`
abbrev port_fits : Option ℕ → Option ℕ → Bool
port_fits none p = true
port_fits (some a) p = same_port p (some a)

abbrev type_fits : Option EdgeType → EdgeType → Bool
type_fits none t = true
type_fits (some a) t = same_type t a

-- The match that `remove_edge` and DISCONNECT_UNITS make.
unfoldable pub edge_matches : ℕ → ℕ → Option EdgeType → Option ℕ → Option ℕ → Edge → Bool
edge_matches source target type source_port target_port e =
    (e.source == source && e.target == target)
    && type_fits type e.edge_type
    && port_fits source_port e.source_port
    && port_fits target_port e.target_port

unfoldable pub remove_edge :
    ℕ → ℕ → Option EdgeType → Option ℕ → Option ℕ → StructuralGraph → StructuralGraph
unfolding edge_matches
remove_edge source target type source_port target_port g = record g {
  edges = filter (λ e. not (edge_matches source target type source_port target_port e)) g.edges;
}
