-- ===== src/Mutation.antt =====
-- src/dnc/mutation: the engine that applies operations to a structural graph, with its undo log; and
-- the operations of src/dnc/ir/operations.py. A parameter is an option, `none` where the key is
-- missing; messages are named, and their text is left out.
mod Apply
mod Permanence
mod Undo
mod Tests
use dynamic_neural_computing.Prelude.{
  ℕ, Bool, true, false, not, ◌==◌, ◌&&◌, ◌||◌, Option, none, some, is_some, List, [], ◌∷◌, ◌++◌,
  reverse, lookup, contains, mem, filter, ltb, or_else, Outcome, ok, raise, ◌>>=◌, Exception,
  value_error, if◌then◌else◌,
}
use dynamic_neural_computing.Ir.Enums.{EdgeType}
use dynamic_neural_computing.Ir.Identity.{next_sequence}
use dynamic_neural_computing.Ir.Contracts.{ComputationalUnit}
use dynamic_neural_computing.Ir.Graph.{
  Edge, StructuralGraph, add_unit, remove_unit, add_edge, remove_edge, edge_matches, touches,
}

-- The parameters of CONNECT_UNITS, DISCONNECT_UNITS and REWIRE_EDGE.
pub record Connection : Type 0 where
  pub source : Option ℕ
  pub target : Option ℕ
  pub edge_type : Option EdgeType
  pub metadata : ℕ
  pub source_port : Option ℕ
  pub target_port : Option ℕ

pub record Rewiring : Type 0 where
  pub old_source : Option ℕ
  pub old_target : Option ℕ
  pub new_source : Option ℕ
  pub new_target : Option ℕ

-- `IROperation`: its type with the parameters that it reads. The engine supports the first five.
pub data IrOperation : Type 0 where
  adding : Option ComputationalUnit → IrOperation
  removing : Option ℕ → IrOperation
  connecting disconnecting : Connection → IrOperation
  rewiring : Rewiring → IrOperation
  specialize_unit despecialize_unit compose_units decompose_unit update_contract : IrOperation

-- `IROperation.validate`
unfoldable pub validate : IrOperation → Bool
validate (adding u) = is_some u
validate (removing i) = is_some i
validate (connecting c) = is_some c.source && is_some c.target && is_some c.edge_type
validate (disconnecting c) = is_some c.source && is_some c.target
validate (rewiring r) =
    is_some r.old_source && is_some r.old_target && is_some r.new_source && is_some r.new_target
validate _ = true

-- `InverseOperation`, by its `op_name`.
pub data InverseOperation : Type 0 where
  undo_add : ℕ → InverseOperation
  restore_unit : ComputationalUnit → List Edge → InverseOperation
  undo_connect : ℕ → ℕ → EdgeType → Option ℕ → Option ℕ → InverseOperation
  restore_edges : List Edge → InverseOperation
  rewire_back : ℕ → ℕ → ℕ → ℕ → InverseOperation

abbrev pub UndoLog : Type 0
UndoLog = List InverseOperation

pub push : InverseOperation → UndoLog → UndoLog
push inverse log = log ++ inverse ∷ []

-- The items in reverse order, and the log that is left.
unfoldable pub pop_all : UndoLog → List InverseOperation × UndoLog
pop_all log = (reverse log, [])

-- The message of a call that fails.
pub data Failure : Type 0 where
  invalid_parameters unit_not_found edge_not_found unsupported : Failure
  caught : Exception → Failure

-- What `apply_operation` returns, with the graph that it leaves.
pub record Applied : Type 0 where
  pub success : Bool
  pub messages : List Failure
  pub undo : UndoLog
  pub graph : StructuralGraph

abbrev pub failed : Failure → StructuralGraph → Applied
failed why g = record { success = false; messages = why ∷ []; undo = []; graph = g }

-- The common end of a call that succeeds: the version goes up by one.
abbrev pub succeeded : InverseOperation → StructuralGraph → Applied
succeeded inverse g = record {
  success = true;
  messages = [];
  undo = inverse ∷ [];
  graph = record g { version = next_sequence g.version };
}

-- A number is put into a sorted list without repetition; `sorted(set(xs))`.
pub insert_sorted : ℕ → List ℕ → List ℕ
insert_sorted x [] = x ∷ []
insert_sorted x (y ∷ ys) =
    let rest = y ∷ insert_sorted x ys in
    if x == y then y ∷ ys else if ltb x y then x ∷ y ∷ ys else rest

pub sorted_set : List ℕ → List ℕ
unfolding insert_sorted
sorted_set [] = []
sorted_set (x ∷ xs) = insert_sorted x (sorted_set xs)

-- ADD_UNIT
pub apply_add : ComputationalUnit → StructuralGraph → Applied
apply_add u g =
    if mem u.unit_id g.retired_unit_ids
    then failed (caught value_error) g
    else elim (add_unit u g) [
      | raise e ↦ failed (caught e) g
      | ok g' ↦ succeeded (undo_add u.unit_id) g'
    ]

-- REMOVE_UNIT
pub apply_remove : ℕ → StructuralGraph → Applied
unfolding sorted_set
apply_remove i g = elim (lookup i g.units) [
  | none ↦ failed unit_not_found g
  | some u ↦ elim (remove_unit i g) [
    | raise e ↦ failed (caught e) g
    | ok g' ↦
        succeeded (restore_unit u (filter (touches i) g.edges))
          (record g' { retired_unit_ids = sorted_set (i ∷ g'.retired_unit_ids) })
  ]
]

-- CONNECT_UNITS
pub apply_connect : ℕ → ℕ → EdgeType → Connection → StructuralGraph → Applied
apply_connect source target type c g =
    succeeded (undo_connect source target type c.source_port c.target_port) (
      add_edge
        (record {
          source = source;
          target = target;
          edge_type = type;
          metadata = c.metadata;
          source_port = c.source_port;
          target_port = c.target_port;
        })
        g)

-- DISCONNECT_UNITS
unfoldable pub apply_disconnect : ℕ → ℕ → Connection → StructuralGraph → Applied
apply_disconnect source target c g =
    let fits = edge_matches source target c.edge_type c.source_port c.target_port in
    succeeded (restore_edges (filter fits g.edges))
      (record g { edges = filter (λ e. not (fits e)) g.edges })

-- The first edge between two units gets other ends, if there is one.
pub rewire_first : ℕ → ℕ → ℕ → ℕ → List Edge → Option (List Edge)
rewire_first old_s old_t new_s new_t [] = none
rewire_first old_s old_t new_s new_t (e ∷ es) =
    let rest = rewire_first old_s old_t new_s new_t es in
    if e.source == old_s && e.target == old_t
    then some (record e { source = new_s; target = new_t } ∷ es)
    else elim rest [ none ↦ none | some es' ↦ some (e ∷ es') ]

-- REWIRE_EDGE
pub apply_rewire : ℕ → ℕ → ℕ → ℕ → StructuralGraph → Applied
unfolding rewire_first
apply_rewire old_s old_t new_s new_t g = elim (rewire_first old_s old_t new_s new_t g.edges) [
  | none ↦ failed edge_not_found g
  | some es ↦ succeeded (rewire_back new_s new_t old_s old_t) (record g { edges = es })
]

-- The parameters that `validate` asks for are there, or the call fails.
pub connect_with : Option ℕ → Option ℕ → Option EdgeType → Connection → StructuralGraph → Applied
unfolding apply_connect
connect_with (some s) (some t) (some k) c g = apply_connect s t k c g
connect_with _ _ _ c g = failed invalid_parameters g

pub disconnect_with : Option ℕ → Option ℕ → Connection → StructuralGraph → Applied
unfolding apply_disconnect
disconnect_with (some s) (some t) c g = apply_disconnect s t c g
disconnect_with _ _ c g = failed invalid_parameters g

pub rewire_with : Option ℕ → Option ℕ → Option ℕ → Option ℕ → StructuralGraph → Applied
unfolding apply_rewire
rewire_with (some a) (some b) (some c) (some d) g = apply_rewire a b c d g
rewire_with _ _ _ _ g = failed invalid_parameters g

-- The call for each type.
pub apply_valid : StructuralGraph → IrOperation → Applied
unfolding apply_add apply_remove connect_with disconnect_with rewire_with
apply_valid g (adding none) = failed invalid_parameters g
apply_valid g (adding (some u)) = apply_add u g
apply_valid g (removing none) = failed invalid_parameters g
apply_valid g (removing (some i)) = apply_remove i g
apply_valid g (connecting c) = connect_with c.source c.target c.edge_type c g
apply_valid g (disconnecting c) = disconnect_with c.source c.target c g
apply_valid g (rewiring r) = rewire_with r.old_source r.old_target r.new_source r.new_target g
apply_valid g _ = failed unsupported g

unfoldable pub apply_operation : StructuralGraph → IrOperation → Applied
unfolding validate apply_valid
apply_operation g op =
    let answer = apply_valid g op in if validate op then answer else failed invalid_parameters g

-- One inverse operation, on the graph that it changes in place.
pub undo_one : InverseOperation → StructuralGraph → Outcome StructuralGraph
undo_one (undo_add i) g = remove_unit i g
undo_one (restore_unit u es) g = add_unit u g >>= λ g'. ok (record g' { edges = g'.edges ++ es })
undo_one (undo_connect s t k p q) g = ok (remove_edge s t (some k) p q g)
undo_one (restore_edges es) g = ok (record g { edges = g.edges ++ es })
undo_one (rewire_back old_s old_t new_s new_t) g =
    ok (record g { edges = or_else (rewire_first old_s old_t new_s new_t g.edges) g.edges })

pub undo_all : List InverseOperation → StructuralGraph → Outcome StructuralGraph
unfolding undo_one
undo_all [] g = ok g
undo_all (i ∷ is) g = undo_one i g >>= λ g'. undo_all is g'

-- `rollback`: the inverses in reverse order, then the version goes up.
pub rollback : StructuralGraph → UndoLog → Outcome StructuralGraph
unfolding undo_all pop_all
rollback g log =
    undo_all (pop_all log).0 g >>= λ g'. ok (record g' { version = next_sequence g'.version })
