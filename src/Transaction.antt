-- ===== src/Transaction.antt =====
-- src/dnc/transaction: `TransactionManager.execute_transaction` with no provenance log, one call at a
-- time (the lock of a graph). `copy.deepcopy` is a parameter that gives a copy or raises. Error
-- messages are named, and their text is left out.
pub mod Atomicity
mod Commitment
mod Tests
use dynamic_neural_computing.Prelude.{
  ℕ, Bool, true, false, Option, none, some, List, [], ◌∷◌, ◌++◌, or_else, Outcome, ok, raise,
  Exception, if◌then◌else◌,
}
use dynamic_neural_computing.Ir.Identity.{GraphVersion, next_sequence, same_version}
use dynamic_neural_computing.Ir.Graph.{StructuralGraph}
use dynamic_neural_computing.Ir.Errors.{ValidationResult}
use dynamic_neural_computing.Ir.Validator.{validate_graph}
use dynamic_neural_computing.Mutation.{
  IrOperation, validate, Failure, Applied, UndoLog, pop_all, apply_operation, rollback,
}

pub data TransactionState : Type 0 where
  begin validating applying committing committed rolling_back rolled_back failed : TransactionState

-- The message of a transaction that fails.
pub data TransactionError : Type 0 where
  occ_conflict invalid_operation invariant_violated transaction_failed : TransactionError
  snapshot_failed isolation_failed : Exception → TransactionError
  application_failed : List Failure → TransactionError
  rollback_failed : TransactionError → Exception → TransactionError

pub record TransactionContext : Type 0 where
  pub tx_id : ℕ
  pub base_version : GraphVersion
  pub operations : List IrOperation
  pub state : TransactionState
  pub undo_log : UndoLog
  pub validation_result : Option ValidationResult
  pub error_message : Option TransactionError

-- What the call returns, with the active graph that it leaves.
pub record Executed : Type 0 where
  pub success : Bool
  pub context : TransactionContext
  pub graph : StructuralGraph

-- The staging graph and the undo log after the loop over the operations, with the error that ended
-- it, if one did.
pub record Staged : Type 0 where
  pub error : Option TransactionError
  pub graph : StructuralGraph
  pub undo : UndoLog

pub stopped : TransactionError → StructuralGraph → UndoLog → Staged
stopped why g undo = record { error = some why; graph = g; undo = undo }

-- `_rollback_staging`: it empties the undo log.
pub rollback_staging : StructuralGraph → TransactionContext → TransactionContext
rollback_staging staging ctx = elim (rollback staging ctx.undo_log) [
  | ok g ↦ record ctx { undo_log = []; state = rolled_back }
  | raise e ↦ record ctx {
    undo_log = [];
    state = failed;
    error_message = some (rollback_failed (or_else ctx.error_message transaction_failed) e);
  }
]

-- The commit: the units, the edges and the metadata of the staging graph, and the next version.
pub commit : StructuralGraph → StructuralGraph → StructuralGraph
commit g staging = record g {
  units = staging.units;
  edges = staging.edges;
  retired_unit_ids = staging.retired_unit_ids;
  other_metadata = staging.other_metadata;
  version = next_sequence g.version;
}

-- A call that fails before anything is staged.
pub refuse : TransactionError → StructuralGraph → TransactionContext → Executed
refuse why g ctx = record {
  success = false;
  context = record ctx { state = failed; error_message = some why };
  graph = g;
}

-- A call that fails after the staging graph was changed.
pub abort : TransactionError → StructuralGraph → StructuralGraph → TransactionContext → Executed
unfolding rollback_staging
abort why g staging ctx = record {
  success = false;
  context =
      rollback_staging staging (record ctx { state = rolling_back; error_message = some why });
  graph = g;
}

-- The final validation, and the commit.
pub finish : StructuralGraph → StructuralGraph → TransactionContext → Executed
unfolding abort commit
finish g staging ctx =
    let result = validate_graph staging in
    let ctx' = record ctx { validation_result = some result } in
    if result.is_valid
    then record {
      success = true;
      context = record ctx' { state = committed };
      graph = commit g staging;
    }
    else abort invariant_violated g staging ctx'

-- After the loop: a rollback of the staging graph, or the end of the work.
pub settle :
    Option TransactionError → StructuralGraph → StructuralGraph → TransactionContext → Executed
unfolding abort finish
settle (some why) g staging ctx = abort why g staging ctx
settle none g staging ctx = finish g staging ctx

-- One operation applied to the staging graph, and its inverses put on the undo log.
pub stage_copy : StructuralGraph → UndoLog → IrOperation → Staged
unfolding stopped pop_all
stage_copy g undo op =
    let applied = apply_operation g op in
    if applied.success
    then record { error = none; graph = applied.graph; undo = undo ++ (pop_all applied.undo).0 }
    else stopped (application_failed applied.messages) applied.graph undo

-- The copy of the operation, or its exception.
pub stage_isolated : StructuralGraph → UndoLog → Outcome IrOperation → Staged
unfolding stopped stage_copy
stage_isolated g undo (ok op) = stage_copy g undo op
stage_isolated g undo (raise e) = stopped (isolation_failed e) g undo

module _ (isolate : IrOperation → Outcome IrOperation) where
  pub stage_one : StructuralGraph → UndoLog → IrOperation → Staged
  unfolding stopped stage_isolated
  stage_one g undo op =
      let staged = stage_isolated g undo (isolate op) in
      if validate op then staged else stopped invalid_operation g undo

  -- The loop over the operations.
  pub stage_all : StructuralGraph → UndoLog → List IrOperation → Staged
  unfolding stage_one
  stage_all g undo [] = record { error = none; graph = g; undo = undo }
  stage_all g undo (op ∷ ops) =
      let one = stage_one g undo op in
      elim one.error [ none ↦ stage_all one.graph one.undo ops | some why ↦ one ]

  -- The work on the staging graph.
  pub on_staging : StructuralGraph → StructuralGraph → TransactionContext → Executed
  unfolding stage_all settle
  on_staging g staging ctx =
      let staged = stage_all staging ctx.undo_log ctx.operations in
      settle staged.error g staged.graph (record ctx { undo_log = staged.undo })

  -- The copy of the graph, or its exception.
  pub with_snapshot : Outcome StructuralGraph → StructuralGraph → TransactionContext → Executed
  unfolding on_staging refuse
  with_snapshot (raise e) g ctx = refuse (snapshot_failed e) g ctx
  with_snapshot (ok staging) g ctx = on_staging g staging (record ctx { state = applying })

  module _ (snapshot : StructuralGraph → Outcome StructuralGraph) where
    pub execute_transaction :
        ℕ → StructuralGraph → List IrOperation → Option GraphVersion → Executed
    unfolding with_snapshot refuse
    execute_transaction tx_id g operations base_version =
        let expected = or_else base_version g.version in
        let ctx : TransactionContext = record {
          tx_id = tx_id;
          base_version = expected;
          operations = operations;
          state = validating;
          undo_log = [];
          validation_result = none;
          error_message = none;
        } in
        let answer = with_snapshot (snapshot g) g ctx in
        if same_version g.version expected then answer else refuse occ_conflict g ctx
