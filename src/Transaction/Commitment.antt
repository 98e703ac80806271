-- ===== src/Transaction/Commitment.antt =====
-- When `execute_transaction` of src/dnc/transaction/manager.py commits.
use dynamic_neural_computing.Prelude.{
  ℕ, ◌≡◌, refl, sym, ap, ◌∙◌, true, Option, none, some, List, [], ◌∷◌, Outcome, ok, raise, or_else,
  arith,
}
use dynamic_neural_computing.Ir.Identity.{GraphVersion, same_version}
use dynamic_neural_computing.Ir.Graph.{StructuralGraph}
use dynamic_neural_computing.Ir.Validator.{validate_graph}
use dynamic_neural_computing.Mutation.{IrOperation, validate, UndoLog, apply_operation}
use dynamic_neural_computing.Transaction.{
  Staged, TransactionContext, TransactionError, commit, finish, settle, stage_copy, stage_isolated,
  stage_one, stage_all, on_staging, with_snapshot, execute_transaction, stopped,
}
use dynamic_neural_computing.Transaction.Atomicity.{apply_all, stage_one-none, stage_all-Agrees}

apply_all-cons :
    (op : IrOperation) (ops : List IrOperation) (g s : StructuralGraph)
    → apply_all (op ∷ ops) g ≡ some s
    → (validate op ≡ true)
      × ((apply_operation g op).success ≡ true)
      × (apply_all ops (apply_operation g op).graph ≡ some s)
unfolding apply_all
apply_all-cons op ops g s h = ground (arith, h)

finish-commits :
    (g s : StructuralGraph) (ctx : TransactionContext)
    → (validate_graph s).is_valid ≡ true
    → ((finish g s ctx).success ≡ true) × ((finish g s ctx).graph ≡ commit g s)
unfolding finish
finish-commits g s ctx valid = ground (arith, valid)

module _ (isolate : IrOperation → Outcome IrOperation)
    (copies : (op : IrOperation) → isolate op ≡ ok op) where
  only_copies : (op op' : IrOperation) → isolate op ≡ ok op' → op' ≡ op
  only_copies op op' e =
      let met : ok op' ≡ ok op = sym e ∙ copies op in
      ap (λ o. elim o [ ok x ↦ x | raise y ↦ op ]) met

  stage_one_passes :
      (g : StructuralGraph) (undo : UndoLog) (op : IrOperation)
      → validate op ≡ true
      → (apply_operation g op).success ≡ true
      → (stage_one isolate g undo op).error ≡ none
  unfolding stage_one stage_isolated stage_copy stopped
  stage_one_passes g undo op v s = ground (arith, v, s, copies op)

  stage_all_passes :
      (ops : List IrOperation) (g s : StructuralGraph) (undo : UndoLog)
      → apply_all ops g ≡ some s
      → (stage_all isolate g undo ops).error ≡ none
  unfolding stage_all
  stage_all_passes [] g s undo h = refl
  stage_all_passes (op ∷ ops) g s undo h =
      let (v, done, rest) = apply_all-cons op ops g s h in
      let one : Staged = stage_one isolate g undo op in
      let passed : one.error ≡ none = stage_one_passes g undo op v done in
      let same = (stage_one-none isolate only_copies g undo op passed).2 in
      ground
        (arith, passed, stage_all_passes ops one.graph s one.undo (ap (apply_all ops) same ∙ rest))

  settle-commits :
      (o : Option TransactionError) (g x s : StructuralGraph) (ctx : TransactionContext)
      → o ≡ none
      → x ≡ s
      → (validate_graph s).is_valid ≡ true
      → ((settle o g x ctx).success ≡ true) × ((settle o g x ctx).graph ≡ commit g s)
  unfolding settle
  settle-commits none g x s ctx e same valid = rw same (finish-commits g s ctx valid)
  settle-commits (some why) g x s ctx e same valid = absurd (ground (arith, e))

  module _ (snapshot : StructuralGraph → Outcome StructuralGraph) where
    -- With copies of the operations that never fail and a snapshot that equals the graph, a
    -- transaction from the present version commits whenever its operations succeed one after the
    -- other and the validator accepts what they make.
    pub execute_transaction-commits :
        (tx_id : ℕ) (g s : StructuralGraph) (ops : List IrOperation) (base : Option GraphVersion)
        → snapshot g ≡ ok g
        → same_version g.version (or_else base g.version) ≡ true
        → apply_all ops g ≡ some s
        → (validate_graph s).is_valid ≡ true
        → ((execute_transaction isolate snapshot tx_id g ops base).success ≡ true)
          × ((execute_transaction isolate snapshot tx_id g ops base).graph ≡ commit g s)
    unfolding execute_transaction with_snapshot on_staging
    execute_transaction-commits tx_id g s ops base copied same all valid =
        let staged : Staged = stage_all isolate g [] ops in
        let passed : staged.error ≡ none = stage_all_passes ops g s [] all in
        let made : some staged.graph ≡ some s =
          sym (stage_all-Agrees isolate only_copies ops g [] passed) ∙ all in
        let reached : staged.graph ≡ s = ap (λ o. elim o [ none ↦ s | some x ↦ x ]) made in
        rw (same, copied) (settle-commits staged.error g staged.graph s _ passed reached valid)
