-- ===== src/Transaction/Atomicity.antt =====
-- All or nothing: what `execute_transaction` of src/dnc/transaction/manager.py does to the graph.
use dynamic_neural_computing.Prelude.{
  ℕ, suc, ◌≡◌, refl, ap, subst, ◌∙◌, Bool, true, false, Option, none, some, List, [], ◌∷◌, Outcome,
  ok, raise, if◌then◌else◌, Option-cases, Outcome-cases, inl, inr, or_else, arith, ◌⊎◌, ◌&&◌,
}
use dynamic_neural_computing.Ir.Identity.{GraphVersion, same_version, next_sequence}
use dynamic_neural_computing.Ir.Graph.{StructuralGraph}
use dynamic_neural_computing.Ir.Validator.{validate_graph}
use dynamic_neural_computing.Ir.Validator.Sound.{EdgesSound, validate_graph-EdgesSound}
use dynamic_neural_computing.Mutation.{IrOperation, validate, UndoLog, apply_operation, rollback}
use dynamic_neural_computing.Transaction.{
  Executed, Staged, TransactionContext, committed, rolled_back, rolling_back, failed,
  rollback_staging, commit, refuse, abort, finish, settle, with_snapshot, occ_conflict, stage_copy,
  stage_isolated, stage_one, stage_all, on_staging, execute_transaction, stopped, TransactionError,
}

-- The operations one after the other, each of which succeeds; the reference for the staging loop.
unfoldable pub apply_all : List IrOperation → StructuralGraph → Option StructuralGraph
apply_all [] g = some g
apply_all (op ∷ ops) g =
    let rest = apply_all ops (apply_operation g op).graph in
    if validate op && (apply_operation g op).success then rest else none

-- What a commit leaves of the graph and of the staging graph: the identity of the graph, the
-- content of the staging graph, and the version of the graph with the next sequence number.
pub record Commits (g staging h : StructuralGraph) : Type 0 where
  pub same_graph : h.graph_id ≡ g.graph_id
  pub units_staged : h.units ≡ staging.units
  pub edges_staged : h.edges ≡ staging.edges
  pub retired_staged : h.retired_unit_ids ≡ staging.retired_unit_ids
  pub metadata_staged : h.other_metadata ≡ staging.other_metadata
  pub same_major : h.version.major ≡ g.version.major
  pub same_minor : h.version.minor ≡ g.version.minor
  pub same_patch : h.version.patch ≡ g.version.patch
  pub next : h.version.sequence ≡ suc g.version.sequence

commit-Commits : (g staging : StructuralGraph) → Commits g staging (commit g staging)
unfolding commit next_sequence
commit-Commits g staging = record {
  same_graph = refl;
  units_staged = refl;
  edges_staged = refl;
  retired_staged = refl;
  metadata_staged = refl;
  same_major = refl;
  same_minor = refl;
  same_patch = refl;
  next = refl;
}

-- What a call leaves. A failure leaves the graph and is rolled back or failed. A success is
-- committed: the graph is the old one with what the operations make of it, they all succeed, the
-- validator accepts what they make, and the version is the next one.
pub data Leaves (g : StructuralGraph) (ops : List IrOperation) (x : Executed) : Type 0 where
  unchanged :
      x.success ≡ false
      → x.graph ≡ g
      → (x.context.state ≡ rolled_back) ⊎ (x.context.state ≡ failed)
      → Leaves g ops x
  done :
      (staging : StructuralGraph)
      → x.success ≡ true
      → x.context.state ≡ committed
      → apply_all ops g ≡ some staging
      → (validate_graph staging).is_valid ≡ true
      → Commits g staging x.graph
      → Leaves g ops x

rollback_staging-state :
    (s : StructuralGraph) (ctx : TransactionContext)
    → ((rollback_staging s ctx).state ≡ rolled_back) ⊎ ((rollback_staging s ctx).state ≡ failed)
unfolding rollback_staging
rollback_staging-state s ctx = elim (Outcome-cases (rollback s ctx.undo_log)) [
  | inl (h, e) ↦ inl (rw (e, rollback_staging) refl)
  | inr (x, e) ↦ inr (rw (e, rollback_staging) refl)
]

abort-Leaves :
    (why : TransactionError) (g s : StructuralGraph) (ctx : TransactionContext)
    (ops : List IrOperation)
    → Leaves g ops (abort why g s ctx)
unfolding abort
abort-Leaves why g s ctx ops =
    unchanged refl refl
      (rollback_staging-state s (record ctx { state = rolling_back; error_message = some why }))

if-Leaves :
    (g : StructuralGraph) (ops : List IrOperation) (b : Bool) (x y : Executed)
    → (b ≡ true → Leaves g ops x)
    → (b ≡ false → Leaves g ops y)
    → Leaves g ops (if b then x else y)
if-Leaves g ops true x y f h = f refl
if-Leaves g ops false x y f h = h refl

finish-Leaves :
    (g s : StructuralGraph) (ctx : TransactionContext) (ops : List IrOperation)
    → apply_all ops g ≡ some s
    → Leaves g ops (finish g s ctx)
unfolding finish
finish-Leaves g s ctx ops all =
    if-Leaves g ops (validate_graph s).is_valid _ _
      (λ e. done s refl refl all e (commit-Commits g s))
      (λ e. abort-Leaves _ g s (record ctx { validation_result = some (validate_graph s) }) ops)

-- The staged run and the reference: no error means that every operation succeeded and made the
-- staging graph.
abbrev pub Agrees : List IrOperation → StructuralGraph → Staged → Type 0
Agrees ops g staged = staged.error ≡ none → apply_all ops g ≡ some staged.graph

module _ (isolate : IrOperation → Outcome IrOperation)
    (copies : (op op' : IrOperation) → isolate op ≡ ok op' → op' ≡ op) where
  pub stage_one-none :
      (g : StructuralGraph) (undo : UndoLog) (op : IrOperation)
      → (stage_one isolate g undo op).error ≡ none
      → (validate op ≡ true)
        × ((apply_operation g op).success ≡ true)
        × ((stage_one isolate g undo op).graph ≡ (apply_operation g op).graph)
  unfolding stage_one stage_isolated stage_copy stopped
  stage_one-none g undo op h = elim (Outcome-cases (isolate op)) [
    | inr (x, e) ↦ absurd (ground (arith, e))
    | inl (op', e) ↦
        let own : isolate op ≡ ok op = e ∙ ap ok (copies op op' e) in ground (arith, own)
  ]

  pub stage_all-Agrees :
      (ops : List IrOperation) (g : StructuralGraph) (undo : UndoLog)
      → Agrees ops g (stage_all isolate g undo ops)
  unfolding stage_all apply_all
  stage_all-Agrees [] g undo h = refl
  stage_all-Agrees (op ∷ ops) g undo h = elim (Option-cases (stage_one isolate g undo op).error) [
    | inr (why, e) ↦ absurd (ground (arith, e))
    | inl e ↦
        let one : Staged = stage_one isolate g undo op in
        let (v, s, same) = stage_one-none g undo op e in
        let rest = stage_all-Agrees ops one.graph one.undo (ground (arith, e)) in
        ground (arith, e, v, s, rest, ap (apply_all ops) same)
  ]

  settle-Leaves :
      (o : Option TransactionError) (g s : StructuralGraph) (ctx : TransactionContext)
      (ops : List IrOperation)
      → (o ≡ none → apply_all ops g ≡ some s)
      → Leaves g ops (settle o g s ctx)
  unfolding settle
  settle-Leaves none g s ctx ops all = finish-Leaves g s ctx ops (all refl)
  settle-Leaves (some why) g s ctx ops all = abort-Leaves why g s ctx ops

  with_snapshot-Leaves :
      (o : Outcome StructuralGraph) (g : StructuralGraph) (ctx : TransactionContext)
      → ((s : StructuralGraph) → o ≡ ok s → s ≡ g)
      → Leaves g ctx.operations (with_snapshot isolate o g ctx)
  unfolding with_snapshot on_staging refuse
  with_snapshot-Leaves (raise e) g ctx own = unchanged refl refl (inr refl)
  with_snapshot-Leaves (ok s) g ctx own =
      let staged : Staged = stage_all isolate s ctx.undo_log ctx.operations in
      let all : Agrees ctx.operations s staged = stage_all-Agrees ctx.operations s ctx.undo_log in
      settle-Leaves staged.error g staged.graph _ ctx.operations
        (subst (λ x. Agrees ctx.operations x staged) (own s refl) all)

  module _ (snapshot : StructuralGraph → Outcome StructuralGraph)
      (faithful : (g g' : StructuralGraph) → snapshot g ≡ ok g' → g' ≡ g) where
    -- With copies that equal what they copy or raise, a transaction is all or nothing: a failure
    -- leaves the graph as it was and ends rolled back or failed; a success leaves the units, the
    -- edges, the retired identities and the other metadata that the operations, one after the other
    -- and each with success, make of a copy that the validator accepts, in the same graph with the
    -- same major, minor and patch numbers and the next sequence number.
    pub execute_transaction-Leaves :
        (tx_id : ℕ) (g : StructuralGraph) (ops : List IrOperation) (base : Option GraphVersion)
        → Leaves g ops (execute_transaction isolate snapshot tx_id g ops base)
    unfolding execute_transaction refuse
    execute_transaction-Leaves tx_id g ops base =
        if-Leaves g ops (same_version g.version (or_else base g.version)) _ _
          (λ e. with_snapshot-Leaves (snapshot g) g _ (faithful g))
          (λ e. unchanged refl refl (inr refl))

    -- With copies that equal what they copy or raise, every edge of the graph that a successful
    -- transaction leaves joins units of that graph and meets the rules of the validator.
    pub execute_transaction-EdgesSound :
        (tx_id : ℕ) (g : StructuralGraph) (ops : List IrOperation) (base : Option GraphVersion)
        → (execute_transaction isolate snapshot tx_id g ops base).success ≡ true
        → EdgesSound
            (execute_transaction isolate snapshot tx_id g ops base).graph.units
            []
            (execute_transaction isolate snapshot tx_id g ops base).graph.edges
    execute_transaction-EdgesSound tx_id g ops base h =
        sound_of _ (execute_transaction-Leaves tx_id g ops base) h
      where
        sound_of :
            (x : Executed)
            → Leaves g ops x
            → x.success ≡ true
            → EdgesSound x.graph.units [] x.graph.edges
        sound_of x (unchanged e same state) h = absurd (ground (arith, e, h))
        sound_of x (done s e state all valid same) h =
            rw (same.units_staged, same.edges_staged) (validate_graph-EdgesSound s valid)

stale :
    (isolate : IrOperation → Outcome IrOperation)
    (snapshot : StructuralGraph → Outcome StructuralGraph) (tx_id : ℕ) (g : StructuralGraph)
    (ops : List IrOperation) (base : GraphVersion)
    → same_version g.version base ≡ false
    → ((execute_transaction isolate snapshot tx_id g ops (some base)).success ≡ false)
      × ((execute_transaction isolate snapshot tx_id g ops (some base)).graph ≡ g)
      × ((execute_transaction isolate snapshot tx_id g ops (some base)).context.state ≡ failed)
      × ((execute_transaction isolate snapshot tx_id g ops (some base)).context.error_message
          ≡ some occ_conflict)
unfolding execute_transaction refuse
stale isolate snapshot tx_id g ops base h =
    (ground (arith, h), ground (arith, h), ground (arith, h), ground (arith, h))

-- With copies that equal what they copy or raise, once a transaction from the present version has
-- succeeded, a second one from that same version fails with an OCC conflict and leaves the graph of
-- the first one, whatever its operations are.
pub second_conflicts :
    (isolate : IrOperation → Outcome IrOperation)
    (copies : (op op' : IrOperation) → isolate op ≡ ok op' → op' ≡ op)
    (snapshot : StructuralGraph → Outcome StructuralGraph)
    (faithful : (g g' : StructuralGraph) → snapshot g ≡ ok g' → g' ≡ g) (tx_id tx_id' : ℕ)
    (g : StructuralGraph) (ops ops' : List IrOperation)
    → (execute_transaction isolate snapshot tx_id g ops (some g.version)).success ≡ true
    → let first : Executed = execute_transaction isolate snapshot tx_id g ops (some g.version) in
      let second : Executed =
        execute_transaction isolate snapshot tx_id' first.graph ops' (some g.version) in
      (second.success ≡ false)
      × (second.graph ≡ first.graph)
      × (second.context.state ≡ failed)
      × (second.context.error_message ≡ some occ_conflict)
second_conflicts isolate copies snapshot faithful tx_id tx_id' g ops ops' h =
    let first : Executed = execute_transaction isolate snapshot tx_id g ops (some g.version) in
    refused first.graph (
      moved first
        (execute_transaction-Leaves isolate copies snapshot faithful tx_id g ops (some g.version))
        h)
  where
    moved :
        (x : Executed)
        → Leaves g ops x
        → x.success ≡ true
        → x.graph.version.sequence ≡ suc g.version.sequence
    moved x (unchanged e same state) done_ = absurd (ground (arith, e, done_))
    moved x (done s e state all valid same) done_ = same.next

    refused :
        (g' : StructuralGraph)
        → g'.version.sequence ≡ suc g.version.sequence
        → ((execute_transaction isolate snapshot tx_id' g' ops' (some g.version)).success ≡ false)
          × ((execute_transaction isolate snapshot tx_id' g' ops' (some g.version)).graph ≡ g')
          × ((execute_transaction isolate snapshot tx_id' g' ops' (some g.version)).context.state
              ≡ failed)
          × ((execute_transaction isolate snapshot tx_id' g' ops'
                (some g.version)).context.error_message
              ≡ some occ_conflict)
    refused g' e = stale isolate snapshot tx_id' g' ops' g.version (ground (arith, e))
