-- ===== src/State/Execution.antt =====
-- src/dnc/state/execution_state.py, and `RuntimeInvariantSet` of
-- src/dnc/invariants/runtime_invariants.py. `A` is the type of the values in the buffers, `S` of the
-- components of a checkpoint, `R` of the registry snapshot and `F` of the floats, of which only the
-- default budget `one` is used. `copy.deepcopy` is a parameter at each type that is copied. `none` stands for None. `G` is a scheduler, as the runtime sets it.
pub mod Laws
use dynamic_neural_computing.Prelude.{
  ℕ, suc, ◌+◌, ◌*◌, ◌%◌, ◌^◌, Bool, true, false, not, ◌==◌, Option, none, some, or_else, List, [],
  ◌∷◌, Dict, length, keys, Outcome, ok, raise, ◌>>=◌, state_component_violation,
  invariant_violation, zero_division, ltb, if◌then◌else◌,
}
use dynamic_neural_computing.State.WorkingMemory.{WorkingMemory, Buffer, is_complete}
use dynamic_neural_computing.State.History.{HistoryLog, empty_log}
use dynamic_neural_computing.State.Checkpoints.{CheckpointRecord, empty_record}
use dynamic_neural_computing.Scheduler.{Scheduler, has_cycle}

pub record ExecutionState (A S R F : Type 0) : Type 0 where
  pub step_index : ℕ
  pub execution_id : ℕ
  pub rng_state : ℕ
  pub w : Option (WorkingMemory A)
  pub m : Option R
  pub c : Option (CheckpointRecord S)
  pub h : Option (HistoryLog A)
  pub g : Option Scheduler
  pub budget_remaining : F

-- The dict of `to_dict`: the outer option is whether the key is there.
pub record SavedState (A S R F : Type 0) : Type 0 where
  pub w : Option (Option (WorkingMemory A))
  pub m : Option (Option R)
  pub c : Option (Option (CheckpointRecord S))
  pub h : Option (Option (HistoryLog A))
  pub step_index : Option ℕ
  pub execution_id : Option ℕ
  pub rng_state : Option ℕ
  pub g : Option (Option Scheduler)
  pub budget_remaining : Option F

abbrev required : {B : Type 0} → Option B → Outcome (Unit {0})
required none = raise state_component_violation
required (some b) = ok tt

-- The number of instances in a list that are not complete.
pub pending_in : {A : Type 0} → WorkingMemory A → List ℕ → ℕ
pending_in wm [] = 0
pending_in wm (i ∷ is) = (if is_complete wm i then 0 else 1) + pending_in wm is

-- A new record, with the default bound, that holds the same checkpoints.
abbrev pub copy_checkpoints : {S : Type 0} → Option (CheckpointRecord S) → CheckpointRecord S
copy_checkpoints none = empty_record
copy_checkpoints (some c) = record empty_record { checkpoints = c.checkpoints }

-- A log without entries is false in Python, and is replaced by a new one.
pub copy_history : {A : Type 0} → Option (HistoryLog A) → HistoryLog A
copy_history none = empty_log
copy_history (some h) = if length h.entries == 0 then empty_log else h

-- So is an empty registry.
pub copy_registry : {R : Type 0} → (R → Bool) → R → Option R → R
copy_registry is_empty no_registry none = no_registry
copy_registry is_empty no_registry (some m) = if is_empty m then no_registry else m

-- `copy.deepcopy` of the components that `from_dict` copies: a copy, or an exception.
pub record Deepcopy (A S R : Type 0) : Type 0 where
  pub of_w : Option (WorkingMemory A) → Outcome (Option (WorkingMemory A))
  pub of_m : Option R → Outcome (Option R)
  pub of_c : Option (CheckpointRecord S) → Outcome (Option (CheckpointRecord S))
  pub of_h : Option (HistoryLog A) → Outcome (Option (HistoryLog A))

module _ {A S R F : Type 0} where
  -- `_validate_components`
  unfoldable pub validate_components : ExecutionState A S R F → Outcome (Unit {0})
  validate_components es = required es.w >>= λ _.
      required es.m >>= λ _. required es.c >>= λ _. required es.h >>= λ _. ok tt

  -- The property `pending_count`.
  pub pending_count : ExecutionState A S R F → ℕ
  unfolding pending_in is_complete
  pending_count es = elim es.w [
    | none ↦ 1
    | some wm ↦ if length wm.entries == 0 then 1 else pending_in wm (keys wm.entries)
  ]

  pub advance_step : ExecutionState A S R F → ℕ × ExecutionState A S R F
  advance_step es = (suc es.step_index, record es { step_index = suc es.step_index })

  pub advance_rng : ExecutionState A S R F → ℕ → ℕ × ExecutionState A S R F
  advance_rng es n = (es.rng_state + n, record es { rng_state = es.rng_state + n })

  pub initialize_from_seed : ExecutionState A S R F → ℕ → ExecutionState A S R F
  initialize_from_seed es seed = record es { rng_state = seed }

  -- `% 0` raises ZeroDivisionError.
  unfoldable pub get_rng_int : ExecutionState A S R F → ℕ → Outcome ℕ
  get_rng_int es bound =
      if bound == 0
      then raise zero_division
      else ok ((es.rng_state * 1103515245 + 12345) % 2 ^ 31 % bound)

  pub set_execution_id : ExecutionState A S R F → ℕ → ExecutionState A S R F
  set_execution_id es i = record es { execution_id = i }

  pub to_dict : ExecutionState A S R F → SavedState A S R F
  to_dict es = record {
    w = some es.w;
    m = some es.m;
    c = some es.c;
    h = some es.h;
    step_index = some es.step_index;
    execution_id = some es.execution_id;
    rng_state = some es.rng_state;
    g = some es.g;
    budget_remaining = none;
  }

-- What the defaults are: a new identifier, the empty registry and the budget 1.0.
module _ {A S R F : Type 0} (fresh_id : ℕ) (no_registry : R) (one : F) where
  -- `ExecutionState()`
  pub new_state : ExecutionState A S R F
  new_state = record {
    step_index = 0;
    execution_id = fresh_id;
    rng_state = 0;
    w = some (record { entries = [] });
    m = some no_registry;
    c = some empty_record;
    h = some empty_log;
    g = none;
    budget_remaining = one;
  }

  pub from_dict : Deepcopy A S R → SavedState A S R F → Outcome (ExecutionState A S R F)
  unfolding validate_components
  from_dict deepcopy d = deepcopy.of_w (or_else d.w (some (record { entries = [] }))) >>= λ w.
      deepcopy.of_m (or_else d.m (some no_registry)) >>= λ m.
      deepcopy.of_c (or_else d.c (some empty_record)) >>= λ c.
      deepcopy.of_h (or_else d.h (some empty_log)) >>= λ h.
      let es : ExecutionState A S R F = record {
        step_index = or_else d.step_index 0;
        execution_id = or_else d.execution_id fresh_id;
        rng_state = or_else d.rng_state 0;
        w = w;
        m = m;
        c = c;
        h = h;
        g = or_else d.g none;
        budget_remaining = or_else d.budget_remaining one;
      } in
      validate_components es >>= λ _. ok es

  -- `copy`. An empty container is false in Python, and is replaced by a new one.
  pub copy : (is_empty : R → Bool) → ExecutionState A S R F → ExecutionState A S R F
  unfolding copy_registry copy_history
  copy is_empty es = record {
    step_index = es.step_index;
    execution_id = es.execution_id;
    rng_state = es.rng_state;
    w = some (or_else es.w (record { entries = [] }));
    m = some (copy_registry is_empty no_registry es.m);
    c = some (copy_checkpoints es.c);
    h = some (copy_history es.h);
    g = es.g;
    budget_remaining = one;
  }

-- The checks of `RuntimeInvariantSet`. `W`, `C` and `H` are there after the first one; a buffer is
-- never None and a step index never negative, by their types.
-- `_check_dag`: a graph that is there has nodes and no cycle.
pub check_dag : Option Scheduler → Outcome (Unit {0})
check_dag none = ok tt
check_dag (some s) =
    if length s.in_degree == 0
    then raise invariant_violation
    else has_cycle s >>= λ cyclic. if cyclic then raise invariant_violation else ok tt

-- `_check_checkpoint_record`
pub check_checkpoint_record : {S : Type 0} → Option (CheckpointRecord S) → Outcome (Unit {0})
check_checkpoint_record none = raise invariant_violation
check_checkpoint_record (some c) =
    if ltb 100 (length c.checkpoints) then raise invariant_violation else ok tt

module _ {A S R F : Type 0} where
  pub check_invariants : ExecutionState A S R F → Outcome (Unit {0})
  unfolding validate_components check_dag check_checkpoint_record
  check_invariants es =
      validate_components es >>= λ _. check_dag es.g >>= λ _. check_checkpoint_record es.c
