-- ===== src/Scheduler/Dispatch.antt =====
-- `get_runnable`, `_are_preconditions_met`, `dispatch` and `step` of src/dnc/scheduler/scheduler.py.
-- `sorted(upstreams, key=id)` orders by addresses in memory, which the program does not choose: the
-- order is the parameter `by_address`. The module that runs is the parameter `fn`; it returns a
-- value, PENDING or UNBOUND, or raises.
pub mod Laws
pub mod Ready
use dynamic_neural_computing.Prelude.{
  ℕ, Bool, true, false, not, Option, none, some, List, [], ◌∷◌, Outcome, ok, raise, ◌>>=◌,
  value_error, if◌then◌else◌,
}
use dynamic_neural_computing.State.WorkingMemory.{
  WorkingMemory, Buffer, Slot, unbound, pending, value, get, set_item, is_complete, get_output,
  is_complete_slot,
}
use dynamic_neural_computing.Scheduler.{Graph, Scheduler, succs, get_dispatch_order}

module _ {A : Type 0} where
  -- The loop of `_are_preconditions_met`.
  pub all_ready : WorkingMemory A → List ℕ → Bool
  unfolding get
  all_ready wm [] = true
  all_ready wm (u ∷ us) =
      let rest = all_ready wm us in
      elim (get wm u) [
        | none ↦ false
        | some b ↦ if not (is_complete_slot b.output) then false else rest
      ]

  unfoldable pub are_preconditions_met : Scheduler → WorkingMemory A → ℕ → Bool
  unfolding all_ready
  are_preconditions_met s wm node = all_ready wm (succs s.reversed node)

  -- The loop of `get_runnable`.
  pub runnable : Scheduler → WorkingMemory A → List ℕ → List ℕ
  unfolding are_preconditions_met is_complete
  runnable s wm [] = []
  runnable s wm (n ∷ ns) =
      let rest = runnable s wm ns in
      if is_complete wm n
      then rest
      else if not (are_preconditions_met s wm n)
      then rest
      else n ∷ rest

  unfoldable pub get_runnable : Scheduler → WorkingMemory A → Outcome (List ℕ) × Scheduler
  unfolding runnable get_dispatch_order
  get_runnable s wm =
      let (order, s') = get_dispatch_order s in
      elim order [ ok ns ↦ (ok (runnable s' wm ns), s') | raise e ↦ (raise e, s') ]

  -- `step` only lists what can run.
  pub step : Scheduler → WorkingMemory A → Outcome (List ℕ) × Scheduler
  unfolding get_runnable
  step s wm = get_runnable s wm

  -- `[wm.get_output(u) for u in us]`
  pub gather : WorkingMemory A → List ℕ → Outcome (List A)
  unfolding get_output
  gather wm [] = ok []
  gather wm (u ∷ us) = get_output wm u >>= λ a. gather wm us >>= λ rest. ok (a ∷ rest)

-- `inputs[0] if len(inputs) == 1 else inputs`
pub data Inputs (A : Type 0) : Type 0 where
  single : A → Inputs A
  many : List A → Inputs A

module _ {A : Type 0} where
  pub inputs_of : List A → Inputs A
  inputs_of (a ∷ []) = single a
  inputs_of xs = many xs

  -- The buffer that holds the result: PENDING is marked so, any other result is the output.
  pub result_buffer : Buffer A → Slot A → Buffer A
  result_buffer b pending = record { input = b.input; output = pending; metadata = b.metadata }
  result_buffer b r = record { input = b.input; output = r; metadata = b.metadata }

  pub dispatch :
      (List ℕ → List ℕ)
      → Scheduler
      → WorkingMemory A
      → ℕ
      → (Inputs A → Outcome (Slot A))
      → Outcome (Slot A) × WorkingMemory A
  unfolding gather inputs_of result_buffer get set_item
  dispatch by_address s wm n fn = elim (gather wm (by_address (succs s.reversed n))) [
    | raise e ↦ (raise e, wm)
    | ok inputs ↦ elim (get wm n) [
      | none ↦ (raise value_error, wm)
      | some b ↦ elim (fn (inputs_of inputs)) [
        | raise e ↦ (raise e, wm)
        | ok r ↦ (ok r, set_item wm n (result_buffer b r))
      ]
    ]
  ]
