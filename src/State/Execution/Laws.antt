-- ===== src/State/Execution/Laws.antt =====
-- Saving and restoring the execution state, and the generator of random numbers.
use dynamic_neural_computing.Prelude.{
  ℕ, ◌<◌, ◌≤◌, ◌≡◌, some, ok, arith, true, false, length, is_some, ◌&&◌, Option, >>=-eq-ok,
}
use dynamic_neural_computing.State.Checkpoints.{CheckpointRecord}
use dynamic_neural_computing.State.WorkingMemory.{WorkingMemory}
use dynamic_neural_computing.State.History.{HistoryLog}
use dynamic_neural_computing.Scheduler.{Scheduler, has_cycle}
use dynamic_neural_computing.State.Execution.{
  ExecutionState, validate_components, get_rng_int, to_dict, from_dict, check_invariants, Deepcopy,
}

-- Copies that equal what they copy.
pub record IsFaithful {A S R : Type 0} (d : Deepcopy A S R) : Type 0 where
  pub of_w : (x y : Option (WorkingMemory A)) → d.of_w x ≡ ok y → y ≡ x
  pub of_m : (x y : Option R) → d.of_m x ≡ ok y → y ≡ x
  pub of_c : (x y : Option (CheckpointRecord S)) → d.of_c x ≡ ok y → y ≡ x
  pub of_h : (x y : Option (HistoryLog A)) → d.of_h x ≡ ok y → y ≡ x

module _ {A S R F : Type 0} where
  -- A number that get_rng_int draws lies below its bound.
  pub get_rng_int-lt :
      (es : ExecutionState A S R F) (bound n : ℕ) → get_rng_int es bound ≡ ok n → n < bound
  unfolding get_rng_int
  get_rng_int-lt es bound n e = ground arith

  -- A restored state, with copies that equal what they copy or raise, is the state that was saved,
  -- but for the budget; all its components are there.
  pub from_dict-to_dict :
      (fresh_id : ℕ) (no_registry : R) (one : F) (deepcopy : Deepcopy A S R)
      (es out : ExecutionState A S R F)
      → IsFaithful deepcopy
      → from_dict fresh_id no_registry one deepcopy (to_dict es) ≡ ok out
      → (out ≡ record es { budget_remaining = one })
        × ((is_some es.w && is_some es.m && is_some es.c && is_some es.h) ≡ true)
  unfolding from_dict to_dict validate_components
  from_dict-to_dict fresh_id no_registry one deepcopy es out f e =
      let (w, e_w, rest_w) = >>=-eq-ok (deepcopy.of_w es.w) _ e in
      let (m, e_m, rest_m) = >>=-eq-ok (deepcopy.of_m es.m) _ rest_w in
      let (c, e_c, rest_c) = >>=-eq-ok (deepcopy.of_c es.c) _ rest_m in
      let (h, e_h, rest_h) = >>=-eq-ok (deepcopy.of_h es.h) _ rest_c in
      let same_w : w ≡ es.w = f.of_w es.w w e_w in
      let same_m : m ≡ es.m = f.of_m es.m m e_m in
      let same_c : c ≡ es.c = f.of_c es.c c e_c in
      let same_h : h ≡ es.h = f.of_h es.h h e_h in
      (
        ground (arith, rest_h, same_w, same_m, same_c, same_h),
        ground (arith, rest_h, same_w, same_m, same_c, same_h),
      )

  -- What passes the runtime's checks has all its components, at most 100 checkpoints, and a graph
  -- with nodes in which no cycle is found.
  pub check_invariants-eq-ok :
      (es : ExecutionState A S R F) (c : CheckpointRecord S) (s : Scheduler)
      → es.c ≡ some c
      → es.g ≡ some s
      → check_invariants es ≡ ok tt
      → ((is_some es.w && is_some es.m && is_some es.h) ≡ true)
        × (length c.checkpoints ≤ 100)
        × (0 < length s.in_degree)
        × (has_cycle s ≡ ok false)
  unfolding check_invariants
  check_invariants-eq-ok es c s there graph e = ground arith
