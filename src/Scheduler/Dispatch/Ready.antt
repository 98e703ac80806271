-- ===== src/Scheduler/Dispatch/Ready.antt =====
-- What `dispatch` of src/dnc/scheduler/scheduler.py does with an instance whose preconditions are met.
use dynamic_neural_computing.Prelude.{
  ℕ, ◌==◌, ◌≡◌, ◌≢◌, refl, sym, ap, ◌∙◌, true, some, List, [], ◌∷◌, all, all_of_mem, all_at, length,
  lookup, Exception, if◌then◌else◌, lookup-insert, IsSubset, Outcome, ok, raise, arith,
  Option-cases, inl, inr,
}
use dynamic_neural_computing.State.WorkingMemory.{
  WorkingMemory, Buffer, Slot, unbound, pending, value, get, get_item, get_output, set_item,
  is_complete, is_complete_slot,
}
use dynamic_neural_computing.Scheduler.{Scheduler, succs}
use dynamic_neural_computing.Scheduler.Dispatch.{
  are_preconditions_met, gather, Inputs, single, many, inputs_of, result_buffer, dispatch,
}
use dynamic_neural_computing.Scheduler.Dispatch.Laws.{all_ready-eq}

module _ {A : Type 0} where
  -- The outputs of the instances, one by one.
  abbrev pub Outputs : WorkingMemory A → List ℕ → List A → Type 0
  Outputs wm [] [] = Unit
  Outputs wm [] (a ∷ xs) = ⊥
  Outputs wm (u ∷ us) [] = ⊥
  Outputs wm (u ∷ us) (a ∷ xs) =
      (c : Buffer A) × (get wm u ≡ some c) × (c.output ≡ value a) × Outputs wm us xs

  -- A single input is handed over as it is, and none or several as a list.
  abbrev pub IsArgument : List A → Inputs A → Type 0
  IsArgument inputs arg =
      ((a : A) → inputs ≡ a ∷ [] → arg ≡ single a) × (length inputs ≢ 1 → arg ≡ many inputs)

  slot_value : (slot : Slot A) → is_complete_slot slot ≡ true → (a : A) × (slot ≡ value a)
  slot_value unbound h = absurd (ground (arith, h))
  slot_value pending h = absurd (ground (arith, h))
  slot_value (value a) h = (a, refl)

  complete-gather :
      (wm : WorkingMemory A) (us : List ℕ)
      → all (is_complete wm) us ≡ true
      → (xs : List A) × (gather wm us ≡ ok xs) × Outputs wm us xs
  unfolding gather get_output get_item is_complete get
  complete-gather wm [] h = ([], refl, tt)
  complete-gather wm (u ∷ us) h = elim (Option-cases (lookup u wm.entries)) [
    | inl missing ↦ absurd (ground (arith, h, missing))
    | inr (c, found) ↦
        let (a, out) = slot_value c.output (ground (arith, h, found)) in
        let (xs, gathered, outs) = complete-gather wm us (ground (arith, h)) in
        (a ∷ xs, ground (arith, found, out, gathered), (c, found, out, outs))
  ]

  inputs_of-IsArgument : (xs : List A) → IsArgument xs (inputs_of xs)
  unfolding inputs_of
  inputs_of-IsArgument [] = (λ a e. absurd (ground (arith, e)), λ n. refl)
  inputs_of-IsArgument (x ∷ []) = (λ a e. ground (arith, e), λ n. absurd (n refl))
  inputs_of-IsArgument (x ∷ y ∷ xs) = (λ a e. absurd (ground (arith, e)), λ n. refl)

  result_buffer_lem :
      (b : Buffer A) (r : Slot A)
      → result_buffer b r ≡ record { input = b.input; output = r; metadata = b.metadata }
  unfolding result_buffer
  result_buffer_lem b unbound = refl
  result_buffer_lem b pending = refl
  result_buffer_lem b (value a) = refl

  -- Where the preconditions of a registered instance are met and the order by addresses adds no
  -- predecessor, dispatch calls the module on the outputs of the predecessors in that order, a
  -- single one as it is and none or several as a list, and returns or raises what the module does;
  -- what it returns is stored as the output of the instance, whose input and metadata stay as every
  -- other buffer does, and where it raises no buffer changes.
  pub dispatch_ready :
      (by_address : List ℕ → List ℕ) (s : Scheduler) (wm : WorkingMemory A) (n : ℕ)
      (fn : Inputs A → Outcome (Slot A)) (b : Buffer A)
      → ((us : List ℕ) → IsSubset (by_address us) us)
      → are_preconditions_met s wm n ≡ true
      → get wm n ≡ some b
      → (inputs : List A) × (arg : Inputs A) × Outputs wm (by_address (succs s.reversed n)) inputs
        × IsArgument inputs arg
        × ((dispatch by_address s wm n fn).0 ≡ fn arg)
        × ((r : Slot A)
            → fn arg ≡ ok r
            → (m : ℕ)
            → get (dispatch by_address s wm n fn).1 m ≡ (
                if m == n
                then some (record { input = b.input; output = r; metadata = b.metadata })
                else get wm m))
        × ((e : Exception) → fn arg ≡ raise e → (dispatch by_address s wm n fn).1 ≡ wm)
  unfolding dispatch are_preconditions_met get set_item
  dispatch_ready by_address s wm n fn b same met found =
      let us : List ℕ = by_address (succs s.reversed n) in
      let complete : all (is_complete wm) us ≡ true = all_of_mem (is_complete wm) us λ u m.
        all_at (is_complete wm) (succs s.reversed n) u
          (sym (all_ready-eq wm (succs s.reversed n)) ∙ met) (same (succs s.reversed n) u m) in
      let (inputs, gathered, outs) = complete-gather wm us complete in
      (
        inputs,
        inputs_of inputs,
        outs,
        inputs_of-IsArgument inputs,
        ground (arith, gathered, found),
        λ r e m.
            let after : (dispatch by_address s wm n fn).1 ≡ set_item wm n (result_buffer b r) =
              ground (arith, gathered, found, e) in
            ap (λ (x : WorkingMemory A). lookup m x.entries) after
            ∙ lookup-insert m n (result_buffer b r) wm.entries
            ∙ ap (λ x. if m == n then some x else lookup m wm.entries) (result_buffer_lem b r),
        λ x e. ground (arith, gathered, found, e),
      )
