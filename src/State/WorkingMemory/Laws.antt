-- ===== src/State/WorkingMemory/Laws.antt =====
-- Reads after writes and registration, and when a module instance counts as complete.
use dynamic_neural_computing.Prelude.{
  ℕ, ◌==◌, ◌≡◌, true, false, ok, arith, lookup-insert, is_ok, if◌then◌else◌,
}
use dynamic_neural_computing.State.WorkingMemory.{
  WorkingMemory, Buffer, get_item, set_item, has_item, register, is_bound, is_complete, get_output,
  unbound_input, is_complete_slot,
}

module _ {A : Type 0} where
  -- A write is read back at its own instance, and no other instance is affected.
  pub get_item-set_item :
      (wm : WorkingMemory A) (i j : ℕ) (b : Buffer A)
      → get_item (set_item wm i b) j ≡ (if j == i then ok b else get_item wm j)
  unfolding get_item set_item
  get_item-set_item wm i j b = ground (arith, lookup-insert j i b wm.entries)

  pub is_complete-set_item :
      (wm : WorkingMemory A) (i j : ℕ) (b : Buffer A)
      → is_complete (set_item wm i b) j
        ≡ (if j == i then is_complete_slot b.output else is_complete wm j)
  unfolding is_complete set_item
  is_complete-set_item wm i j b = ground (arith, lookup-insert j i b wm.entries)

  -- `get_output` returns a value exactly for the instances that are complete.
  pub is_ok-get_output : (wm : WorkingMemory A) (i : ℕ) → is_ok (get_output wm i) ≡ is_complete wm i
  unfolding is_complete get_output
  is_ok-get_output wm i = ground arith

  -- A registration that succeeds was of an instance that was not in the memory; the instance is
  -- then there, neither bound nor complete, and every other instance reads as before.
  pub register_fresh :
      (wm after : WorkingMemory A) (i j : ℕ)
      → register wm i ≡ ok after
      → (has_item wm i ≡ false)
        × (has_item after i ≡ true)
        × (is_bound after i ≡ false)
        × (is_complete after i ≡ false)
        × (get_item after j ≡ (if j == i then ok unbound_input else get_item wm j))
  unfolding register has_item is_bound is_complete get_item
  register_fresh wm after i j e = ground (
    arith,
    lookup-insert i i unbound_input wm.entries,
    lookup-insert j i unbound_input wm.entries,
  )
