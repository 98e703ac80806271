-- ===== src/State/WorkingMemory.antt =====
-- Working memory, src/dnc/state/working_memory.py, with the buffers of src/dnc/runtime/types.py.
-- A module instance is known by a number: the code only compares instances. `_entries` is copied
-- on each write, so a working memory is a value.
pub mod Laws
use dynamic_neural_computing.Prelude.{
  ℕ, Bool, true, false, Option, none, some, List, [], Dict, lookup, contains, insert, keys, length,
  Outcome, ok, raise, require, ◌>>=◌, key_error, value_error, if◌then◌else◌,
}

-- `UNBOUND()`, `PENDING()`, or any other value.
pub data Slot (A : Type 0) : Type 0 where
  unbound : Slot A
  pending : Slot A
  value : A → Slot A

pub record Buffer (A : Type 0) : Type 0 where
  pub input : Slot A
  pub output : Slot A
  pub metadata : Dict A

pub record WorkingMemory (A : Type 0) : Type 0 where
  pub entries : Dict (Buffer A)

module _ {A : Type 0} where
  -- `Buffer.unbound_input`, `Buffer.with_input` and `Buffer.completed`.
  unfoldable pub unbound_input : Buffer A
  unbound_input = record { input = unbound; output = unbound; metadata = [] }

  unfoldable pub with_input : A → Buffer A
  with_input x = record { input = value x; output = unbound; metadata = [] }

  unfoldable pub completed : A → A → Option (Dict A) → Buffer A
  completed x y none = record { input = value x; output = value y; metadata = [] }
  completed x y (some m) = record { input = value x; output = value y; metadata = m }

  abbrev pub is_bound_slot : Slot A → Bool
  is_bound_slot unbound = false
  is_bound_slot pending = true
  is_bound_slot (value a) = true

  -- Neither UNBOUND nor PENDING.
  abbrev pub is_complete_slot : Slot A → Bool
  is_complete_slot unbound = false
  is_complete_slot pending = false
  is_complete_slot (value a) = true

  -- `__getitem__`
  unfoldable pub get_item : WorkingMemory A → ℕ → Outcome (Buffer A)
  get_item wm i = require (lookup i wm.entries)

  -- `__setitem__`
  unfoldable pub set_item : WorkingMemory A → ℕ → Buffer A → WorkingMemory A
  set_item wm i b = record { entries = insert i b wm.entries }

  -- `__contains__`
  unfoldable pub has_item : WorkingMemory A → ℕ → Bool
  has_item wm i = contains i wm.entries

  unfoldable pub get : WorkingMemory A → ℕ → Option (Buffer A)
  get wm i = lookup i wm.entries

  -- `__len__`
  unfoldable pub size : WorkingMemory A → ℕ
  size wm = length wm.entries

  unfoldable pub register : WorkingMemory A → ℕ → Outcome (WorkingMemory A)
  unfolding unbound_input
  register wm i =
      if contains i wm.entries
      then raise value_error
      else ok (record { entries = insert i unbound_input wm.entries })

  unfoldable pub is_bound : WorkingMemory A → ℕ → Bool
  is_bound wm i = elim (lookup i wm.entries) [ none ↦ false | some b ↦ is_bound_slot b.input ]

  unfoldable pub is_complete : WorkingMemory A → ℕ → Bool
  is_complete wm i = elim (lookup i wm.entries) [
    | none ↦ false
    | some b ↦ is_complete_slot b.output
  ]

  abbrev pub output_of : Slot A → Outcome A
  output_of unbound = raise value_error
  output_of pending = raise value_error
  output_of (value a) = ok a

  unfoldable pub get_output : WorkingMemory A → ℕ → Outcome A
  unfolding get_item
  get_output wm i = get_item wm i >>= λ b. output_of b.output
