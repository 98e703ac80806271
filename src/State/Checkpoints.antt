-- ===== src/State/Checkpoints.antt =====
-- src/dnc/state/checkpoint.py. `es_snapshot` is a dict from names to components, of a type `S`, with
-- `none` for None. The clock is an argument of `take`, and `copy.deepcopy` a parameter that
-- gives a copy or raises.
pub mod Laws
use dynamic_neural_computing.Prelude.{
  ℕ, suc, ℤ, pos, negsuc, Bool, true, false, not, Option, none, some, List, [], ◌∷◌, ◌++◌, length,
  tail, get_last?, find?, reverse, Dict, lookup, Outcome, ok, raise, ◌>>=◌, invalid_checkpoint, ltb,
  ◌==◌, if◌then◌else◌,
}

-- The keys of `es_snapshot`.
abbrev pub key_w : ℕ
key_w = 0

abbrev pub key_m : ℕ
key_m = 1

abbrev pub key_c : ℕ
key_c = 2

abbrev pub key_h : ℕ
key_h = 3

pub record Checkpoint (S : Type 0) : Type 0 where
  pub step_index : ℤ
  pub execution_id : ℕ
  pub timestamp : ℕ
  pub es_snapshot : Option (Dict (Option S))
  pub provenance_ref : ℕ
  pub is_valid : Bool

-- `CheckpointRecord`, with the field `MAX_CHECKPOINTS`.
pub record CheckpointRecord (S : Type 0) : Type 0 where
  pub max_checkpoints : ℕ
  pub checkpoints : List (Checkpoint S)

abbrev pub is_negative : ℤ → Bool
is_negative (pos n) = false
is_negative (negsuc n) = true

abbrev pub same_step : ℤ → ℤ → Bool
same_step (pos a) (pos b) = a == b
same_step (negsuc a) (negsuc b) = a == b
same_step _ _ = false

module _ {S : Type 0} where
  pub take :
      (Dict (Option S) → Outcome (Dict (Option S)))
      → ℕ
      → ℤ
      → ℕ
      → Dict (Option S)
      → ℕ
      → Outcome (Checkpoint S)
  take deepcopy now step exec snapshot ref = deepcopy snapshot >>= λ copied. ok (record {
    step_index = step;
    execution_id = exec;
    timestamp = now;
    es_snapshot = some copied;
    provenance_ref = ref;
    is_valid = false;
  })

  -- The loop over the names of the components that must be there.
  pub check_components : List ℕ → Dict (Option S) → Outcome (Unit {0})
  check_components [] d = ok tt
  check_components (k ∷ ks) d =
      let rest = check_components ks d in
      elim (lookup k d) [
        | none ↦ raise invalid_checkpoint
        | some c ↦ elim c [ none ↦ raise invalid_checkpoint | some _ ↦ rest ]
      ]

  -- `validate`, which marks the checkpoint. That `step_index` is an int and `provenance_ref` a
  -- string is given by their types.
  unfoldable pub validate : Checkpoint S → Outcome (Checkpoint S)
  unfolding check_components
  validate ck = elim ck.es_snapshot [
    | none ↦ raise invalid_checkpoint
    | some d ↦
        if is_negative ck.step_index
        then raise invalid_checkpoint
        else check_components (key_w ∷ key_m ∷ key_c ∷ key_h ∷ []) d >>= λ _.
            ok (record ck { is_valid = true })
  ]

  abbrev pub empty_record : CheckpointRecord S
  empty_record = record { max_checkpoints = 100; checkpoints = [] }

  -- `if len(cs) > MAX_CHECKPOINTS: cs.pop(0)`
  pub evict : ℕ → List (Checkpoint S) → List (Checkpoint S)
  evict bound cs = if ltb bound (length cs) then tail cs else cs

  pub add : Checkpoint S → CheckpointRecord S → Outcome (CheckpointRecord S)
  unfolding evict
  add ck r =
      if not ck.is_valid
      then raise invalid_checkpoint
      else ok (record r { checkpoints = evict r.max_checkpoints (r.checkpoints ++ ck ∷ []) })

  pub latest : CheckpointRecord S → Option (Checkpoint S)
  latest r = get_last? r.checkpoints

  -- `get`: the newest checkpoint of a step.
  pub get : ℤ → CheckpointRecord S → Option (Checkpoint S)
  get step r = find? (λ ck. same_step ck.step_index step) (reverse r.checkpoints)

  -- `__len__`
  unfoldable pub size : CheckpointRecord S → ℕ
  size r = length r.checkpoints
