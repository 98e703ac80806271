-- ===== src/State/Tests.antt =====
-- The theorems on the state at small values: numbers in the buffers, unit for every other type.

use dynamic_neural_computing.Prelude.{ℕ, ◌≡◌, ◌≤◌, refl, true, some, [], ◌∷◌, ok, pos, arith}
use dynamic_neural_computing.State.Checkpoints.{
  Checkpoint, CheckpointRecord, add, latest, key_w, key_m, key_c, key_h, size as record_size,
  get as find,
}
use dynamic_neural_computing.State.Checkpoints.Laws.{add_lem}

abbrev full_checkpoint : Checkpoint ℕ
full_checkpoint = record {
  step_index = pos 4;
  execution_id = 1;
  timestamp = 0;
  es_snapshot = some ((key_w, some 0) ∷ (key_m, some 0) ∷ (key_c, some 0) ∷ (key_h, some 0) ∷ []);
  provenance_ref = 0;
  is_valid = true;
}

-- A record that is full.
abbrev full_record : CheckpointRecord ℕ
full_record = record {
  max_checkpoints = 1;
  checkpoints = record full_checkpoint { step_index = pos 3 } ∷ [];
}

add_lem_example :
    (after : CheckpointRecord ℕ) × (add full_checkpoint full_record ≡ ok after)
    × (record_size after ≤ after.max_checkpoints)
    × (latest after ≡ some full_checkpoint)
    × (find (pos 4) after ≡ some full_checkpoint)
unfolding record_size
add_lem_example = add_lem full_checkpoint full_record refl (omega arith) (omega arith)
