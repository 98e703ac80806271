-- ===== src/State/History.antt =====
-- `HistoryLog` of src/dnc/state/working_memory.py. Entries are immutable, so a log is a value; the
-- timestamp, always 0.0 there, is left out. `A` is the type of the values before and after.
pub mod Laws
use dynamic_neural_computing.Prelude.{ℕ, suc, Option, List, [], ◌∷◌, ◌++◌, length}

pub record HistoryEntry (A : Type 0) : Type 0 where
  pub index : ℕ
  pub mutation_type : ℕ
  pub target_module : ℕ
  pub before_value : A
  pub after_value : A
  pub trigger_provenance_ref : Option ℕ

pub record HistoryLog (A : Type 0) : Type 0 where
  pub entries : List (HistoryEntry A)
  pub index_counter : ℕ

module _ {A : Type 0} where
  abbrev pub empty_log : HistoryLog A
  empty_log = record { entries = []; index_counter = 0 }

  pub append : ℕ → ℕ → A → A → Option ℕ → HistoryLog A → ℕ × HistoryLog A
  append kind target old new trigger h = (
    h.index_counter,
    record {
      entries =
          h.entries
          ++ record {
            index = h.index_counter;
            mutation_type = kind;
            target_module = target;
            before_value = old;
            after_value = new;
            trigger_provenance_ref = trigger;
          }
            ∷ [];
      index_counter = suc h.index_counter;
    },
  )

  pub truncate : HistoryLog A → HistoryLog A
  truncate h = record { entries = []; index_counter = 0 }

  -- `__len__`
  unfoldable pub size : HistoryLog A → ℕ
  size h = length h.entries
