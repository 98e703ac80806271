-- ===== src/Memory/Stores/Tests.antt =====
-- Runs of the stores.
use dynamic_neural_computing.Prelude.{
  ℕ, ◌≡◌, ◌⊎◌, ◌↔◌, refl, Bool, true, false, none, some, List, [], ◌∷◌, any, All, lookup, mem,
  IsSorted, ok,
}
use dynamic_neural_computing.Memory.Stores.{
  semantic, audit, MemoryRecord, MemoryStore, GovernedMemory, new_store, put, Query, retrieve,
  invalidate_dependencies,
}
use dynamic_neural_computing.Memory.Stores.Holds.{
  Call, puts, deletes, run, perform, is_delete, record-Fate,
}
use dynamic_neural_computing.Memory.Stores.Validity.{run-IsKeyed}
use dynamic_neural_computing.Memory.Stores.Retrieval.{ids, retrieve_lem}
use dynamic_neural_computing.Memory.Stores.Queries.{IsCandidate, IsRanked}
use dynamic_neural_computing.Memory.Stores.Invalidation.{
  Invalidates, SomeStale, invalidate_dependencies_lem,
}

abbrev fact : ℕ → ℕ → Bool → MemoryRecord
fact i trust held = record {
  record_id = i;
  kind = semantic;
  tenant_id = 1;
  content = some 50;
  provenance = 2 ∷ [];
  security_labels = 4 ∷ [];
  trust = trust;
  created_at_ns = 0;
  expires_at_ns = none;
  legal_hold = held;
  dependencies = 60 ∷ [];
  domain = 0;
  model_fingerprint = none;
  policy_fingerprint = none;
  integrity_verified = true;
  deleted = false;
  metadata = 0;
}

abbrev calls : List Call
calls = puts (fact 5 3 true) ∷ puts (fact 6 8 false) ∷ []

abbrev two_facts : MemoryStore
two_facts = run calls (new_store semantic)

held_there : lookup 5 two_facts.records ≡ some (fact 5 3 true)
unfolding run perform put new_store
held_there = refl

record-Fate_example :
    (lookup 5 (run (deletes 5 1 ∷ []) two_facts).records ≡ some (fact 5 3 true))
    ⊎ (true ≡ false)
      × (any (is_delete 5 1) (deletes 5 1 ∷ []) ≡ true)
      × (lookup 5 (run (deletes 5 1 ∷ []) two_facts).records
          ≡ some (record (fact 5 3 true) { deleted = true; content = none }))
record-Fate_example = record-Fate (deletes 5 1 ∷ []) 5 (fact 5 3 true) two_facts held_there

abbrev query : Query
query = record {
  tenant_id = 1;
  allowed_labels = 4 ∷ [];
  now_ns = 10;
  minimum_trust = 0;
  domain = none;
  critical = true;
  exact_reranker = some (λ r. r.trust);
  lexical = λ r. 0;
}

retrieve_lem_example :
    (rs : List MemoryRecord) × (retrieve query two_facts ≡ ok rs)
    × ((i : ℕ)
        → mem i (ids rs) ≡ true
        → (r : MemoryRecord) × (lookup i two_facts.records ≡ some r) × IsCandidate query r)
    × ((i : ℕ) (r : MemoryRecord)
        → lookup i two_facts.records ≡ some r
        → IsCandidate query r
        → mem i (ids rs) ≡ true)
    × All (λ r. lookup r.record_id two_facts.records ≡ some r) rs
    × IsRanked query rs
retrieve_lem_example = retrieve_lem semantic calls query refl

abbrev memory : GovernedMemory
memory = record { stores = two_facts ∷ run [] (new_store audit) ∷ [] }

-- Fact 5 is under legal hold, and is deleted all the same.
invalidate_dependencies_lem_example :
    Invalidates (60 ∷ []) memory.stores (invalidate_dependencies (60 ∷ []) memory).1.stores
    × ((i : ℕ)
        → (mem i (invalidate_dependencies (60 ∷ []) memory).0 ≡ true)
          ↔ SomeStale (60 ∷ []) i memory.stores)
    × IsSorted (invalidate_dependencies (60 ∷ []) memory).0
invalidate_dependencies_lem_example =
    invalidate_dependencies_lem (60 ∷ []) memory
      (run-IsKeyed semantic calls, (run-IsKeyed audit [], tt))
