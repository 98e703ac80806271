-- ===== src/Memory/Stores/Invalidation.antt =====
-- `invalidate_dependencies`: which records it deletes.
use dynamic_neural_computing.Prelude.{
  ℕ, ◌≡◌, refl, sym, ap, ◌∙◌, Bool, false, ◌||◌, none, some, List, [], ◌∷◌, mem, any, All, lookup,
  sorted, mem-sorted, IsSorted, sorted-IsSorted, mem-append, arith, Bool-cases, Option-cases, inl,
  inr, true, ◌⊎◌, ◌↔◌, any_at, any_of_mem,
}
use dynamic_neural_computing.Memory.Stores.{
  MemoryRecord, MemoryStore, GovernedMemory, snapshot, is_stale, invalidate_records,
  invalidate_stores, invalidate_dependencies,
}
use dynamic_neural_computing.Memory.Stores.Validity.{IsKeyed}
use dynamic_neural_computing.Memory.Stores.Sweeps.{found_as, invalidate_store_lem}

-- A record that is not deleted and depends on a changed fingerprint.
abbrev pub IsStale : List ℕ → MemoryRecord → Type 0
IsStale changed r =
    (r.deleted ≡ false) × (f : ℕ) × (mem f r.dependencies ≡ true) × (mem f changed ≡ true)

is_stale-IsStale :
    (changed : List ℕ) (r : MemoryRecord) → is_stale changed r ≡ true → IsStale changed r
is_stale-IsStale changed r h =
    let (f, depends, known) = any_at (λ f. mem f changed) r.dependencies (ground (arith, h)) in
    (ground (arith, h), f, depends, known)

IsStale-is_stale :
    (changed : List ℕ) (r : MemoryRecord) → IsStale changed r → is_stale changed r ≡ true
IsStale-is_stale changed r (present, f, depends, known) =
    ground (arith, present, any_of_mem (λ x. mem x changed) r.dependencies f depends known)

-- What is left of a store: its kind, and its records but for the stale ones, which are marked as
-- deleted and have no content.
pub record IsInvalidated (changed : List ℕ) (s t : MemoryStore) : Type 0 where
  pub same_kind : t.kind ≡ s.kind
  pub nothing_new : (i : ℕ) → lookup i s.records ≡ none → lookup i t.records ≡ none
  pub stale_deleted :
      (i : ℕ) (r : MemoryRecord)
      → lookup i s.records ≡ some r
      → IsStale changed r
      → lookup i t.records ≡ some (record r { deleted = true; content = none })
  pub others_left :
      (i : ℕ) (r : MemoryRecord)
      → lookup i s.records ≡ some r
      → (IsStale changed r → ⊥)
      → lookup i t.records ≡ some r

found_as-IsInvalidated :
    (changed : List ℕ) (s t : MemoryStore)
    → t.kind ≡ s.kind
    → ((i : ℕ) → lookup i t.records ≡ found_as changed (lookup i s.records))
    → IsInvalidated changed s t
found_as-IsInvalidated changed s t kind after = record {
  same_kind = kind;
  nothing_new = λ i e. ground (arith, after i, e);
  stale_deleted = λ i r e stale. ground (arith, after i, e, IsStale-is_stale changed r stale);
  others_left = λ i r e fresh. elim (Bool-cases (is_stale changed r)) [
    | inl stale ↦ absurd (fresh (is_stale-IsStale changed r stale))
    | inr f ↦ ground (arith, after i, e, f)
  ];
}

-- The stores before and after, one by one.
abbrev pub Invalidates : List ℕ → List MemoryStore → List MemoryStore → Type 0
Invalidates changed [] [] = Unit
Invalidates changed [] (t ∷ ts) = ⊥
Invalidates changed (s ∷ ss) [] = ⊥
Invalidates changed (s ∷ ss) (t ∷ ts) = IsInvalidated changed s t × Invalidates changed ss ts

abbrev has_stale : List ℕ → ℕ → MemoryStore → Bool
has_stale changed i s = elim (lookup i s.records) [ none ↦ false | some r ↦ is_stale changed r ]

-- One of the stores has a stale record of this identity.
abbrev pub SomeStale : List ℕ → ℕ → List MemoryStore → Type 0
SomeStale changed i [] = ⊥
SomeStale changed i (s ∷ ss) =
    ((r : MemoryRecord) × (lookup i s.records ≡ some r) × IsStale changed r)
    ⊎ SomeStale changed i ss

any_stale-SomeStale :
    (changed : List ℕ) (i : ℕ) (ss : List MemoryStore)
    → any (has_stale changed i) ss ≡ true
    → SomeStale changed i ss
any_stale-SomeStale changed i [] h = absurd (ground (arith, h))
any_stale-SomeStale changed i (s ∷ ss) h = elim (Option-cases (lookup i s.records)) [
  | inl missing ↦ inr (any_stale-SomeStale changed i ss (ground (arith, h, missing)))
  | inr (r, found) ↦ elim (Bool-cases (is_stale changed r)) [
    | inl stale ↦ inl (r, found, is_stale-IsStale changed r stale)
    | inr fresh ↦ inr (any_stale-SomeStale changed i ss (ground (arith, h, found, fresh)))
  ]
]

SomeStale-any_stale :
    (changed : List ℕ) (i : ℕ) (ss : List MemoryStore)
    → SomeStale changed i ss
    → any (has_stale changed i) ss ≡ true
SomeStale-any_stale changed i [] h = absurd h
SomeStale-any_stale changed i (s ∷ ss) (inl (r, found, stale)) =
    ground (arith, found, IsStale-is_stale changed r stale)
SomeStale-any_stale changed i (s ∷ ss) (inr h) = elim (Bool-cases (has_stale changed i s)) [
  | inl here ↦ ground (arith, here)
  | inr f ↦ ground (arith, f, SomeStale-any_stale changed i ss h)
]

invalidate_stores_lem :
    (changed : List ℕ) (ss : List MemoryStore)
    → All (λ s. IsKeyed s.records) ss
    → Invalidates changed ss (invalidate_stores changed ss).1
      × ((i : ℕ) → mem i (invalidate_stores changed ss).0 ≡ any (has_stale changed i) ss)
unfolding invalidate_stores
invalidate_stores_lem changed [] h = (tt, λ i. refl)
invalidate_stores_lem changed (s ∷ ss) h =
    let (rest, more) = invalidate_stores_lem changed ss h.1 in
    (
      (
        found_as-IsInvalidated changed s _ refl (λ i. (invalidate_store_lem changed i s h.0).0),
        rest,
      ),
      λ i.
          mem-append i (invalidate_records changed (snapshot s) s.records).0
            (invalidate_stores changed ss).0
          ∙ ap (λ b. b || mem i (invalidate_stores changed ss).0)
              (invalidate_store_lem changed i s h.0).1
          ∙ ap (λ b. has_stale changed i s || b) (more i),
    )

-- Where the records of the stores stand under their own identities, invalidate_dependencies deletes
-- exactly the records that are not deleted and depend on a changed fingerprint, whether under legal
-- hold or not, which are marked as deleted and lose their content; it leaves every other record and
-- the kinds, and returns the identities of those records in order.
pub invalidate_dependencies_lem :
    (changed : List ℕ) (memory : GovernedMemory)
    → All (λ s. IsKeyed s.records) memory.stores
    → Invalidates changed memory.stores (invalidate_dependencies changed memory).1.stores
      × ((i : ℕ)
          → (mem i (invalidate_dependencies changed memory).0 ≡ true)
            ↔ SomeStale changed i memory.stores)
      × IsSorted (invalidate_dependencies changed memory).0
unfolding invalidate_dependencies
invalidate_dependencies_lem changed memory h =
    let (after, listed) = invalidate_stores_lem changed memory.stores h in
    (
      after,
      λ i.
          let same : mem i (sorted (invalidate_stores changed memory.stores).0)
              ≡ any (has_stale changed i) memory.stores =
            mem-sorted i (invalidate_stores changed memory.stores).0 ∙ listed i in
          (
            λ m. any_stale-SomeStale changed i memory.stores (sym same ∙ m),
            λ m. same ∙ SomeStale-any_stale changed i memory.stores m,
          ),
      sorted-IsSorted (invalidate_stores changed memory.stores).0,
    )
