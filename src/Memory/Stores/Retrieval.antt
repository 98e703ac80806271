-- ===== src/Memory/Stores/Retrieval.antt =====
-- `retrieve`: which records it finds, and in which order.
use dynamic_neural_computing.Prelude.{
  ℕ, ◌≡◌, refl, ap, ◌∙◌, Bool, true, false, not, ◌==◌, ◌&&◌, ◌||◌, none, some, List, [], ◌∷◌, map,
  mem, filter, All, All-filter, Dict, lookup, values, lookup-absent, is_some, ok, arith, Bool-cases,
  inl, inr, ==_iff, Option-cases,
}
use dynamic_neural_computing.Memory.Stores.{
  MemoryKind, MemoryRecord, new_store, Query, is_candidate, comes_first, insert_by_score,
  sort_by_score, retrieve,
}
use dynamic_neural_computing.Memory.Stores.Holds.{Call, run}
use dynamic_neural_computing.Memory.Stores.Validity.{IsKeyed, tail-IsKeyed, run-IsKeyed}
use dynamic_neural_computing.Memory.Stores.Queries.{
  IsCandidate, is_candidate-IsCandidate, IsCandidate-is_candidate, IsRanked, sort_by_score-IsRanked,
}

abbrev pub ids : List MemoryRecord → List ℕ
ids rs = map (λ r. r.record_id) rs

mem-insert_by_score :
    (query : Query) (i : ℕ) (r : MemoryRecord) (rs : List MemoryRecord)
    → mem i (ids (insert_by_score query r rs)) ≡ (i == r.record_id || mem i (ids rs))
unfolding insert_by_score
mem-insert_by_score query i r [] = refl
mem-insert_by_score query i r (x ∷ rs) = elim (Bool-cases (comes_first query r x)) [
  | inl t ↦ rw t refl
  | inr f ↦ rw f (ground (arith, mem-insert_by_score query i r rs))
]

mem-sort_by_score :
    (query : Query) (i : ℕ) (rs : List MemoryRecord)
    → mem i (ids (sort_by_score query rs)) ≡ mem i (ids rs)
unfolding sort_by_score
mem-sort_by_score query i [] = refl
mem-sort_by_score query i (r ∷ rs) =
    mem-insert_by_score query i r (sort_by_score query rs)
    ∙ ap (λ b. i == r.record_id || b) (mem-sort_by_score query i rs)

mem-filter-values :
    (p : MemoryRecord → Bool) (i : ℕ) (d : Dict MemoryRecord)
    → IsKeyed d
    → mem i (ids (filter p (values d))) ≡ elim (lookup i d) [ none ↦ false | some r ↦ p r ]
mem-filter-values p i [] k = refl
mem-filter-values p i ((j, r) ∷ d) k =
    let own : r.record_id ≡ j = k.keyed j r (ground arith) in
    let rest : mem i (ids (filter p (values d)))
        ≡ elim (lookup i d) [ none ↦ false | some x ↦ p x ] =
      mem-filter-values p i d (tail-IsKeyed j r d k) in
    elim (Bool-cases (p r)) [
      | inl t ↦ ground (arith, t, own, rest)
      | inr f ↦ elim (Bool-cases (i == j)) [
        | inl same ↦
            let gone : lookup i d ≡ none =
              ap (λ x. lookup x d) ((==_iff i j).0 same) ∙ lookup-absent j d k.distinct.0 in
            ground (arith, f, same, gone, rest)
        | inr other ↦ ground (arith, f, other, rest)
      ]
    ]

module _ {ℓ} (P : MemoryRecord → Type ℓ) where
  All-insert_by_score :
      (query : Query) (r : MemoryRecord) (rs : List MemoryRecord)
      → P r
      → All P rs
      → All P (insert_by_score query r rs)
  unfolding insert_by_score
  All-insert_by_score query r [] h hs = (h, tt)
  All-insert_by_score query r (x ∷ rs) h hs = elim (Bool-cases (comes_first query r x)) [
    | inl t ↦ rw t (h, hs)
    | inr f ↦ rw f (hs.0, All-insert_by_score query r rs h hs.1)
  ]

  All-sort_by_score :
      (query : Query) (rs : List MemoryRecord) → All P rs → All P (sort_by_score query rs)
  unfolding sort_by_score
  All-sort_by_score query [] hs = tt
  All-sort_by_score query (r ∷ rs) hs =
      All-insert_by_score query r (sort_by_score query rs) hs.0 (All-sort_by_score query rs hs.1)

values-All :
    (whole d : Dict MemoryRecord)
    → IsKeyed d
    → ((i : ℕ) (r : MemoryRecord) → lookup i d ≡ some r → lookup i whole ≡ some r)
    → All (λ r. lookup r.record_id whole ≡ some r) (values d)
values-All whole [] k h = tt
values-All whole ((j, r) ∷ d) k h =
    let own : r.record_id ≡ j = k.keyed j r (ground arith) in
    (
      ap (λ x. lookup x whole) own ∙ h j r (ground arith),
      values-All whole d (tail-IsKeyed j r d k) (λ i x e. elim (Bool-cases (i == j)) [
        | inl same ↦
            let gone : lookup i d ≡ none =
              ap (λ y. lookup y d) ((==_iff i j).0 same) ∙ lookup-absent j d k.distinct.0 in
            absurd (ground (arith, gone, e))
        | inr other ↦ h i x (ground (arith, other, e))
      ]),
    )

-- After any calls of put and delete on a new store, a retrieval that is not critical or has an
-- exact reranker returns, as they are stored, exactly the records of the query's tenant that are
-- not deleted, have only allowed labels, enough trust, an expiry in the future and the domain asked
-- for, if there are such, and are verified if the query is critical; the greater exact score comes
-- first, then the greater trust, then the more words shared, then the lesser identity.
pub retrieve_lem :
    (kind : MemoryKind) (calls : List Call) (query : Query)
    → (query.critical && not (is_some query.exact_reranker)) ≡ false
    → (rs : List MemoryRecord) × (retrieve query (run calls (new_store kind)) ≡ ok rs)
      × ((i : ℕ)
          → mem i (ids rs) ≡ true
          → (r : MemoryRecord) × (lookup i (run calls (new_store kind)).records ≡ some r)
            × IsCandidate query r)
      × ((i : ℕ) (r : MemoryRecord)
          → lookup i (run calls (new_store kind)).records ≡ some r
          → IsCandidate query r
          → mem i (ids rs) ≡ true)
      × All (λ r. lookup r.record_id (run calls (new_store kind)).records ≡ some r) rs
      × IsRanked query rs
unfolding retrieve
retrieve_lem kind calls query allowed =
    let d : Dict MemoryRecord = (run calls (new_store kind)).records in
    let k : IsKeyed d = run-IsKeyed kind calls in
    let found : List MemoryRecord = filter (is_candidate query) (values d) in
    let listed : (i : ℕ)
        → mem i (ids (sort_by_score query found))
          ≡ elim (lookup i d) [ none ↦ false | some r ↦ is_candidate query r ] =
      λ i. mem-sort_by_score query i found ∙ mem-filter-values (is_candidate query) i d k in
    (
      sort_by_score query found,
      rw allowed refl,
      λ i m. elim (Option-cases (lookup i d)) [
        | inl missing ↦ absurd (ground (arith, listed i, m, missing))
        | inr (r, there) ↦
            (r, there, is_candidate-IsCandidate query r (ground (arith, listed i, m, there)))
      ],
      λ i r there c. ground (arith, listed i, there, IsCandidate-is_candidate query r c),
      All-sort_by_score (λ r. lookup r.record_id d ≡ some r) query found
          (All-filter (λ r. lookup r.record_id d ≡ some r) (is_candidate query) (values d)
            (values-All d d k (λ i r e. e))),
      sort_by_score-IsRanked query found,
    )
