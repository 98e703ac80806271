-- ===== src/Memory/Stores/Queries.antt =====
-- What a query asks of a record, and the order of the records that are found.
use dynamic_neural_computing.Prelude.{
  ℕ, ◌≡◌, true, false, not, ◌==◌, ◌&&◌, ◌||◌, none, some, List, [], ◌∷◌, mem, arith, Bool-cases,
  inl, inr, all, all_at, all_of_mem, ltb, leb, Option-cases, ◌⊎◌, ◌≤◌, ◌<◌,
}
use dynamic_neural_computing.Memory.Stores.{
  MemoryRecord, Query, is_candidate, comes_first, insert_by_score, sort_by_score,
}

-- What a query asks of a record.
pub record IsCandidate (query : Query) (r : MemoryRecord) : Type 0 where
  pub same_tenant : r.tenant_id ≡ query.tenant_id
  pub present : r.deleted ≡ false
  pub labels_allowed :
      (label : ℕ) → mem label r.security_labels ≡ true → mem label query.allowed_labels ≡ true
  pub trusted : query.minimum_trust ≤ r.trust
  pub unexpired : (expiry : ℕ) → r.expires_at_ns ≡ some expiry → query.now_ns < expiry
  pub in_domain : (domain : ℕ) → query.domain ≡ some domain → r.domain ≡ domain
  pub verified : query.critical ≡ true → r.integrity_verified ≡ true

pub is_candidate-IsCandidate :
    (query : Query) (r : MemoryRecord) → is_candidate query r ≡ true → IsCandidate query r
unfolding is_candidate
is_candidate-IsCandidate query r h = record {
  same_tenant = ground (arith, h);
  present = ground (arith, h);
  labels_allowed = λ label m.
      all_at (λ x. mem x query.allowed_labels) r.security_labels label (ground (arith, h)) m;
  trusted = ground (arith, h);
  unexpired = λ expiry e. ground (arith, h, e);
  in_domain = λ domain e. ground (arith, h, e);
  verified = λ e. ground (arith, h, e);
}

pub IsCandidate-is_candidate :
    (query : Query) (r : MemoryRecord) → IsCandidate query r → is_candidate query r ≡ true
unfolding is_candidate
IsCandidate-is_candidate query r c =
    let labels : all (λ x. mem x query.allowed_labels) r.security_labels ≡ true =
      all_of_mem (λ x. mem x query.allowed_labels) r.security_labels c.labels_allowed in
    let expiry : elim r.expires_at_ns [ none ↦ true | some e ↦ ltb query.now_ns e ] ≡ true =
      elim (Option-cases r.expires_at_ns) [
        | inl n ↦ ground (arith, n)
        | inr (e, s) ↦ ground (arith, s, c.unexpired e s)
      ] in
    let domain : elim query.domain [ none ↦ true | some d ↦ r.domain == d ] ≡ true =
      elim (Option-cases query.domain) [
        | inl n ↦ ground (arith, n)
        | inr (d, s) ↦ ground (arith, s, c.in_domain d s)
      ] in
    let verified : (not query.critical || r.integrity_verified) ≡ true =
      elim (Bool-cases query.critical) [
        | inl t ↦ ground (arith, c.verified t)
        | inr f ↦ ground (arith, f)
      ] in
    ground (arith, c.same_tenant, c.present, labels, c.trusted, expiry, domain, verified)

-- What the exact reranker makes of a record, or 0 without one.
abbrev pub exactness : Query → MemoryRecord → ℕ
exactness query r = elim query.exact_reranker [ none ↦ 0 | some rank ↦ rank r ]

-- The greater exactness first, then the greater trust, the more words shared, the lesser identity.
abbrev pub Precedes : Query → MemoryRecord → MemoryRecord → Type 0
Precedes query a b =
    (exactness query b < exactness query a)
    ⊎ (exactness query a ≡ exactness query b)
      × ((b.trust < a.trust)
          ⊎ (a.trust ≡ b.trust)
            × ((query.lexical b < query.lexical a)
                ⊎ (query.lexical a ≡ query.lexical b) × (a.record_id ≤ b.record_id)))

comes_first-Precedes :
    (query : Query) (a b : MemoryRecord) → comes_first query a b ≡ true → Precedes query a b
unfolding comes_first
comes_first-Precedes query a b h = by_exact (exactness query a) (exactness query b) h
  where
    by_exact :
        (x y : ℕ)
        → (ltb y x
            || x == y
              && (ltb b.trust a.trust
                  || a.trust == b.trust
                    && (ltb (query.lexical b) (query.lexical a)
                        || query.lexical a == query.lexical b && leb a.record_id b.record_id)))
          ≡ true
        → (y < x)
          ⊎ (x ≡ y)
            × ((b.trust < a.trust)
                ⊎ (a.trust ≡ b.trust)
                  × ((query.lexical b < query.lexical a)
                      ⊎ (query.lexical a ≡ query.lexical b) × (a.record_id ≤ b.record_id)))
    by_exact x y k = elim (Bool-cases (ltb y x)) [
      | inl t ↦ inl (ground (arith, t))
      | inr f ↦ inr (
        ground (arith, k, f),
        elim (Bool-cases (ltb b.trust a.trust)) [
          | inl t ↦ inl (ground (arith, t))
          | inr g ↦ inr (
            ground (arith, k, f, g),
            elim (Bool-cases (ltb (query.lexical b) (query.lexical a))) [
              | inl t ↦ inl (ground (arith, t))
              | inr i ↦ inr (ground (arith, k, f, g, i), ground (arith, k, f, g, i))
            ],
          )
        ],
      )
    ]

-- Every record precedes the next one.
abbrev pub IsRanked : Query → List MemoryRecord → Type 0
IsRanked query [] = Unit
IsRanked query (a ∷ []) = Unit
IsRanked query (a ∷ b ∷ rs) = Precedes query a b × IsRanked query (b ∷ rs)

comes_first_total :
    (query : Query) (a b : MemoryRecord) → comes_first query a b ≡ false → Precedes query b a
comes_first_total query a b e =
    comes_first-Precedes query b a (unfold comes_first in ground (arith, e))

insert_by_score-IsRanked :
    (query : Query) (r : MemoryRecord) (rs : List MemoryRecord)
    → IsRanked query rs
    → IsRanked query (insert_by_score query r rs)
unfolding insert_by_score
insert_by_score-IsRanked query r [] h = tt
insert_by_score-IsRanked query r (x ∷ []) h = elim (Bool-cases (comes_first query r x)) [
  | inl t ↦ rw t (comes_first-Precedes query r x t, tt)
  | inr f ↦ rw f (comes_first_total query r x f, tt)
]
insert_by_score-IsRanked query r (x ∷ y ∷ rs) h = elim (Bool-cases (comes_first query r x)) [
  | inl t ↦ rw t (comes_first-Precedes query r x t, h)
  | inr f ↦
      let rest : IsRanked query (insert_by_score query r (y ∷ rs)) =
        insert_by_score-IsRanked query r (y ∷ rs) h.1 in
      elim (Bool-cases (comes_first query r y)) [
        | inl t ↦ rw (f, t) (comes_first_total query r x f, (comes_first-Precedes query r y t, h.1))
        | inr g ↦ rw (f, g) (h.0, rw g at rest)
      ]
]

pub sort_by_score-IsRanked :
    (query : Query) (rs : List MemoryRecord) → IsRanked query (sort_by_score query rs)
unfolding sort_by_score
sort_by_score-IsRanked query [] = tt
sort_by_score-IsRanked query (r ∷ rs) =
    insert_by_score-IsRanked query r (sort_by_score query rs) (sort_by_score-IsRanked query rs)
