-- ===== src/Memory/Stores/Sweeps.antt =====
-- What the loops of `invalidate_dependencies` do to the records of one store.
use dynamic_neural_computing.Prelude.{
  ℕ, ◌≡◌, refl, sym, ap, subst, ◌∙◌, false, ◌==◌, ◌&&◌, Option, none, some, List, [], ◌∷◌, mem, All,
  Dict, lookup, contains, insert, keys, lookup-insert, contains-eq-mem, IsNodup, sorted, mem-sorted,
  IsNodup-sorted, if◌then◌else◌, arith, Bool-cases, Option-cases, inl, inr, ==_iff,
}
use dynamic_neural_computing.Memory.Stores.{
  MemoryRecord, MemoryStore, wiped, records_at, snapshot, is_stale, invalidate_records,
}
use dynamic_neural_computing.Memory.Stores.Validity.{IsKeyed}
use dynamic_neural_computing.Memory.Stores.Retrieval.{ids}

-- What an invalidation makes of a record.
abbrev pub invalidated : List ℕ → MemoryRecord → MemoryRecord
invalidated changed r = if is_stale changed r then wiped r else r

abbrev pub found_as : List ℕ → Option MemoryRecord → Option MemoryRecord
found_as changed none = none
found_as changed (some r) = some (invalidated changed r)

abbrev IsStored : Dict MemoryRecord → List MemoryRecord → Type 0
IsStored d rs = All (λ r. lookup r.record_id d ≡ some r) rs

IsStored-insert :
    (i : ℕ) (x : MemoryRecord) (d : Dict MemoryRecord) (rs : List MemoryRecord)
    → mem i (ids rs) ≡ false
    → IsStored d rs
    → IsStored (insert i x d) rs
IsStored-insert i x d [] new h = tt
IsStored-insert i x d (r ∷ rs) new h = (
  ground (arith, h.0, new, lookup-insert r.record_id i x d),
  IsStored-insert i x d rs (ground (arith, new)) h.1,
)

invalidate_records_lem :
    (changed : List ℕ) (i : ℕ) (rs : List MemoryRecord) (d : Dict MemoryRecord)
    → IsNodup (ids rs)
    → IsStored d rs
    → (lookup i (invalidate_records changed rs d).1
        ≡ (if mem i (ids rs) then found_as changed (lookup i d) else lookup i d))
      × (mem i (invalidate_records changed rs d).0
          ≡ (mem i (ids rs) && elim (lookup i d) [ none ↦ false | some r ↦ is_stale changed r ]))
unfolding invalidate_records
invalidate_records_lem changed i [] d nodup stored = (refl, refl)
invalidate_records_lem changed i (r ∷ rs) d nodup stored = elim (Bool-cases (is_stale changed r)) [
  | inr fresh ↦
      let (there, listed) = invalidate_records_lem changed i rs d nodup.1 stored.1 in
      elim (Bool-cases (i == r.record_id)) [
        | inl same ↦
            let here : i ≡ r.record_id = (==_iff i r.record_id).0 same in
            let met : lookup i d ≡ some r = ap (λ x. lookup x d) here ∙ stored.0 in
            let gone : mem i (ids rs) ≡ false = ap (λ x. mem x (ids rs)) here ∙ nodup.0 in
            rw (fresh, same)
              (ground (arith, there, gone, met, fresh), ground (arith, listed, gone, met, fresh))
        | inr other ↦ rw (fresh, other) (there, listed)
      ]
  | inl stale ↦
      let d' : Dict MemoryRecord = insert r.record_id (wiped r) d in
      let (there, listed) =
        invalidate_records_lem changed i rs d' nodup.1
          (IsStored-insert r.record_id (wiped r) d rs nodup.0 stored.1) in
      let now : lookup i d' ≡ (if i == r.record_id then some (wiped r) else lookup i d) =
        lookup-insert i r.record_id (wiped r) d in
      elim (Bool-cases (i == r.record_id)) [
        | inl same ↦
            let here : i ≡ r.record_id = (==_iff i r.record_id).0 same in
            let met : lookup i d ≡ some r = ap (λ x. lookup x d) here ∙ stored.0 in
            let gone : mem i (ids rs) ≡ false = ap (λ x. mem x (ids rs)) here ∙ nodup.0 in
            rw (stale, same)
              (ground (arith, there, gone, met, stale, now, same), ground (arith, met, stale))
        | inr other ↦
            rw (stale, other)
              (ground (arith, there, now, other), ground (arith, listed, now, other))
      ]
]

mem-records_at :
    (i : ℕ) (ks : List ℕ) (d : Dict MemoryRecord)
    → IsKeyed d
    → mem i (ids (records_at ks d)) ≡ (mem i ks && contains i d)
mem-records_at i [] d k = refl
mem-records_at i (j ∷ ks) d k = elim (Option-cases (lookup j d)) [
  | inl missing ↦ elim (Bool-cases (i == j)) [
    | inl same ↦
        let met : lookup i d ≡ none = ap (λ x. lookup x d) ((==_iff i j).0 same) ∙ missing in
        ground (arith, missing, met, mem-records_at i ks d k)
    | inr other ↦ ground (arith, missing, other, mem-records_at i ks d k)
  ]
  | inr (r, found) ↦ elim (Bool-cases (i == j)) [
    | inl same ↦
        let met : lookup i d ≡ some r = ap (λ x. lookup x d) ((==_iff i j).0 same) ∙ found in
        ground (arith, found, met, same, k.keyed j r found, mem-records_at i ks d k)
    | inr other ↦ ground (arith, found, other, k.keyed j r found, mem-records_at i ks d k)
  ]
]

records_at-step :
    (j : ℕ) (ks : List ℕ) (d : Dict MemoryRecord)
    → (lookup j d ≡ none → records_at (j ∷ ks) d ≡ records_at ks d)
      × ((r : MemoryRecord) → lookup j d ≡ some r → records_at (j ∷ ks) d ≡ r ∷ records_at ks d)
records_at-step j ks d = (λ missing. ground (arith, missing), λ r found. ground (arith, found))

IsNodup-records_at :
    (ks : List ℕ) (d : Dict MemoryRecord) → IsKeyed d → IsNodup ks → IsNodup (ids (records_at ks d))
IsNodup-records_at [] d k h = tt
IsNodup-records_at (j ∷ ks) d k h = elim (Option-cases (lookup j d)) [
  | inl missing ↦
      subst (λ rs. IsNodup (ids rs)) (sym ((records_at-step j ks d).0 missing))
        (IsNodup-records_at ks d k h.1)
  | inr (r, found) ↦
      subst (λ rs. IsNodup (ids rs)) (sym ((records_at-step j ks d).1 r found))
        (
          ap (λ x. mem x (ids (records_at ks d))) (k.keyed j r found)
              ∙ ground (arith, mem-records_at j ks d k, h.0),
          IsNodup-records_at ks d k h.1,
        )
]

records_at-IsStored :
    (ks : List ℕ) (d : Dict MemoryRecord) → IsKeyed d → IsStored d (records_at ks d)
records_at-IsStored [] d k = tt
records_at-IsStored (j ∷ ks) d k = elim (Option-cases (lookup j d)) [
  | inl missing ↦
      subst (IsStored d) (sym ((records_at-step j ks d).0 missing)) (records_at-IsStored ks d k)
  | inr (r, found) ↦
      subst (IsStored d) (sym ((records_at-step j ks d).1 r found))
        (ap (λ x. lookup x d) (k.keyed j r found) ∙ found, records_at-IsStored ks d k)
]

-- One store and its snapshot.
pub invalidate_store_lem :
    (changed : List ℕ) (i : ℕ) (s : MemoryStore)
    → IsKeyed s.records
    → (lookup i (invalidate_records changed (snapshot s) s.records).1
        ≡ found_as changed (lookup i s.records))
      × (mem i (invalidate_records changed (snapshot s) s.records).0
          ≡ elim (lookup i s.records) [ none ↦ false | some r ↦ is_stale changed r ])
unfolding snapshot
invalidate_store_lem changed i s k =
    let d : Dict MemoryRecord = s.records in
    let ks : List ℕ = sorted (keys d) in
    let (there, listed) =
      invalidate_records_lem changed i (records_at ks d) d
        (IsNodup-records_at ks d k (IsNodup-sorted (keys d) k.distinct))
        (records_at-IsStored ks d k) in
    let known : mem i (ids (records_at ks d)) ≡ contains i d =
      ground (arith, mem-records_at i ks d k, mem-sorted i (keys d), contains-eq-mem i d) in
    elim (Option-cases (lookup i d)) [
      | inl missing ↦
          (ground (arith, there, known, missing), ground (arith, listed, known, missing))
      | inr (r, found) ↦ (ground (arith, there, known, found), ground (arith, listed, known, found))
    ]
