-- ===== src/Memory/Stores/Validity.antt =====
-- The records of a store stand under their own identities.
use dynamic_neural_computing.Prelude.{
  ℕ, ◌≡◌, refl, sym, ap, subst, ◌∙◌, ◌==◌, some, List, [], ◌∷◌, Dict, lookup, contains, insert,
  keys, IsNodup, IsNodup-insert, insert_cases, lookup-absent, Outcome, ok, raise, arith, Bool-cases,
  Option-cases, inl, inr, ==_iff,
}
use dynamic_neural_computing.Memory.Stores.{
  MemoryKind, MemoryRecord, MemoryStore, new_store, put, get, delete, wiped, same_kind,
}
use dynamic_neural_computing.Memory.Stores.Holds.{Call, puts, deletes, left_by, perform, run}

pub record IsKeyed (d : Dict MemoryRecord) : Type 0 where
  pub keyed : (i : ℕ) (r : MemoryRecord) → lookup i d ≡ some r → r.record_id ≡ i
  pub distinct : IsNodup (keys d)

pub insert-IsKeyed :
    (r : MemoryRecord) (i : ℕ) (d : Dict MemoryRecord)
    → r.record_id ≡ i
    → IsKeyed d
    → IsKeyed (insert i r d)
insert-IsKeyed r i d own k = record {
  keyed = λ j x e. elim (insert_cases j i r x d e) [
    | inl (here, new) ↦ ap (λ y. y.record_id) (sym new) ∙ own ∙ sym here
    | inr old ↦ k.keyed j x old
  ];
  distinct = IsNodup-insert i r d k.distinct;
}

pub tail-IsKeyed :
    (i : ℕ) (r : MemoryRecord) (d : Dict MemoryRecord) → IsKeyed ((i, r) ∷ d) → IsKeyed d
tail-IsKeyed i r d k = record {
  keyed = λ j x e. elim (Bool-cases (j == i)) [
    | inl same ↦
        let met : lookup i d ≡ some x = ap (λ y. lookup y d) (sym ((==_iff j i).0 same)) ∙ e in
        absurd (ground (arith, met, lookup-absent i d k.distinct.0))
    | inr other ↦ k.keyed j x (ground (arith, other, e))
  ];
  distinct = k.distinct.1;
}

put-IsKeyed :
    (r : MemoryRecord) (s : MemoryStore) → IsKeyed s.records → IsKeyed (left_by (put r s) s).records
unfolding put
put-IsKeyed r s k = elim (Bool-cases (same_kind r.kind s.kind)) [
  | inr other ↦ rw other k
  | inl same ↦ elim (Bool-cases (contains r.record_id s.records)) [
    | inl known ↦ rw (same, known) k
    | inr new ↦ rw (same, new) (insert-IsKeyed r r.record_id s.records refl k)
  ]
]

-- A delete that succeeds was of a record under that identity.
delete-eq-ok :
    (i t : ℕ) (s s' : MemoryStore)
    → delete i t s ≡ ok s'
    → (r : MemoryRecord) × (lookup i s.records ≡ some r)
      × (record s { records = insert i (wiped r) s.records } ≡ s')
unfolding delete get
delete-eq-ok i t s s' e = elim (Option-cases (lookup i s.records)) [
  | inl missing ↦ absurd (ground (arith, e, missing))
  | inr (r, found) ↦ (r, found, ground (arith, e, found))
]

delete-IsKeyed :
    (i t : ℕ) (s : MemoryStore) → IsKeyed s.records → IsKeyed (left_by (delete i t s) s).records
delete-IsKeyed i t s k = by_cases (delete i t s) refl
  where
    by_cases : (out : Outcome MemoryStore) → delete i t s ≡ out → IsKeyed (left_by out s).records
    by_cases (raise x) e = k
    by_cases (ok s') e =
        let (r, found, made) = delete-eq-ok i t s s' e in
        subst (λ x. IsKeyed x.records) made
          (insert-IsKeyed (wiped r) i s.records (k.keyed i r found) k)

run-IsKeyed_from :
    (calls : List Call) (s : MemoryStore) → IsKeyed s.records → IsKeyed (run calls s).records
unfolding run perform
run-IsKeyed_from [] s k = k
run-IsKeyed_from (puts r ∷ cs) s k = run-IsKeyed_from cs (left_by (put r s) s) (put-IsKeyed r s k)
run-IsKeyed_from (deletes i t ∷ cs) s k =
    run-IsKeyed_from cs (left_by (delete i t s) s) (delete-IsKeyed i t s k)

pub run-IsKeyed :
    (kind : MemoryKind) (calls : List Call) → IsKeyed (run calls (new_store kind)).records
unfolding new_store
run-IsKeyed kind calls =
    run-IsKeyed_from calls (new_store kind)
      (record { keyed = λ i r e. absurd (ground (arith, e)); distinct = tt })
