-- ===== src/Memory/Stores/Holds.antt =====
-- What the calls of a store do to a record: legal holds, tenants and deleted records.
use dynamic_neural_computing.Prelude.{
  ℕ, ◌≡◌, ◌⊎◌, sym, ap, ◌∙◌, Bool, true, false, not, ◌==◌, ◌&&◌, ◌||◌, Option, none, some, List, [],
  ◌∷◌, any, lookup, contains, insert, lookup-insert, Outcome, ok, raise, arith, Bool-cases,
  Option-cases, inl, inr, ==_iff, key_error, permission_error,
}
use dynamic_neural_computing.Memory.Stores.{
  MemoryRecord, MemoryStore, put, get, delete, wiped, same_kind,
}

pub data Call : Type 0 where
  puts : MemoryRecord → Call
  deletes : (record_id tenant_id : ℕ) → Call

-- The store that a call leaves: where it raises, the store as it was.
abbrev pub left_by : Outcome MemoryStore → MemoryStore → MemoryStore
left_by (ok s') s = s'
left_by (raise e) s = s

unfoldable pub perform : Call → MemoryStore → MemoryStore
perform (puts r) s = left_by (put r s) s
perform (deletes i t) s = left_by (delete i t s) s

unfoldable pub run : List Call → MemoryStore → MemoryStore
unfolding perform
run [] s = s
run (c ∷ cs) s = run cs (perform c s)

abbrev pub is_delete : ℕ → ℕ → Call → Bool
is_delete i t (puts r) = false
is_delete i t (deletes j u) = j == i && u == t

-- A put leaves every record that is there.
put-lookup :
    (i : ℕ) (r x : MemoryRecord) (s : MemoryStore)
    → lookup i s.records ≡ some r
    → lookup i (left_by (put x s) s).records ≡ some r
unfolding put
put-lookup i r x s there = elim (Bool-cases (same_kind x.kind s.kind)) [
  | inr other ↦ rw other there
  | inl same ↦ elim (Bool-cases (contains x.record_id s.records)) [
    | inl known ↦ rw (same, known) there
    | inr new ↦ elim (Bool-cases (i == x.record_id)) [
      | inl e ↦
          let met : lookup x.record_id s.records ≡ some r =
            ap (λ k. lookup k s.records) (sym ((==_iff i x.record_id).0 e)) ∙ there in
          absurd (ground (arith, met, new))
      | inr e ↦ rw (same, new) (ground (arith, there, e, lookup-insert i x.record_id x s.records))
    ]
  ]
]

abbrev Fate : ℕ → MemoryRecord → Bool → MemoryStore → Type 0
Fate i r asked s =
    (lookup i s.records ≡ some r)
    ⊎ (r.legal_hold ≡ false) × (asked ≡ true) × (lookup i s.records ≡ some (wiped r))

-- A delete of its tenant wipes a record without a legal hold; no other delete touches it.
delete-Fate :
    (i j t : ℕ) (r : MemoryRecord) (s : MemoryStore)
    → lookup i s.records ≡ some r
    → Fate i r (j == i && t == r.tenant_id) (left_by (delete j t s) s)
delete-Fate i j t r s there = elim (Option-cases (lookup j s.records)) [
  | inl missing ↦
      let out : delete j t s ≡ raise key_error = unfold delete get in ground (arith, missing) in
      inl (rw out there)
  | inr (x, found) ↦ elim (Bool-cases (not (x.tenant_id == t) || x.deleted)) [
    | inl hidden ↦
        let out : delete j t s ≡ raise key_error =
          unfold delete get in ground (arith, found, hidden) in
        inl (rw out there)
    | inr shown ↦ elim (Bool-cases x.legal_hold) [
      | inl held ↦
          let out : delete j t s ≡ raise permission_error =
            unfold delete get in ground (arith, found, shown, held) in
          inl (rw out there)
      | inr free ↦
          let out : delete j t s ≡ ok (record s { records = insert j (wiped x) s.records }) =
            unfold delete get in ground (arith, found, shown, free) in
          elim (Bool-cases (j == i)) [
            | inr other ↦
                inl (rw out (ground (arith, there, other, lookup-insert i j (wiped x) s.records)))
            | inl same ↦
                let here : j ≡ i = (==_iff j i).0 same in
                let met : some x ≡ some r = sym found ∙ ap (λ k. lookup k s.records) here ∙ there in
                let is_r : x ≡ r =
                  ap {A = Option MemoryRecord} (λ o. elim o [ none ↦ x | some y ↦ y ]) met in
                inr (
                  ap (λ y. y.legal_hold) (sym is_r) ∙ free,
                  ground (arith, ap (λ y. y.tenant_id) is_r, shown, same),
                  rw out (
                      ground (
                        arith,
                        same,
                        lookup-insert i j (wiped x) s.records,
                        ap (λ y. some (wiped y)) is_r,
                      )),
                )
          ]
    ]
  ]
]

perform-Fate :
    (i : ℕ) (c : Call) (r : MemoryRecord) (s : MemoryStore)
    → lookup i s.records ≡ some r
    → Fate i r (is_delete i r.tenant_id c) (perform c s)
unfolding perform
perform-Fate i (puts x) r s there = inl (put-lookup i r x s there)
perform-Fate i (deletes j t) r s there = delete-Fate i j t r s there

-- A deleted record stays as it is.
wiped_stays :
    (calls : List Call) (i : ℕ) (r : MemoryRecord) (s : MemoryStore)
    → lookup i s.records ≡ some (wiped r)
    → lookup i (run calls s).records ≡ some (wiped r)
unfolding run
wiped_stays [] i r s there = there
wiped_stays (c ∷ cs) i r s there =
    wiped_stays cs i r (perform c s)
      (elim (perform-Fate i c (wiped r) s there) [ inl same ↦ same | inr (_, _, again) ↦ again ])

-- Whatever calls of put and delete follow, a record of a store stays as it is, or it has no legal
-- hold, a delete of it by its own tenant was among the calls, and it is there unchanged but for the
-- mark as deleted and the content, which is gone.
pub record-Fate :
    (calls : List Call) (i : ℕ) (r : MemoryRecord) (s : MemoryStore)
    → lookup i s.records ≡ some r
    → (lookup i (run calls s).records ≡ some r)
      ⊎ (r.legal_hold ≡ false)
        × (any (is_delete i r.tenant_id) calls ≡ true)
        × (lookup i (run calls s).records ≡ some (record r { deleted = true; content = none }))
unfolding run
record-Fate [] i r s there = inl there
record-Fate (c ∷ cs) i r s there = elim (perform-Fate i c r s there) [
  | inl same ↦ elim (record-Fate cs i r (perform c s) same) [
    | inl stays ↦ inl stays
    | inr (free, asked, gone) ↦ inr (free, ground (arith, asked), gone)
  ]
  | inr (free, asked, gone) ↦
      inr (free, ground (arith, asked), wiped_stays cs i r (perform c s) gone)
]
